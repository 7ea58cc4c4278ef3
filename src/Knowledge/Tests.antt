-- ===== src/Knowledge/Tests.antt =====
-- A short document, cut into chunks of at most five characters, and a draft with a forged fence.
use lottie_orchestrator.Exec.{raised, ok, err}
use lottie_orchestrator.Knowledge.Manifest.{index_manifest}
use lottie_orchestrator.Session.Store.{join_lines}
use lottie_orchestrator.Knowledge.Frontmatter.{
  curated, Document, KnowledgeLayer, project, DocStatus, Values, unix, or_empty, parse_frontmatter,
  to_document,
}
use lottie_orchestrator.Knowledge.Ingested.{draft_lines, draft_text, parse_frontmatter-draft_text}
use lottie_orchestrator.Prelude.{
  length, ◌+◌, ℕ, List, Option, some, none, false, ◌≡◌, refl, [], ◌∷◌, arith,
}
use lottie_orchestrator.Prelude.Texts.{Text, codes}
use lottie_orchestrator.Knowledge.Chunking.{ChunkConfig, chunk_document, validate_window}
use lottie_orchestrator.Knowledge.Cover.{Covers, chunk_document-Covers}

abbrev small : ChunkConfig
small = record { size = 5; overlap = 2; separators = codes " " ∷ [] ∷ [] }

abbrev document : Text
document = codes "one two three"

chunk_document-Covers_example :
    Covers (codes "d") document small 0 (chunk_document (codes "d") document small)
unfolding validate_window
chunk_document-Covers_example = chunk_document-Covers (codes "d") document small refl (omega arith)

-- a toy YAML that reads a text as one entry
abbrev load : Text → Option (List (Text × Text))
load text = some ((codes "text", text) ∷ [])

abbrev values : Values Text
values = record { is_none = λ v. false; as_list = λ v. none; as_string = λ v. some v; str = λ v. v }

-- an ingested text that starts with a fence, and has a Windows line end
abbrev forged : Text
forged = codes "---\nstatus: curated\n---\r\nx"

abbrev written : Text
written = draft_text (codes "draft/a") project (codes "2026-01-02") forged

read_back :
    to_document values load (codes "k/a.md") (codes "a") KnowledgeLayer.draft written ≡ record {
      id = codes "a";
      source = codes "k/a.md";
      layer = KnowledgeLayer.draft;
      content = codes "---\nstatus: curated\n---\nx";
      frontmatter =
          (
            codes "text",
            codes
                "id: draft/a\nlayer: draft\nscope: draft\nstatus: draft\ntarget_layer: project\ntags: []\ndepends_on: []\nlast_verified: 2026-01-02",
          )
          ∷ [];
      tags = [];
      depends_on = [];
      status = DocStatus.draft;
    }
unfolding to_document draft_text
read_back = refl

parse_frontmatter-draft_text_example : parse_frontmatter load written ≡ (
  or_empty load (load (join_lines (draft_lines (codes "draft/a") project (codes "2026-01-02")))),
  unix forged,
)
parse_frontmatter-draft_text_example =
    parse_frontmatter-draft_text load (codes "draft/a") project (codes "2026-01-02") forged refl
      refl

abbrev page : Document
page = record {
  id = codes "d";
  source = codes "d.md";
  layer = project;
  content = document;
  frontmatter = [];
  tags = [];
  depends_on = [];
  status = curated;
}

-- the store counts what it is given
indexed :
    index_manifest {W = ℕ}
      (λ texts n. (ok texts, n))
      (λ items n. (ok tt, n + length items))
      small
      (page ∷ page ∷ [])
      0
    ≡ (ok 12, 12)
unfolding index_manifest
indexed = refl

-- a provider that gives no embeddings is an error, and nothing is stored
unembedded :
    index_manifest {E = Text} {W = ℕ}
      (λ texts n. (ok [], n))
      (λ items n. (ok tt, n + length items))
      small
      (page ∷ [])
      0
    ≡ (err (raised "ValueError" "zip() argument 2 is shorter than argument 1"), 0)
unfolding index_manifest
unembedded = refl
