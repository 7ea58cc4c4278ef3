-- ===== src/Knowledge/Manifest.antt =====
-- knowledge/manifest.py and knowledge/index.py: the queries of a manifest, and how its documents get
-- into a store. The embedder and the store are parameters that touch `W`.
use lottie_orchestrator.Prelude.{
  ℕ, ◌+◌, Option, none, some, List, [], ◌∷◌, map, keep, length, if◌then◌else◌,
}
use lottie_orchestrator.Prelude.Sort.{sort_by}
use lottie_orchestrator.Prelude.Texts.{Text, text_leb}
use lottie_orchestrator.Prelude.Walks.{text_eq}
use lottie_orchestrator.Exec.{Exc, raised, Result, ok, err, Exec}
use lottie_orchestrator.Knowledge.Chunking.{ChunkConfig, Chunk, chunk_document}
use lottie_orchestrator.Knowledge.Frontmatter.{KnowledgeLayer, layer_value, Document}

-- `docs.sort(key=lambda d: d.id)`
unfoldable pub sort_documents : List Document → List Document
unfolding sort_by text_leb
sort_documents docs = sort_by (λ d e. text_leb d.id e.id) docs

-- `by_id`
unfoldable pub by_id : Text → List Document → Option Document
by_id doc_id [] = none
by_id doc_id (doc ∷ docs) =
    let rest = by_id doc_id docs in if text_eq doc.id doc_id then some doc else rest

-- `by_layer`
unfoldable pub by_layer : KnowledgeLayer → List Document → List Document
unfolding layer_value
by_layer layer docs = keep (λ doc. text_eq (layer_value doc.layer) (layer_value layer)) docs

module _ {E : Type 0} where
  abbrev pub with_pair : Chunk × E → Result Exc (List (Chunk × E)) → Result Exc (List (Chunk × E))
  with_pair p (err e) = err e
  with_pair p (ok ps) = ok (p ∷ ps)

  -- `zip(chunks, embeddings, strict=True)`
  unfoldable pub zip_strict : List Chunk → List E → Result Exc (List (Chunk × E))
  zip_strict [] [] = ok []
  zip_strict (c ∷ cs) (e ∷ es) = with_pair (c, e) (zip_strict cs es)
  zip_strict [] (e ∷ es) = err (raised "ValueError" "zip() argument 2 is longer than argument 1")
  zip_strict (c ∷ cs) [] = err (raised "ValueError" "zip() argument 2 is shorter than argument 1")

module _ {E W : Type 0} (embed : List Text → Exec Exc W (List E))
    (add : List (Chunk × E) → Exec Exc W (Unit {0})) where
  abbrev pub counted : ℕ → Result Exc (Unit {0}) × W → Result Exc ℕ × W
  counted n (err e, w) = (err e, w)
  counted n (ok _, w) = (ok n, w)

  abbrev pub added : Result Exc (List (Chunk × E)) → Exec Exc W ℕ
  added (err e) w = (err e, w)
  added (ok items) w = counted (length items) (add items w)

  abbrev pub embedded : List Chunk → Result Exc (List E) × W → Result Exc ℕ × W
  embedded chunks (err e, w) = (err e, w)
  embedded chunks (ok embeddings, w) = added (zip_strict chunks embeddings) w

  -- one round of the loop: how many chunks it adds
  abbrev pub index_chunks : List Chunk → Exec Exc W ℕ
  index_chunks [] w = (ok 0, w)
  index_chunks (c ∷ cs) w = embedded (c ∷ cs) (embed (map (λ k. k.text) (c ∷ cs)) w)

  abbrev pub index_rest : (ℕ → Exec Exc W ℕ) → ℕ → Result Exc ℕ × W → Result Exc ℕ × W
  index_rest next total (err e, w) = (err e, w)
  index_rest next total (ok n, w) = next (total + n) w

  unfoldable pub index_documents : ChunkConfig → List Document → ℕ → Exec Exc W ℕ
  unfolding zip_strict chunk_document
  index_documents cfg [] total w = (ok total, w)
  index_documents cfg (doc ∷ docs) total w =
      index_rest (index_documents cfg docs) total
        (index_chunks (chunk_document doc.id doc.content cfg) w)

  -- `index_manifest`, with the configuration that is given
  unfoldable pub index_manifest : ChunkConfig → List Document → Exec Exc W ℕ
  unfolding index_documents
  index_manifest cfg docs = index_documents cfg docs 0
