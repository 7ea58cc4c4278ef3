-- ===== src/Core/Tests/Progress.antt =====
-- A session with a toy JSON, and a prompt of the agent's own messages with recalled notes.
use lottie_orchestrator.Prelude.{
  ℕ, ◌≡◌, ◌+◌, ◌++◌, refl, none, some, true, false, List, [], ◌∷◌, if◌then◌else◌,
}
use lottie_orchestrator.Prelude.Texts.{Text, codes}
use lottie_orchestrator.Prelude.Walks.{text_eq}
use lottie_orchestrator.Exec.{Exc, raised, ok, err}
use lottie_orchestrator.Files.{FilePath}
use lottie_orchestrator.Security.Screens.{Tools}
use lottie_orchestrator.Session.Store.{SessionState, Codec}
use lottie_orchestrator.Context.Compaction.{Message}
use lottie_orchestrator.Context.Compiler.{Source, Summarizer}
use lottie_orchestrator.Core.Progress.{Progress, merged, save_progress}
use lottie_orchestrator.Core.Resumed.{Resumed, save_progress-Resumed}
use lottie_orchestrator.Core.Assembly.{Assembly, context_sources, compile_prompt}
use lottie_orchestrator.Core.Prompt.{Sent, compilation, compile_prompt-Sent}

abbrev tools : Tools
tools = record {
  finditer = λ r t. [];
  scanners = record { scan_file = λ path content. []; search = λ pattern line. false };
  tmp = codes "t" ∷ [];
  active = none;
}

abbrev base : FilePath
base = codes "sessions" ∷ []

abbrev fresh : SessionState Text
fresh = record {
  session_id = codes "a1";
  agent = "writer";
  created_at = 3;
  updated_at = 3;
  progress = (codes "step", codes "one") ∷ [];
  runs = [];
}

abbrev later : SessionState Text
later = record fresh {
  updated_at = 5;
  progress = (codes "step", codes "two") ∷ (codes "note", codes "x") ∷ [];
}

-- the only text that can be read is the one that is written for `later`
abbrev codec : Codec Text
codec = record {
  dump = λ s. codes "{}";
  dump_indented = λ s. codes "{}";
  validate = λ t. if text_eq t (codes "{}") then ok later else err (raised "ValidationError" "");
  str = λ v. v;
}

abbrev updates : List (Text × Text)
updates = (codes "step", codes "two") ∷ (codes "note", codes "x") ∷ []

abbrev before : Progress Text
before = record { session = some fresh; store = some base; files = [] }

abbrev after : Progress Text
after = record {
  session = some later;
  store = some base;
  files = (base ++ codes "a1" ∷ codes "state.json" ∷ [], codes "{}") ∷ [];
}

saved : save_progress codec tools updates 5 before ≡ (ok tt, after)
unfolding save_progress lottie_orchestrator.Files.is_dir lottie_orchestrator.Prelude.Sort.sort_by
    lottie_orchestrator.Security.Markers.rules lottie_orchestrator.Prelude.Walks.splitlines
    lottie_orchestrator.Files.write
saved = refl

save_progress-Resumed_example : Resumed codec tools updates fresh base after
unfolding merged
save_progress-Resumed_example =
    save_progress-Resumed codec tools updates 5 fresh base before after refl refl refl saved

abbrev task : Message
task = record { role = "user"; content = codes "hi" }

abbrev notes : Message
notes = record { role = "system"; content = codes "n" }

abbrev knowledge : Source
knowledge = record {
  name = "knowledge";
  order = 50;
  pinned = false;
  messages =
      record {
        role = "user";
        content = codes "a text of the knowledge base that is far too long for it";
      }
      ∷ [];
}

abbrev summary : Message
summary = record { role = "system"; content = codes "[compacted knowledge] s" }

abbrev settings : Assembly
settings = record {
  compaction_enabled = true;
  max_context_tokens = 8;
  keep_recent = 6;
  recall_prefix = codes "n";
}

abbrev quiet : Exc → ℕ → ℕ
quiet exc w = w + 1

abbrev silent : Summarizer ℕ
silent messages w = (ok (codes "s"), w)

sent :
    compile_prompt quiet silent settings (task ∷ []) (knowledge ∷ []) 0
    ≡ (ok (notes ∷ summary ∷ task ∷ []), 0)
unfolding compile_prompt lottie_orchestrator.Prelude.Sort.sort_by
sent = refl

compile_prompt-Sent_example :
    Sent
      (context_sources settings.recall_prefix (task ∷ []) (knowledge ∷ []))
      settings.recall_prefix
      (task ∷ [])
      6
      (compilation quiet silent settings (task ∷ []) (knowledge ∷ []) 0)
      (notes ∷ summary ∷ task ∷ [])
compile_prompt-Sent_example =
    compile_prompt-Sent quiet silent settings (task ∷ []) (notes ∷ summary ∷ task ∷ [])
      (knowledge ∷ []) 0 0 ((λ p. ((λ q. cc, tt), refl, refl)), tt) sent
