-- ===== src/Context/Tests.antt =====
-- Four turns of a conversation, of which the last one and the system message stay.
use lottie_orchestrator.Prelude.{ℕ, some, none, true, false, ◌≡◌, refl, Bool, List, [], ◌∷◌, str_eq}
use lottie_orchestrator.Prelude.Texts.{Text, codes}
use lottie_orchestrator.Exec.{ok, Exec, Exc}
use lottie_orchestrator.Context.Compaction.{Message, compact, summary_message}
use lottie_orchestrator.Context.Compiler.{Source, CompileResult, compile_context}
use lottie_orchestrator.Context.Compiled.{Compiled, compile_context-Compiled}
use lottie_orchestrator.Context.Survivors.{Compacted, compact-Compacted}

abbrev is_system : Message → Bool
is_system m = str_eq m.role "system"

abbrev short : List Message → Exec Exc ℕ Text
short ms w = (ok (codes "..."), w)

abbrev system : Message
system = record { role = "system"; content = codes "be brief" }

abbrev turn : Message
turn = record { role = "user"; content = codes "hello" }

abbrev turns : List Message
turns = turn ∷ system ∷ turn ∷ turn ∷ []

abbrev condensed : List Message
condensed = summary_message (codes "...") ∷ system ∷ turn ∷ []

compacted : compact is_system short 3 1 turns 0 ≡ (ok condensed, 0)
unfolding compact
compacted = refl

compact-Compacted_example : Compacted is_system 1 turns condensed
compact-Compacted_example = compact-Compacted is_system short 3 1 turns condensed 0 0 compacted

abbrev instructions : Source
instructions = record { name = "instructions"; order = 0; pinned = true; messages = system ∷ [] }

abbrev knowledge : Source
knowledge = record { name = "knowledge"; order = 5; pinned = false; messages = turn ∷ turn ∷ [] }

abbrev sources : List Source
sources = knowledge ∷ instructions ∷ []

abbrev compiled : CompileResult
compiled = record {
  messages = system ∷ [];
  contributions =
      record {
        name = "instructions";
        tokens = 2;
        messages = 1;
        pinned = true;
        dropped = false;
        summarised = false;
      }
      ∷ record {
        name = "knowledge";
        tokens = 2;
        messages = 2;
        pinned = false;
        dropped = true;
        summarised = false;
      }
      ∷ [];
}

over_budget : compile_context {W = ℕ} sources (some 3) none 6 0 ≡ (ok compiled, 0)
unfolding compile_context lottie_orchestrator.Prelude.Sort.sort_by
over_budget = refl

compile_context-Compiled_example : Compiled (instructions ∷ knowledge ∷ []) 6 (system ∷ [])
unfolding lottie_orchestrator.Prelude.Sort.sort_by
compile_context-Compiled_example =
    compile_context-Compiled sources (some 3) none 6 0 0 compiled
      ((λ _. (λ p. cc, (λ _. refl, tt)), (λ p. cc, tt))) over_budget
