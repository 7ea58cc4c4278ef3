-- ===== src/Core/Tests/Limits.antt =====
-- A model that uses ten tokens a call, in a run whose first prompt is too long and is summarised.
use lottie_orchestrator.Prelude.{
  ℕ, ◌+◌, ◌≡◌, refl, sym, ap, none, some, true, false, [], ◌∷◌, List, length, arith,
}
use lottie_orchestrator.Prelude.Texts.{codes}
use lottie_orchestrator.Exec.{Exc, ok, Exec}
use lottie_orchestrator.Runtime.Context.{null_usage}
use lottie_orchestrator.Context.Compaction.{Message}
use lottie_orchestrator.Context.Compiler.{Source}
use lottie_orchestrator.Core.Assembly.{Assembly}
use lottie_orchestrator.Core.Limits.{Response, RunLimits, Spending, complete_all}
use lottie_orchestrator.Core.Caps.{IsCount, Capped, complete_all-Capped}

-- the world is the number of calls
abbrev ten : List Message → Exec Exc ℕ Response
ten ms n =
    (ok (record { input_tokens = 6; output_tokens = 4; cost_usd = 1; content = codes "s" }), n + 1)

abbrev limits : RunLimits
limits = record { max_run_tokens = some 35; max_turns = some 3 }

abbrev settings : Assembly
settings = record {
  compaction_enabled = true;
  max_context_tokens = 8;
  keep_recent = 6;
  recall_prefix = [];
}

abbrev task : Message
task = record { role = "user"; content = codes "hi" }

abbrev knowledge : Source
knowledge = record {
  name = "knowledge";
  order = 50;
  pinned = false;
  messages =
      record { role = "user"; content = codes "a text of the knowledge base that is too long" }
      ∷ [];
}

abbrev requests : List (List Message × List Source)
requests = (task ∷ [], knowledge ∷ []) ∷ (task ∷ [], []) ∷ []

abbrev begun : Spending ℕ
begun = record { active = some null_usage; world = 0 }

-- two completions, and a call for the summary
abbrev spent : Spending ℕ
spent = record {
  active = some (record { input_tokens = 18; output_tokens = 12; cost_usd = 3; turns = 3 });
  world = 3;
}

ran : complete_all limits (λ exc n. n) ten settings requests begun ≡ (ok tt, spent)
unfolding complete_all lottie_orchestrator.Prelude.Sort.sort_by
ran = refl

ten-IsCount : IsCount (λ exc n. n) ten (λ n. n)
ten-IsCount = record {
  returned = λ ms w w' r h. sym (ap (λ x. x.1) h);
  raised = λ ms w w' exc h. cc;
  warned = λ exc w. refl;
}

complete_all-Capped_example : Capped limits (λ exc n. n) ten (λ n. n) null_usage 0 2 spent
complete_all-Capped_example =
    complete_all-Capped limits (λ exc n. n) ten (λ n. n) settings requests begun spent null_usage
      ten-IsCount refl (omega arith) (omega arith) ran
