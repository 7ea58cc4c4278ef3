-- ===== src/Core/Assembly.antt =====
-- core/base_agent.py: the prompt of a completion is compiled from sources, and learned content goes
-- through the gateway. The model is a parameter that touches `W`.
use lottie_orchestrator.Prelude.{
  ℕ, max, String, Option, none, some, Bool, true, false, List, [], ◌∷◌, ◌++◌, if◌then◌else◌,
}
use lottie_orchestrator.Prelude.Texts.{Text}
use lottie_orchestrator.Exec.{Exc, token_cap_exceeded, turn_limit_exceeded, Result, ok, err, Exec}
use lottie_orchestrator.Context.Compaction.{Message}
use lottie_orchestrator.Context.Compiler.{Source, CompileResult, Summarizer, compile_context}
use lottie_orchestrator.Security.Screens.{Tools}
use lottie_orchestrator.Memory.Records.{MemoryTier, MemoryOrigin}
use lottie_orchestrator.Memory.Reflection.{MemoryDelta}
use lottie_orchestrator.Memory.Gateway.{Store, ApplyResult, apply}

-- the settings of `set_compaction`, and `_recall_prefix`
pub record Assembly : Type 0 where
  pub compaction_enabled : Bool
  pub max_context_tokens : ℕ
  pub keep_recent : ℕ
  pub recall_prefix : Text

-- `set_compaction`; a negative number of messages to keep counts as 1, as 0 does
unfoldable pub set_compaction : Bool → ℕ → ℕ → Assembly → Assembly
set_compaction enabled max_context_tokens keep_recent a = record a {
  compaction_enabled = enabled;
  max_context_tokens = max_context_tokens;
  keep_recent = max 1 keep_recent;
}

-- `_set_recall_prefix`
unfoldable pub set_recall_prefix : Text → Assembly → Assembly
set_recall_prefix prefix a = record a { recall_prefix = prefix }

abbrev pub recall_sources : Text → List Source
recall_sources [] = []
recall_sources (c ∷ prefix) =
    record {
      name = "recall";
      order = 20;
      pinned = true;
      messages = record { role = "system"; content = c ∷ prefix } ∷ [];
    }
    ∷ []

abbrev pub agent_source : List Message → Source
agent_source messages = record { name = "agent"; order = 90; pinned = true; messages = messages }

-- `_context_sources`
unfoldable pub context_sources : Text → List Message → List Source → List Source
context_sources prefix messages extra =
    extra ++ (recall_sources prefix ++ agent_source messages ∷ [])

-- whether an exception is a budget stop
abbrev pub is_budget_stop : Exc → Bool
is_budget_stop (token_cap_exceeded _ _) = true
is_budget_stop (turn_limit_exceeded _ _) = true
is_budget_stop _ = false

abbrev pub when : {A : Type 0} → Bool → A → Option A
when true a = some a
when false a = none

module _ {W : Type 0} where
  -- the `try` of `_compile_context`; its warning is a parameter
  abbrev pub assembled :
      (Exc → W → W) → List Message → Result Exc CompileResult × W → Result Exc (List Message) × W
  assembled warn messages (ok r, w) = (ok r.messages, w)
  assembled warn messages (err exc, w) =
      if is_budget_stop exc then (err exc, w) else (ok messages, warn exc w)

  -- `_compile_context`
  unfoldable pub compile_prompt :
      (Exc → W → W)
      → Summarizer W
      → Assembly
      → List Message
      → List Source
      → Exec Exc W (List Message)
  unfolding context_sources compile_context
  compile_prompt warn summarize a messages extra w = assembled warn messages (
      compile_context (context_sources a.recall_prefix messages extra)
        (when a.compaction_enabled a.max_context_tokens) (when a.compaction_enabled summarize)
        a.keep_recent w)

abbrev pub tier_of : MemoryOrigin → MemoryTier
tier_of MemoryOrigin.reflection = MemoryTier.semantic
tier_of _ = MemoryTier.episodic

-- `_apply_deltas`
unfoldable pub apply_deltas :
    Tools
    → (Text → Text)
    → String
    → List MemoryDelta
    → Text
    → MemoryOrigin
    → Exec Exc Store ApplyResult
unfolding apply
apply_deltas tools sha256 name deltas namespace origin = apply tools sha256 deltas (record {
  namespace = namespace;
  source_agent = name;
  origin = origin;
  run_id = none;
  tier = tier_of origin;
})
