-- ===== src/Memory/Reflection.antt =====
-- memory/reflection.py, and the deltas of memory/schema.py: a run's trajectory, and the lessons that
-- are drawn from it.
use lottie_orchestrator.Prelude.{
  ℕ, ◌+◌, Option, none, some, Bool, true, false, not, List, [], ◌∷◌, ◌++◌, map, keep, leb, length,
  take, if◌then◌else◌,
}
use lottie_orchestrator.Prelude.Texts.{Text, codes}
use lottie_orchestrator.Prelude.Walks.{strip, is_empty, splitlines, decimal}
use lottie_orchestrator.Context.Compaction.{Message}

pub data DeltaOp : Type 0 where
  add update deprecate : DeltaOp

pub record MemoryDelta : Type 0 where
  pub op : DeltaOp
  pub content : Text
  pub tags : List Text
  pub target_id : Option Text

-- An error is the text of its message; the cost is in micro-dollars.
pub record RunTrajectory : Type 0 where
  pub task : Text
  pub outcome : Text
  pub success : Bool
  pub error : Option Text
  pub input_tokens : ℕ
  pub output_tokens : ℕ
  pub cost_usd : ℕ
  pub latency_ms : ℕ

abbrev pub reflect_system_prompt : Text
reflect_system_prompt =
    codes
      "You are a reflection step run after an agent finished a task. Read the execution trajectory and distill at most a few DURABLE, reusable lessons that would help a future run of this agent do better. Each lesson: one line, standalone, imperative, no numbering or bullets. If there is no durable lesson, output nothing."

abbrev str_bool : Bool → Text
str_bool true = codes "True"
str_bool false = codes "False"

-- `error or 'none'`
abbrev error_or_none : Option Text → Text
error_or_none none = codes "none"
error_or_none (some []) = codes "none"
error_or_none (some (c ∷ e)) = c ∷ e

-- `build_reflection_prompt`; how the cost is printed, a float there, is a parameter
unfoldable pub build_reflection_prompt : (ℕ → Text) → RunTrajectory → List Message
unfolding decimal
build_reflection_prompt str_cost t =
    let body =
      codes "task: "
      ++ (t.task
          ++ (codes "\nsuccess: "
              ++ (str_bool t.success
                  ++ (codes "\noutcome: "
                      ++ (t.outcome
                          ++ (codes "\nerror: "
                              ++ (error_or_none t.error
                                  ++ (codes "\ntokens: "
                                      ++ (decimal (t.input_tokens + t.output_tokens)
                                          ++ (codes "  cost_usd: "
                                              ++ str_cost t.cost_usd)))))))))) in
    record { role = "system"; content = reflect_system_prompt }
    ∷ record { role = "user"; content = body }
    ∷ []

abbrev lesson : Text → MemoryDelta
lesson line = record {
  op = DeltaOp.add;
  content = strip line;
  tags = codes "reflection" ∷ [];
  target_id = none;
}

-- `parse_reflection`
unfoldable pub parse_reflection : Text → List MemoryDelta
parse_reflection text = map lesson (keep (λ line. not (is_empty (strip line))) (splitlines text))

-- `clip`
unfoldable pub clip : Text → ℕ → Text
clip text max_chars =
    if leb (length text) max_chars then text else take max_chars text ++ 8230 ∷ codes "[clipped]"
