-- ===== src/Mesh/Schema.antt =====
-- mesh/schema.py and mesh/errors.py: the typed state of a mesh run. Names and results are texts.
use lottie_orchestrator.Prelude.{ℕ, Option, List, [], ◌∷◌, ◌++◌}
use lottie_orchestrator.Prelude.Texts.{Text, codes}

-- `MeshError` and its subclasses; `node_missing` is the `KeyError` of `nodes[...]`, `worker_failed`
-- whatever a worker raises.
pub data MeshError : Type 0 where
  capability_violation : Text → MeshError
  step_limit_exceeded : ℕ → MeshError
  plan_divergence : List Text → MeshError
  invalid_id : Text → MeshError
  plan_not_found : Text → MeshError
  no_resume : MeshError
  node_missing : Text → MeshError
  no_workers : MeshError
  worker_failed : Text → MeshError

abbrev pub finish_name : Text
finish_name = codes "FINISH"

pub record StepResult : Type 0 where
  pub worker : Text
  pub result : Text
  pub step : ℕ

pub record MeshState : Type 0 where
  pub task : Text
  pub history : List StepResult
  pub final : Option Text

-- `with_step`
unfoldable pub with_step : StepResult → MeshState → MeshState
with_step s m = record m { history = m.history ++ s ∷ [] }

pub record RouteDecision : Type 0 where
  pub next : Text
  pub parallel : List Text

pub data RunStatus : Type 0 where
  complete interrupted : RunStatus

pub record MeshRunResult : Type 0 where
  pub state : MeshState
  pub status : RunStatus
  pub thread_id : Option Text

-- `state.history[-1].result if state.history else ""`
unfoldable pub last_result : List StepResult → Text
last_result [] = []
last_result (s ∷ []) = s.result
last_result (s ∷ t ∷ rest) = last_result (t ∷ rest)
