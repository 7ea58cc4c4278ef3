-- ===== src/Mesh/Local.antt =====
-- mesh/local.py: the in-process supervisor loop. A node is a function of the mesh state; what the
-- route function keeps is the state `S`.
use lottie_orchestrator.Prelude.{
  ℕ, zero, suc, none, some, Bool, true, false, List, [], ◌∷◌, if◌then◌else◌,
}
use lottie_orchestrator.Prelude.Texts.{Text}
use lottie_orchestrator.Prelude.Walks.{text_eq}
use lottie_orchestrator.Exec.{Result, ok, err, Exec}
use lottie_orchestrator.Mesh.Schema.{
  MeshError, step_limit_exceeded, no_resume, node_missing, finish_name, MeshState, RouteDecision,
  MeshRunResult, complete, last_result,
}

abbrev pub RouteFn : Type 0 → Type 0
RouteFn S = MeshState → Exec MeshError S RouteDecision

abbrev pub Nodes : Type 0
Nodes = List (Text × (MeshState → Result MeshError MeshState))

-- `nodes[name](state)`
unfoldable pub call_node : Nodes → Text → MeshState → Result MeshError MeshState
call_node [] name state = err (node_missing name)
call_node ((n, node) ∷ nodes) name state =
    if text_eq n name then node state else call_node nodes name state

-- the result of a run that the supervisor ended
unfoldable pub finish_run : MeshState → MeshRunResult
finish_run state = record {
  state = record state { final = some (last_result state.history) };
  status = complete;
  thread_id = none;
}

-- what follows the node's result; `again` is the next round
abbrev pub after_node :
    {S R : Type 0}
    → (MeshState → Exec MeshError S R)
    → Result MeshError MeshState
    → Exec MeshError S R
after_node again (err e) s = (err e, s)
after_node again (ok state) s = again state s

-- what follows the test for the end of the run
abbrev pub after_test :
    {S : Type 0}
    → (MeshState → Exec MeshError S MeshRunResult)
    → MeshState
    → Result MeshError MeshState
    → Bool
    → Exec MeshError S MeshRunResult
after_test again state next true s = (ok (finish_run state), s)
after_test again state next false s = after_node again next s

-- what follows the route function's decision
abbrev pub after_route :
    {S : Type 0}
    → Nodes
    → (MeshState → Exec MeshError S MeshRunResult)
    → MeshState
    → Result MeshError RouteDecision × S
    → Result MeshError MeshRunResult × S
after_route nodes again state (err e, s) = (err e, s)
after_route nodes again state (ok decision, s) =
    after_test again state (call_node nodes decision.next state) (text_eq decision.next finish_name)
      s

module _ {S : Type 0} (nodes : Nodes) (route : RouteFn S) (max_steps : ℕ) where
  -- the loop, with the rounds that are left
  unfoldable pub loop : ℕ → MeshState → Exec MeshError S MeshRunResult
  loop zero state s = (err (step_limit_exceeded max_steps), s)
  loop (suc n) state s = after_route nodes (loop n) state (route state s)

  -- `run`
  unfoldable pub run : MeshState → Exec MeshError S MeshRunResult
  unfolding loop
  run initial = loop max_steps initial

-- `resume`
unfoldable pub resume : Result MeshError MeshRunResult
resume = err no_resume
