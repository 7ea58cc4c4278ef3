-- ===== src/Mesh/Tests.antt =====
-- A mesh of two workers, led by a scripted supervisor.
use lottie_orchestrator.Prelude.{◌≡◌, refl, none, some, List, [], ◌∷◌}
use lottie_orchestrator.Prelude.Texts.{Text, codes}
use lottie_orchestrator.Prelude.Walks.{split_on, strip, upper, lower}
use lottie_orchestrator.Exec.{Result, ok, Exec}
use lottie_orchestrator.Mesh.Schema.{
  MeshError, MeshState, with_step, RouteDecision, MeshRunResult, complete, last_result,
}
use lottie_orchestrator.Mesh.Router.{route}
use lottie_orchestrator.Mesh.Local.{Nodes, run, call_node, finish_run}
use lottie_orchestrator.Mesh.Plan.{record_route, replay, plan_of}
use lottie_orchestrator.Mesh.Roster.{IsRouted, route_fails_closed}
use lottie_orchestrator.Mesh.Replay.{replay_repeats_run}

-- the replies that are left
abbrev scripted : MeshState → Exec MeshError (List Text) Text
scripted state [] = (ok (codes "FINISH"), [])
scripted state (reply ∷ replies) = (ok reply, replies)

abbrev workers : List Text
workers = codes "Research" ∷ codes "Write" ∷ []

abbrev worker : Text → Text × (MeshState → Result MeshError MeshState)
worker name =
    (name, λ state. ok (with_step (record { worker = name; result = name; step = 1 }) state))

abbrev nodes : Nodes
nodes = worker (codes "Research") ∷ worker (codes "Write") ∷ []

abbrev begun : MeshState
begun = record { task = codes "essay"; history = []; final = none }

abbrev to_write : RouteDecision
to_write = record { next = codes "Write"; parallel = [] }

replied : route scripted workers begun (codes " write" ∷ []) ≡ (ok to_write, [])
unfolding route split_on strip upper lower
replied = refl

route_fails_closed_example : IsRouted workers to_write
route_fails_closed_example =
    route_fails_closed scripted workers begun (codes " write" ∷ []) [] to_write replied

abbrev ended : MeshRunResult
ended = record {
  state = record {
    task = codes "essay";
    history = record { worker = codes "Write"; result = codes "Write"; step = 1 } ∷ [];
    final = some (codes "Write");
  };
  status = complete;
  thread_id = none;
}

abbrev decisions : List (List Text)
decisions = (codes "Write" ∷ []) ∷ []

led :
    run nodes (record_route (route scripted workers)) 3 begun (codes " write" ∷ [], [])
    ≡ (ok ended, ([], decisions))
unfolding run record_route route split_on strip upper lower call_node finish_run with_step
    last_result
led = refl

replay_repeats_run_example :
    run nodes replay 3 begun (plan_of (λ s. s) begun.task decisions).steps ≡ (ok ended, [])
replay_repeats_run_example =
    replay_repeats_run nodes 3 scripted workers (λ s. s) begun (codes " write" ∷ []) [] decisions
      ended led
