-- ===== src/Mesh/Plan.antt =====
-- mesh/plan.py: the decisions of a run are recorded as they are made, and replayed without asking.
use lottie_orchestrator.Prelude.{
  ℕ, ◌+◌, ◌-◌, Option, none, some, Bool, true, false, not, ◌&&◌, ◌||◌, List, [], ◌∷◌, ◌++◌, ◌==◌,
  leb, length, keep, any, take, if◌then◌else◌, last_or,
}
use lottie_orchestrator.Prelude.Texts.{Text}
use lottie_orchestrator.Prelude.Walks.{text_eq}
use lottie_orchestrator.Exec.{Result, ok, err}
use lottie_orchestrator.Mesh.Schema.{
  MeshError, plan_divergence, invalid_id, no_workers, finish_name, RouteDecision,
}
use lottie_orchestrator.Mesh.Local.{RouteFn}

pub record PlanStep : Type 0 where
  pub step : ℕ
  pub workers : List Text

pub record Plan : Type 0 where
  pub task_sha256 : Text
  pub steps : List PlanStep

module _ (sha256 : Text → Text) where
  -- `hash_task`, with the hash of hashlib
  unfoldable pub hash_task : Text → Text
  hash_task task = sha256 task

  -- `Plan.matches`
  unfoldable pub matches : Plan → Text → Bool
  unfolding hash_task
  matches plan task = text_eq plan.task_sha256 (hash_task task)

-- what `PlanRecorder.__call__` appends for a decision
unfoldable pub recorded : RouteDecision → List (List Text)
recorded d = elim d.parallel [
  | [] ↦ if text_eq d.next finish_name then [] else (d.next ∷ []) ∷ []
  | w ∷ ws ↦ (w ∷ ws) ∷ []
]

abbrev pub recording :
    {S : Type 0}
    → List (List Text)
    → Result MeshError RouteDecision × S
    → Result MeshError RouteDecision × (S × List (List Text))
recording decisions (err e, s) = (err e, (s, decisions))
recording decisions (ok d, s) = (ok d, (s, decisions ++ recorded d))

-- `PlanRecorder(route)`: the decisions so far stand beside the state of the route function
unfoldable pub record_route : {S : Type 0} → RouteFn S → RouteFn (S × List (List Text))
unfolding recorded
record_route route state (s, decisions) = recording decisions (route state s)

-- `enumerate`, from a first index
unfoldable pub number_steps : ℕ → List (List Text) → List PlanStep
number_steps i [] = []
number_steps i (ws ∷ rest) = record { step = i; workers = ws } ∷ number_steps (i + 1) rest

-- `PlanRecorder.plan`
unfoldable pub plan_of : (Text → Text) → Text → List (List Text) → Plan
unfolding number_steps hash_task
plan_of sha256 task decisions = record {
  task_sha256 = hash_task sha256 task;
  steps = number_steps 0 decisions;
}

-- the decision of one recorded step; an empty one is the `IndexError` of `workers[0]`
unfoldable pub replay_step : List Text → Result MeshError RouteDecision
replay_step [] = err no_workers
replay_step (w ∷ []) = ok (record { next = w; parallel = [] })
replay_step (w ∷ v ∷ ws) = ok (record { next = finish_name; parallel = w ∷ v ∷ ws })

-- the route function that `replay_route` returns; its state is `remaining`
unfoldable pub replay : RouteFn (List PlanStep)
unfolding replay_step
replay state [] = (ok (record { next = finish_name; parallel = [] }), [])
replay state (s ∷ remaining) = (replay_step s.workers, remaining)

abbrev pub declares : List Text → Text → Bool
declares names w = any (λ n. text_eq n w) names

-- `worker_names - declared`
unfoldable pub missing_workers : List Text → List PlanStep → List Text
missing_workers declared [] = []
missing_workers declared (s ∷ steps) =
    keep (λ w. not (declares declared w)) s.workers ++ missing_workers declared steps

-- `replay_route`: the plan is checked against the declared workers, where they are given
unfoldable pub replay_route : Plan → Option (List Text) → Result MeshError (List PlanStep)
unfolding missing_workers
replay_route plan none = ok plan.steps
replay_route plan (some declared) = elim (missing_workers declared plan.steps) [
  | [] ↦ ok plan.steps
  | w ∷ ws ↦ err (plan_divergence (w ∷ ws))
]

is_alnum : ℕ → Bool
is_alnum c = (leb b'A' c && leb c b'Z') || (leb b'a' c && leb c b'z') || (leb b'0' c && leb c b'9')

is_id_char : ℕ → Bool
unfolding is_alnum
is_id_char c = is_alnum c || c == b'_' || c == b'-'

all_id_chars : Text → Bool
unfolding is_id_char
all_id_chars [] = true
all_id_chars (c ∷ s) = is_id_char c && all_id_chars s

abbrev id_of : Text → Bool
id_of [] = false
id_of (c ∷ s) = is_alnum c && all_id_chars s && leb (length s) 63

-- `_THREAD_RE.match`: `$` also matches before a newline that ends the text.
unfoldable pub is_thread_id : Text → Bool
unfolding is_alnum all_id_chars
is_thread_id s = id_of s || (id_of (take (length s - 1) s) && last_or 0 s == 10)

-- `plan_path`, by the parts that are joined below `.lottie/plans`
unfoldable pub plan_path : Text → Text → Result MeshError (Text × Text)
unfolding is_thread_id
plan_path agent thread_id =
    if not (is_thread_id thread_id)
    then err (invalid_id thread_id)
    else if not (is_thread_id agent)
    then err (invalid_id agent)
    else ok (agent, thread_id)
