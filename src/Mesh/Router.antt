-- ===== src/Mesh/Router.antt =====
-- mesh/router.py: the supervisor's reply, resolved against the declared workers.
use lottie_orchestrator.Prelude.{Option, none, some, not, List, [], ◌∷◌, map, keep, if◌then◌else◌}
use lottie_orchestrator.Prelude.Texts.{Text}
use lottie_orchestrator.Prelude.Walks.{text_eq, lower, upper, strip, split_on, is_empty}
use lottie_orchestrator.Exec.{Result, ok, err, Exec}
use lottie_orchestrator.Mesh.Schema.{
  MeshError, capability_violation, finish_name, MeshState, RouteDecision,
}

-- `{name.lower(): name for name in workers}.get(key)`: of two names with one key the later counts
unfoldable pub lowered : List Text → Text → Option Text
lowered [] key = none
lowered (name ∷ names) key = elim (lowered names key) [
  | some later ↦ some later
  | none ↦ if text_eq (lower name) key then some name else none
]

abbrev pub found : Text → Option Text → Result MeshError Text
found raw none = err (capability_violation raw)
found raw (some name) = ok name

-- `_resolve`
unfoldable pub resolve : List Text → Text → Result MeshError Text
unfolding lowered
resolve workers raw =
    if text_eq (upper raw) finish_name
    then ok finish_name
    else found raw (lowered workers (lower raw))

abbrev pub cons_result :
    Result MeshError Text → Result MeshError (List Text) → Result MeshError (List Text)
cons_result (err e) rs = err e
cons_result (ok n) (err e) = err e
cons_result (ok n) (ok ns) = ok (n ∷ ns)

-- `[self._resolve(n, workers) for n in names]`
unfoldable pub resolve_all : List Text → List Text → Result MeshError (List Text)
unfolding resolve
resolve_all workers [] = ok []
resolve_all workers (n ∷ names) = cons_result (resolve workers n) (resolve_all workers names)

abbrev pub fan_out : Result MeshError (List Text) → Result MeshError RouteDecision
fan_out (err e) = err e
fan_out (ok ns) = ok (record { next = finish_name; parallel = ns })

abbrev pub single : Result MeshError Text → Result MeshError RouteDecision
single (err e) = err e
single (ok n) = ok (record { next = n; parallel = [] })

-- the non-empty stripped parts of a comma-separated reply
unfoldable pub reply_names : Text → List Text
reply_names raw = keep (λ p. not (is_empty p)) (map strip (split_on b',' raw))

abbrev pub decide_by : List Text → Text → List Text → Result MeshError RouteDecision
decide_by workers raw (a ∷ b ∷ names) = fan_out (resolve_all workers (a ∷ b ∷ names))
decide_by workers raw names = single (resolve workers raw)

-- `route`, on the stripped reply
unfoldable pub decide : List Text → Text → Result MeshError RouteDecision
unfolding resolve resolve_all reply_names
decide workers raw = decide_by workers raw (reply_names raw)

abbrev pub answered :
    {S : Type 0} → List Text → Result MeshError Text × S → Result MeshError RouteDecision × S
answered workers (err e, s) = (err e, s)
answered workers (ok reply, s) = (decide workers (strip reply), s)

-- `SupervisorRouter.route`; `ask` renders the prompt, calls the model and returns its reply
unfoldable pub route :
    {S : Type 0}
    → (MeshState → Exec MeshError S Text)
    → List Text
    → MeshState
    → Exec MeshError S RouteDecision
unfolding decide
route ask workers state s = answered workers (ask state s)
