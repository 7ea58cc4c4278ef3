-- ===== src/Llm/Routing.antt =====
-- llm/routing.py: an ordered chain of providers that advances on transient failures only. `M` is the
-- messages and parameters of a call, `R` its response, and `W` what providers and callback touch.
use lottie_orchestrator.Prelude.{
  String, Option, none, some, Bool, true, false, not, ◌||◌, List, [], ◌∷◌, if◌then◌else◌,
}
use lottie_orchestrator.Prelude.Texts.{Text, contains}
use lottie_orchestrator.Exec.{
  screened, Exc, policy_denied, policy_not_allowed, policy_escalation, budget_exceeded,
  capability_denied, token_cap_exceeded, turn_limit_exceeded, unsafe_hasher, module_conflict,
  raised, Result, ok, err,
}

-- `type(exc).__name__`
unfoldable pub class_name : Exc → String
class_name (policy_denied _) = "PolicyDenied"
class_name (policy_not_allowed _) = "PolicyDenied"
class_name (policy_escalation _) = "PolicyEscalation"
class_name (budget_exceeded _) = "BudgetExceeded"
class_name (capability_denied _) = "CapabilityDenied"
class_name (token_cap_exceeded _ _) = "TokenCapExceeded"
class_name (turn_limit_exceeded _ _) = "TurnLimitExceeded"
class_name (unsafe_hasher _) = "UnsafeHasherError"
class_name (module_conflict _ _ _) = "ModuleConflictError"
class_name (screened name _ _) = name
class_name (raised name _) = name

abbrev pub transient_names : List String
transient_names =
    "RateLimitError" ∷ "Timeout" ∷ "APITimeoutError" ∷ "APIConnectionError"
    ∷ "ServiceUnavailableError" ∷ "InternalServerError" ∷ "APIError" ∷ []

abbrev pub never_retry_names : List String
never_retry_names =
    "ContentPolicyViolationError" ∷ "AuthenticationError" ∷ "PermissionDeniedError"
    ∷ "BadRequestError" ∷ "NotFoundError" ∷ []

unfoldable pub is_transient : Exc → Bool
unfolding class_name
is_transient exc =
    let name = class_name exc in
    if contains never_retry_names name then false else contains transient_names name

-- A stream is what it delivers and how it ends; its result has the usage.
pub record Provider (M R S W : Type 0) : Type 0 where
  pub model : String
  pub complete : M → W → Result Exc R × W
  pub stream_complete : M → W → List Text × Result Exc S × W

-- The mutable part of a `RoutedProvider`: which provider served last, and the world.
pub record Routed (W : Type 0) : Type 0 where
  pub active : String
  pub world : W

-- whether a delta has escaped
abbrev pub started : List Text → Bool
started [] = false
started (_ ∷ _) = true

module _ {M R S W : Type 0}
    (on_fallback : Option (String → String → Exc → W → Option Exc × W)) where
  -- `RoutedProvider(providers)`
  unfoldable pub create : List (Provider M R S W) → W → Result Exc (Routed W)
  create [] w = err (raised "ValueError" "RoutedProvider needs at least one provider")
  create (p ∷ ps) w = ok (record { active = p.model; world = w })

  -- `chain`
  unfoldable pub chain : List (Provider M R S W) → List String
  chain [] = []
  chain (p ∷ ps) = p.model ∷ chain ps

  -- `_notify`, which suppresses what the callback raises
  unfoldable pub notify : Provider M R S W → Provider M R S W → Exc → W → W
  notify failed next exc w = elim on_fallback [
    | none ↦ w
    | some callback ↦ (callback failed.model next.model exc w).1
  ]

  -- one round of the loop in `complete`: the rest of the chain is `again`, if there is a next one
  unfoldable pub settle_complete :
      Provider M R S W
      → Option (Provider M R S W × (Routed W → Result Exc R × Routed W))
      → Result Exc R
      → Routed W
      → Result Exc R × Routed W
  unfolding notify
  settle_complete p next (ok response) s = (ok response, record s { active = p.model })
  settle_complete p none (err exc) s = (err exc, s)
  settle_complete p (some (q, again)) (err exc) s =
      if is_transient exc then again (record s { world = notify p q exc s.world }) else (err exc, s)

  unfoldable pub attempt : Provider M R S W → M → Routed W → Result Exc R × Routed W
  attempt p m s = let (r, w) = p.complete m s.world in (r, record s { world = w })

  -- `complete`; the code after its loop is not reached, since `create` refuses an empty chain
  unfoldable pub complete : List (Provider M R S W) → M → Routed W → Result Exc R × Routed W
  unfolding settle_complete attempt
  complete [] m s = (err (raised "RuntimeError" "no provider produced a response"), s)
  complete (p ∷ []) m s = let (r, s') = attempt p m s in settle_complete p none r s'
  complete (p ∷ q ∷ rest) m s =
      let (r, s') = attempt p m s in settle_complete p (some (q, complete (q ∷ rest) m)) r s'

  -- one round of the loop in `stream_complete`, on what the provider delivered
  unfoldable pub settle_stream :
      Provider M R S W
      → Option (Provider M R S W × (Routed W → List Text × Result Exc S × Routed W))
      → List Text
      → Result Exc S
      → Routed W
      → List Text × Result Exc S × Routed W
  unfolding notify
  settle_stream p next deltas (ok result) s = (deltas, ok result, record s { active = p.model })
  settle_stream p none deltas (err exc) s = (deltas, err exc, s)
  settle_stream p (some (q, again)) deltas (err exc) s =
      if started deltas || not (is_transient exc)
      then (deltas, err exc, s)
      else again (record s { world = notify p q exc s.world })

  unfoldable pub stream_complete :
      List (Provider M R S W) → M → Routed W → List Text × Result Exc S × Routed W
  unfolding settle_stream
  stream_complete [] m s = ([], err (raised "RuntimeError" "no provider produced a stream"), s)
  stream_complete (p ∷ []) m s =
      let (deltas, r, w) = p.stream_complete m s.world in
      settle_stream p none deltas r (record s { world = w })
  stream_complete (p ∷ q ∷ rest) m s =
      let (deltas, r, w) = p.stream_complete m s.world in
      settle_stream p (some (q, stream_complete (q ∷ rest) m)) deltas r (record s { world = w })
