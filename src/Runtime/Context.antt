-- ===== src/Runtime/Context.antt =====
-- runtime/context.py: the carrier that is threaded through a middleware chain.
use lottie_orchestrator.Prelude.{
  ℕ, String, Option, none, some, Bool, false, List, [], ◌∷◌, str_eq, if◌then◌else◌,
}

pub data RunKind : Type 0 where
  agent skill : RunKind

-- `UsageAccumulator`. Costs are whole micro-dollars.
pub record Usage : Type 0 where
  pub input_tokens : ℕ
  pub output_tokens : ℕ
  pub cost_usd : ℕ
  pub turns : ℕ

-- `NullUsage()`
abbrev pub null_usage : Usage
null_usage = record { input_tokens = 0; output_tokens = 0; cost_usd = 0; turns = 0 }

-- A module's slice of `state: dict[str, object]`. The kernel writes only flags to it, and every
-- slice is a dict, since `state` is reached through `scoped` alone.
abbrev pub Slot : Type 0
Slot = List (String × Bool)

pub record Ctx (I : Type 0) : Type 0 where
  pub runnable : String
  pub kind : RunKind
  pub input : I
  pub run_id : String
  pub usage : Usage
  pub root : Bool
  pub provider : Option String
  pub state : List (String × Slot)

-- d.get(k)
abbrev pub lookup : {V : Type 0} → String → List (String × V) → Option V
lookup k [] = none
lookup k ((j, v) ∷ d) = if str_eq j k then some v else lookup k d

-- d[k] = v
abbrev pub insert : {V : Type 0} → String → V → List (String × V) → List (String × V)
insert k v [] = (k, v) ∷ []
insert k v ((j, w) ∷ d) = if str_eq j k then (k, v) ∷ d else (j, w) ∷ insert k v d

-- the slice that `setdefault` returns, and the dict that it leaves
abbrev slot_or_empty : Option Slot → Slot
slot_or_empty none = []
slot_or_empty (some slot) = slot

abbrev with_default : String → Option Slot → List (String × Slot) → List (String × Slot)
with_default m none state = insert m [] state
with_default m (some slot) state = state

-- `scoped(module)`: the module's slice of `state`, created on first use.
unfoldable pub scoped : {I : Type 0} → String → Ctx I → Slot × Ctx I
scoped m c =
    let found = lookup m c.state in
    (slot_or_empty found, record c { state = with_default m found c.state })

-- `ctx.scoped(module)[key] = value`
unfoldable pub set_flag : {I : Type 0} → String → String → Bool → Ctx I → Ctx I
unfolding scoped
set_flag m key v c =
    let (slot, c') = scoped m c in record c' { state = insert m (insert key v slot) c'.state }

abbrev truth : Option Bool → Bool
truth none = false
truth (some b) = b

-- `ctx.scoped(module).get(key)`, read as a truth value
unfoldable pub get_flag : {I : Type 0} → String → String → Ctx I → Bool
unfolding scoped
get_flag m key c = truth (lookup key (scoped m c).0)
