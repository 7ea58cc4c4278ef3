-- ===== src/Runtime/Events.antt =====
-- runtime/events.py: lifecycle events, and the bus that fans them out to fail-open observers.
use lottie_orchestrator.Prelude.{ℕ, String, Option, none, some, Bool, List, [], ◌∷◌, ◌++◌}
use lottie_orchestrator.Prelude.Texts.{Text}
use lottie_orchestrator.Exec.{Exc}
use lottie_orchestrator.Runtime.Context.{RunKind, Usage}

-- The fields that every event has (`RunEvent`).
pub record RunInfo : Type 0 where
  pub run_id : String
  pub runnable : String
  pub kind : RunKind
  pub root : Bool
  pub provider : Option String

-- Each event with the fields of its class. An `error` text is the exception that it is made from.
pub data RunEvent : Type 0 where
  run_started : RunInfo → Text → RunEvent
  run_completed : RunInfo → Text → Option Text → Usage → ℕ → RunEvent
  run_failed : RunInfo → Text → Exc → Usage → ℕ → RunEvent
  run_blocked : RunInfo → Text → String → Exc → RunEvent
  provider_fallback : RunInfo → String → String → Exc → RunEvent

-- `warnings.warn`
pub data Warning : Type 0 where
  subscriber_failed : String → RunEvent → Exc → Warning
  audit_log_failed settle_failed block_audit_failed : Exc → Warning
  noted : String → Exc → Warning
  told : String → Warning

-- What a run can touch outside its context: the application's own state, and the warnings so far.
pub record World (U : Type 0) : Type 0 where
  pub user : U
  pub warnings : List Warning

abbrev pub warn : {U : Type 0} → Warning → World U → World U
warn x w = record w { warnings = w.warnings ++ x ∷ [] }

-- `on_event` returns the exception that it raises, if any.
pub record Subscriber (U : Type 0) : Type 0 where
  pub name : String
  pub on_event : RunEvent → U → Option Exc × U

-- `EventBus._subs`
abbrev pub EventBus : Type 0 → Type 0
EventBus U = List (Subscriber U)

module _ {U : Type 0} where
  unfoldable pub subscribe : Subscriber U → EventBus U → EventBus U
  subscribe sub bus = bus ++ sub ∷ []

  -- the `except` of the loop in `emit`: a failure becomes a warning
  unfoldable pub note_failure : String → RunEvent → Option Exc → World U → World U
  note_failure name event none w = w
  note_failure name event (some exc) w = warn (subscriber_failed name event exc) w

  -- one round of the loop
  unfoldable pub dispatch : RunEvent → Subscriber U → World U → World U
  unfolding note_failure
  dispatch event sub w =
      let (raised?, u) = sub.on_event event w.user in
      note_failure sub.name event raised? (record w { user = u })

  unfoldable pub emit : EventBus U → RunEvent → World U → World U
  unfolding dispatch
  emit [] event w = w
  emit (sub ∷ subs) event w = emit subs event (dispatch event sub w)
