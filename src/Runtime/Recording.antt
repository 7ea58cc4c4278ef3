-- ===== src/Runtime/Recording.antt =====
-- The events that a run of runtime/pipeline.py emits, as an observer that records them sees them.
use lottie_orchestrator.Prelude.{ℕ, ◌≡◌, some, List, [], ◌∷◌, ◌++◌}
use lottie_orchestrator.Prelude.Texts.{Text}
use lottie_orchestrator.Prelude.{String}
use lottie_orchestrator.Exec.{Exc, Result, ok, err, Exec}
use lottie_orchestrator.Runtime.Context.{Usage}
use lottie_orchestrator.Runtime.Events.{
  RunInfo, RunEvent, run_started, run_completed, run_failed, run_blocked, World, EventBus, emit,
}
use lottie_orchestrator.Runtime.Pipeline.{Run, Core, Middleware}

abbrev pub IsErr : {A : Type 0} → Result Exc A → Type 0
IsErr (ok _) = ⊥
IsErr (err _) = Unit

-- The events of a run that was not refused, by how the call ended. An `ok` needs a completed run.
pub data CoreEvents {O : Type 0} (r : Result Exc O) : List RunEvent → Type 0 where
  silent : IsErr r → CoreEvents r []
  orphaned : (i : RunInfo) (h : Text) → IsErr r → CoreEvents r (run_started i h ∷ [])
  failed :
      (i : RunInfo) (h : Text) (exc : Exc) (u : Usage) (t : ℕ)
      → IsErr r
      → CoreEvents r (run_started i h ∷ run_failed i h exc u t ∷ [])
  completed :
      (i : RunInfo) (h h' : Text) (u : Usage) (t : ℕ)
      → CoreEvents r (run_started i h ∷ run_completed i h (some h') u t ∷ [])

-- The events of any run. A refused one emits the refusal that it raises, or nothing.
pub data Lifecycle {O : Type 0} (r : Result Exc O) : List RunEvent → Type 0 where
  ran : {l : List RunEvent} → CoreEvents r l → Lifecycle r l
  blocked :
      (i : RunInfo) (h : Text) (name : String) (exc : Exc)
      → r ≡ err exc
      → Lifecycle r (run_blocked i h name exc ∷ [])

-- A post-phase may turn a result into an error, and never the other way round.
pub CoreEvents-weaken :
    {O : Type 0} (r r' : Result Exc O) {l : List RunEvent}
    → (IsErr r → IsErr r')
    → CoreEvents r l
    → CoreEvents r' l
CoreEvents-weaken r r' f (silent e) = silent (f e)
CoreEvents-weaken r r' f (orphaned i h e) = orphaned i h (f e)
CoreEvents-weaken r r' f (failed i h exc u t e) = failed i h exc u t (f e)
CoreEvents-weaken r r' f (completed i h h' u t) = completed i h h' u t

module _ {U : Type 0} (trace : U → List RunEvent) where
  -- Some observer on the bus appends every event to `trace`, and no other one touches that.
  pub record Records (bus : EventBus U) : Type 0 where
    pub at : (e : RunEvent) (w : World U) → trace (emit bus e w).user ≡ trace w.user ++ e ∷ []

  -- The real work emits nothing of its own on this bus.
  pub record IsQuiet {I O : Type 0} (core : Core I O U) : Type 0 where
    pub at : (i : I) (u : Usage) (w : World U) → trace (core i (u, w)).1.1.user ≡ trace w.user

  abbrev pub seen : {I : Type 0} → Run I U → List RunEvent
  seen s = trace s.world.user

  -- How a chain member used its continuation: not at all, and then it raised; or once, and then it
  -- did not turn an error into a result. Its own phases emit nothing.
  pub data Uses {I O : Type 0} (nxt : Exec Exc (Run I U) O) (s : Run I U)
      (out : Result Exc O × Run I U) : Type 0 where
    refused :
        IsErr out.0 → seen out.1 ≡ seen s → out.1.reached_core ≡ s.reached_core → Uses nxt s out
    used :
        (s' : Run I U)
        → seen s' ≡ seen s
        → s'.reached_core ≡ s.reached_core
        → seen out.1 ≡ seen (nxt s').1
        → out.1.reached_core ≡ (nxt s').1.reached_core
        → (IsErr (nxt s').0 → IsErr out.0)
        → Uses nxt s out

  pub record IsDisciplined {I O : Type 0} (mw : Middleware I O U) : Type 0 where
    pub at : (nxt : Exec Exc (Run I U) O) (s : Run I U) → Uses nxt s (mw.call nxt s)
