-- ===== src/Core/Plugins.antt =====
-- core/base_agent.py with runtime/events.py: plugins cannot keep the ledger from being written.
use lottie_orchestrator.Prelude.{
  String, ◌≡◌, refl, sym, ap, ◌∙◌, Option, none, some, List, [], ◌∷◌, ◌++◌, All, append_nil,
  append_assoc,
}
use lottie_orchestrator.Exec.{Exc}
use lottie_orchestrator.Runtime.Events.{
  RunEvent, World, Subscriber, EventBus, subscribe, note_failure, dispatch, emit,
}
use lottie_orchestrator.Governance.Host.{Host}
use lottie_orchestrator.Governance.Modules.{audit_event, audit_subscriber}
use lottie_orchestrator.Core.Observers.{Observers, subscribe_all, event_bus, set_audit, set_plugins}

module _ {A : Type 0} where
  -- An observer that leaves the ledger alone, whether it raises or not.
  pub record SparesLedger (sub : Subscriber (Host A)) : Type 0 where
    pub at : (e : RunEvent) (h : Host A) → (sub.on_event e h).1.ledger ≡ h.ledger

  subscribe_all-append :
      (plugins : List (Subscriber (Host A))) (bus : EventBus (Host A))
      → subscribe_all plugins bus ≡ bus ++ plugins
  unfolding subscribe_all subscribe
  subscribe_all-append [] bus = sym (append_nil bus)
  subscribe_all-append (p ∷ ps) bus =
      subscribe_all-append ps (bus ++ p ∷ []) ∙ append_assoc bus (p ∷ []) ps

  note_failure-user :
      (name : String) (e : RunEvent) (r : Option Exc) (w : World (Host A))
      → (note_failure name e r w).user ≡ w.user
  unfolding note_failure
  note_failure-user name e none w = refl
  note_failure-user name e (some exc) w = refl

  emit_spares :
      (subs : EventBus (Host A)) (e : RunEvent) (w : World (Host A))
      → All SparesLedger subs
      → (emit subs e w).user.ledger ≡ w.user.ledger
  unfolding emit dispatch
  emit_spares [] e w hs = refl
  emit_spares (s ∷ subs) e w hs =
      emit_spares subs e (dispatch e s w) hs.1
      ∙ ap (λ h. h.ledger) (note_failure-user s.name e (s.on_event e w.user).0 _)
      ∙ hs.0.at e w.user

  -- What the ledger holds after an event is what the audit observer alone would have written,
  -- whichever plugins an agent mounts and whether they raise, as long as they do not write to the
  -- ledger themselves. It holds also where the plugins or the audit sink were set after a first bus
  -- was built, if the audit sink was set last.
  pub plugins_spare_audit :
      (o : Observers A) (plugins : List (Subscriber (Host A))) (e : RunEvent) (w : World (Host A))
      → All SparesLedger plugins
      → (emit (event_bus (set_audit audit_subscriber (set_plugins plugins o))).0 e w).user.ledger
        ≡ (audit_event e w.user).ledger
  unfolding event_bus set_audit set_plugins emit dispatch subscribe audit_subscriber note_failure
  plugins_spare_audit o plugins e w hs =
      ap (λ bus. (emit bus e w).user.ledger) (subscribe_all-append plugins (audit_subscriber ∷ []))
      ∙ emit_spares plugins e (dispatch e audit_subscriber w) hs
