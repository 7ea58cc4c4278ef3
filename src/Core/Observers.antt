-- ===== src/Core/Observers.antt =====
-- core/base_agent.py: the event bus of an agent, and its record of a refused run.
use lottie_orchestrator.Prelude.{String, Option, none, some, List, [], ◌∷◌, ◌==◌}
use lottie_orchestrator.Prelude.Texts.{Text}
use lottie_orchestrator.Exec.{Exc}
use lottie_orchestrator.Runtime.Events.{Subscriber, EventBus, subscribe}
use lottie_orchestrator.Governance.Ledger.{log}
use lottie_orchestrator.Governance.Host.{Host}
use lottie_orchestrator.Governance.Modules.{with_ledger}

-- `_audit` as its subscriber, `_plugins` and `_bus`
pub record Observers (A : Type 0) : Type 0 where
  pub audit : Subscriber (Host A)
  pub plugins : List (Subscriber (Host A))
  pub bus : Option (EventBus (Host A))

module _ {A : Type 0} where
  unfoldable pub subscribe_all : List (Subscriber (Host A)) → EventBus (Host A) → EventBus (Host A)
  unfolding subscribe
  subscribe_all [] bus = bus
  subscribe_all (plugin ∷ plugins) bus = subscribe_all plugins (subscribe plugin bus)

  abbrev pub with_bus : Observers A → Option (EventBus (Host A)) → EventBus (Host A) × Observers A
  with_bus o (some bus) = (bus, o)
  with_bus o none =
      let bus = subscribe_all o.plugins (subscribe o.audit []) in (bus, record o { bus = some bus })

  -- `event_bus`, built once
  unfoldable pub event_bus : Observers A → EventBus (Host A) × Observers A
  unfolding subscribe_all
  event_bus o = with_bus o o.bus

  -- `set_audit`, which forgets the bus
  unfoldable pub set_audit : Subscriber (Host A) → Observers A → Observers A
  set_audit audit o = record o { audit = audit; bus = none }

  -- `set_plugins`
  unfoldable pub set_plugins : List (Subscriber (Host A)) → Observers A → Observers A
  set_plugins plugins o = record o { plugins = plugins }

  -- `_write_block`; `hash_model` is a parameter, and the ledger's `log` raises nothing
  unfoldable pub write_block :
      {I : Type 0} → (I → Text) → String → Option String → I → Exc → String → Host A → Host A
  unfolding log
  write_block hash_model name provider input exc status h =
      with_ledger
        (log
          (record {
            ts = h.now;
            agent = name;
            provider = provider;
            status = status;
            root = h.audit_depth == 0;
            input_sha256 = hash_model input;
            output_sha256 = none;
            input_tokens = 0;
            output_tokens = 0;
            cost_usd = 0;
            latency_ms = 0;
            error = some exc;
          })
          h.ledger)
        h
