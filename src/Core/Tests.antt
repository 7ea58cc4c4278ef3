-- ===== src/Core/Tests.antt =====
-- An agent on numbers with a screen for large inputs, and a model that uses ten tokens a call.
mod Limits
mod Progress
mod Secured
use lottie_orchestrator.Prelude.{
  ℕ, ◌+◌, ◌≡◌, ◌↔◌, refl, none, some, true, [], ◌∷◌, leb, arith, String, if◌then◌else◌,
}
use lottie_orchestrator.Prelude.Sort.{sort_by}
use lottie_orchestrator.Prelude.Texts.{Text, codes}
use lottie_orchestrator.Exec.{Exc, raised, ok, Exec}
use lottie_orchestrator.Runtime.Context.{null_usage, agent}
use lottie_orchestrator.Runtime.Events.{RunEvent, run_completed, World, Subscriber, emit}
use lottie_orchestrator.Runtime.Pipeline.{
  Run, Core, Middleware, Pipeline, sort_chain, execute, step, core_frame, checked_hash, is_sha256,
}
use lottie_orchestrator.Governance.Policy
use lottie_orchestrator.Governance.Cost
use lottie_orchestrator.Governance.Capability
use lottie_orchestrator.Governance.Host.{Host}
use lottie_orchestrator.Governance.Modules.{
  audit_event, audit_subscriber, policy_middleware, cost_middleware, depth_middleware,
  capability_middleware,
}
use lottie_orchestrator.Core.Screens.{
  security_input_middleware, security_output_middleware, verify_middleware,
}
use lottie_orchestrator.Core.Chain.{
  Mounts, standard_modules, drop_disabled, build_chain, reject_order_conflicts,
}
use lottie_orchestrator.Core.Positions.{
  IsStrict, Distinct, reject_order_conflicts-none, sort_chain-IsStrict,
}
use lottie_orchestrator.Core.Enforcement.{IsTransparent}
use lottie_orchestrator.Core.Governed.{HandsOn, IsGoverned, execute-IsGoverned}
use lottie_orchestrator.Core.Observers.{Observers, event_bus, set_audit, set_plugins}
use lottie_orchestrator.Core.Plugins.{SparesLedger, plugins_spare_audit}

abbrev Here : Type 0
Here = Host (Unit {0})

-- a module that does nothing
abbrev idle : String → ℕ → Middleware ℕ ℕ Here
idle name order = record { name = name; order = order; call = λ nxt s. nxt s; scope = none }

abbrev small : Mounts ℕ ℕ (Unit {0})
small = record {
  security = record { check_input = λ t. none; check_output = λ t. none };
  policy = Policy.null_gate;
  cost = Cost.null_gate;
  capabilities = Capability.null_gate;
  write_block = λ _ _ _ h. h;
  dump_input = λ n. n ∷ [];
  dump_output = λ n. n ∷ [];
  verify = λ i o. if leb i o then none else some (raised "ValueError" "smaller");
  session_module = idle "session" 34;
  trajectory_module = idle "trajectory" 36;
  recall_module = idle "recall" 60;
  reflect_module = idle "reflect" 70;
}

idle-IsTransparent : (name : String) (order : ℕ) → IsTransparent (idle name order)
idle-IsTransparent name order = record {
  at = λ nxt s t o h. record { from = s; after = t; gives = h; same = refl };
}

hands_on : HandsOn small
hands_on = record {
  session = idle-IsTransparent "session" 34;
  trajectory = idle-IsTransparent "trajectory" 36;
  recall = idle-IsTransparent "recall" 60;
  reflect = idle-IsTransparent "reflect" 70;
}

small_accepted : reject_order_conflicts (standard_modules small) ≡ none
unfolding reject_order_conflicts standard_modules security_input_middleware policy_middleware
    cost_middleware depth_middleware security_output_middleware verify_middleware
    capability_middleware
small_accepted = refl

small_chain : build_chain small [] ≡ ok (standard_modules small)
unfolding build_chain standard_modules drop_disabled reject_order_conflicts
    security_input_middleware policy_middleware cost_middleware depth_middleware
    security_output_middleware verify_middleware capability_middleware
small_chain = refl

reject_order_conflicts-none_example :
    reject_order_conflicts (standard_modules small) ≡ none ↔ Distinct (standard_modules small)
reject_order_conflicts-none_example = reject_order_conflicts-none (standard_modules small)

sort_chain-IsStrict_example : IsStrict (sort_chain (standard_modules small))
sort_chain-IsStrict_example = sort_chain-IsStrict (standard_modules small) small_accepted

abbrev successor : Core ℕ ℕ Here
successor i s = (ok (i + 1), s)

abbrev digest : Text
digest = codes "00112233445566778899aabbccddeeff00112233445566778899aabbccddeeff"

abbrev pipeline : Pipeline ℕ ℕ Here
pipeline = record {
  runnable = "Small";
  kind = agent;
  provider = none;
  core = successor;
  hash_input = λ _. digest;
  hash_output = λ _. digest;
  chain = sort_chain (standard_modules small);
  bus = [];
  new_usage = null_usage;
  perf_counter = λ h. h.now;
}

abbrev begun : World Here
begun = record {
  user = record {
    ledger = record { rows = []; reservations = []; next_id = 1; fault = none; warnings = [] };
    active_caps = none;
    audit_depth = 0;
    now = 0;
    app = tt;
  };
  warnings = [];
}

abbrev over : Run ℕ Here
over = (execute pipeline 3 "r1" begun).1

ran : execute pipeline 3 "r1" begun ≡ (ok 4, over)
unfolding execute step core_frame checked_hash is_sha256 sort_chain sort_by standard_modules
    verify_middleware capability_middleware security_output_middleware depth_middleware
    cost_middleware policy_middleware security_input_middleware Policy.check Cost.reserve
ran = refl

execute-IsGoverned_example : IsGoverned small 3 4
execute-IsGoverned_example =
    execute-IsGoverned small pipeline (standard_modules small) 3 "r1" begun over 4 hands_on
      small_chain refl ran

abbrev loud : Subscriber Here
loud = record { name = "loud"; on_event = λ e h. (some (raised "OSError" "full"), h) }

loud-SparesLedger : SparesLedger loud
loud-SparesLedger = record { at = λ e h. refl }

abbrev observers : Observers (Unit {0})
observers = record { audit = loud; plugins = []; bus = none }

abbrev completed : RunEvent
completed =
    run_completed
      (record { run_id = "r1"; runnable = "Small"; kind = agent; root = true; provider = none })
      digest none null_usage 5

plugins_spare_audit_example :
    (emit
      (event_bus (set_audit audit_subscriber (set_plugins (loud ∷ []) observers))).0
      completed
      begun).user.ledger
    ≡ (audit_event completed begun.user).ledger
plugins_spare_audit_example =
    plugins_spare_audit observers (loud ∷ []) completed begun (loud-SparesLedger, tt)
