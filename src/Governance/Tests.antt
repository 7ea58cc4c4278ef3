-- ===== src/Governance/Tests.antt =====
-- A small agent with a budget, and policies for it.
use lottie_orchestrator.Prelude.{
  ℕ, ◌≤◌, ◌≡◌, ◌≢◌, ◌↔◌, ◌⊎◌, refl, inl, none, some, true, false, List, [], ◌∷◌, All, arith, String,
}
use lottie_orchestrator.Exec.{Exc, raised, policy_denied, Result, ok, err}
use lottie_orchestrator.Runtime.Context.{null_usage, agent}
use lottie_orchestrator.Runtime.Pipeline.{Run}
use lottie_orchestrator.Governance.Ledger
use lottie_orchestrator.Governance.Ledger.{AuditRecord, Reservation, Ledger, committed, admit, log}
use lottie_orchestrator.Governance.Admission.{
  Shared, Reach, IsCovered, asked, recorded, here, next, Reach-within-budget, open_amount,
}
use lottie_orchestrator.Governance.Policy
use lottie_orchestrator.Governance.Policy.{
  PolicyFile, PolicyGate, mapping, Policy, policy_gate, build_policy_gate, load_policy,
  merge_policies, gate_of,
}
use lottie_orchestrator.Governance.Precedence.{
  Outside, Within, check-policy_gate, build_policy_gate-denies,
}
use lottie_orchestrator.Governance.Cost
use lottie_orchestrator.Governance.Cost.{Budget, gate}
use lottie_orchestrator.Governance.Host.{Host}
use lottie_orchestrator.Governance.Modules.{cost_middleware}
use lottie_orchestrator.Governance.Scopes.{Affords, reserve_fails_closed, cost_middleware_releases}

abbrev empty_ledger : Ledger
empty_ledger = record { rows = []; reservations = []; next_id = 1; fault = none; warnings = [] }

abbrev start : Shared
start = record { db = empty_ledger; logged = [] }

abbrev held : Reservation
held = record { id = 1; agent = "Writer"; amount = 6; created = 1000 }

abbrev row : AuditRecord
row = record {
  ts = 2000;
  agent = "Writer";
  provider = none;
  status = "ok";
  root = true;
  input_sha256 = [];
  output_sha256 = none;
  input_tokens = 3;
  output_tokens = 4;
  cost_usd = 5;
  latency_ms = 1;
  error = none;
}

abbrev admitted : Shared
admitted = record start { db = record empty_ledger { reservations = held ∷ []; next_id = 2 } }

abbrev spent : Shared
spent = record { db = record admitted.db { rows = row ∷ [] }; logged = 1 ∷ [] }

one_run : Reach "Writer" 10 start spent
unfolding Ledger.reserve admit log committed
one_run =
    next (next here (asked start 6 1000 refl))
      (recorded admitted held row (inl refl) refl refl (omega arith))

start-IsCovered : IsCovered "Writer" 10 start
unfolding open_amount committed
start-IsCovered = omega arith

Reach-within-budget_example : committed "Writer" spent.db.rows ≤ 10
Reach-within-budget_example = Reach-within-budget "Writer" 10 start-IsCovered one_run

abbrev files : String → PolicyFile
files name =
    mapping (record { name = name; allow = []; deny = "shell" ∷ []; escalate = "email" ∷ [] })

abbrev searching : List String
searching = "search" ∷ []

check-policy_gate_example :
    Policy.check (policy_gate searching searching ("shell" ∷ []) []) ≡ none ↔ (
      Outside ("shell" ∷ []) searching
      × Outside [] searching
      × ((searching ≡ []) ⊎ Within searching searching))
check-policy_gate_example = check-policy_gate searching searching ("shell" ∷ []) []

abbrev strict : PolicyGate
strict = policy_gate ("shell" ∷ []) [] ("shell" ∷ []) ("email" ∷ [])

strict_built : build_policy_gate files ("base" ∷ []) ("shell" ∷ []) ≡ ok strict
unfolding build_policy_gate load_policy merge_policies gate_of
strict_built = refl

base_loaded :
    load_policy files "base"
    ≡ ok (record { name = "base"; allow = []; deny = "shell" ∷ []; escalate = "email" ∷ [] })
unfolding load_policy
base_loaded = refl

build_policy_gate-denies_example :
    (denied : String) × (Policy.check strict ≡ some (policy_denied denied))
build_policy_gate-denies_example =
    build_policy_gate-denies files ("base" ∷ []) ("shell" ∷ []) strict "base" "shell" _ strict_built
      refl base_loaded refl refl

abbrev capped : Budget
capped = record { agent = "Writer"; budget_usd = 10; has_ledger = true; max_run_usd = some 6 }

capped_reserves : (Cost.reserve (gate capped) 1000 empty_ledger).0 ≡ ok (some 1)
unfolding Cost.reserve Cost.reserve_by Cost.reserve_handle Ledger.reserve admit committed
capped_reserves = refl

reserve_fails_closed_example :
    (capped.has_ledger ≡ true)
    × (empty_ledger.fault ≡ none)
    × Affords capped (some 6) 1000 empty_ledger
reserve_fails_closed_example =
    reserve_fails_closed capped 1000 empty_ledger (some 1) capped_reserves

abbrev host : Host (Unit {0})
host = record { ledger = empty_ledger; active_caps = none; audit_depth = 0; now = 1000; app = tt }

abbrev begun : Run ℕ (Host (Unit {0}))
begun = record {
  ctx = record {
    runnable = "Writer";
    kind = agent;
    input = 1;
    run_id = "r";
    usage = null_usage;
    root = true;
    provider = none;
    state = [];
  };
  world = record { user = host; warnings = [] };
  entered = [];
  reached_core = false;
}

abbrev over : Run ℕ (Host (Unit {0}))
over = record begun {
  world = record {
    user = record host { ledger = record empty_ledger { next_id = 2 } };
    warnings = [];
  };
}

abbrev timed_out : Result Exc ℕ
timed_out = err (raised "Timeout" "")

cost_run :
    (cost_middleware (λ _ _ _ h. h) (gate capped)).call (λ s. (timed_out, s)) begun
    ≡ (timed_out, over)
unfolding cost_middleware Cost.reserve Cost.settle Ledger.settle
cost_run = refl

cost_middleware_releases_example :
    All (λ (x : Reservation). x.id ≢ 1) over.world.user.ledger.reservations
cost_middleware_releases_example =
    cost_middleware_releases (λ _ _ _ h. h) capped (λ s. (timed_out, s)) begun over 1 timed_out refl
      capped_reserves cost_run refl
