-- ===== src/Governance/Cost.antt =====
-- governance/cost.py: the per-agent budget, fail-closed.
use lottie_orchestrator.Prelude.{ℕ, String, Option, none, some, Bool, true, leb, if◌then◌else◌}
use lottie_orchestrator.Exec.{
  Exc, budget_exceeded, ledger_disabled, ledger_unreadable, reserve_failed, budget_reached,
  would_exceed, Result, ok, err,
}
use lottie_orchestrator.Governance.Ledger
use lottie_orchestrator.Governance.Ledger.{Ledger, total_cost}

-- `has_ledger` is false where the gate was given no `SqliteAuditLogger`.
pub record Budget : Type 0 where
  pub agent : String
  pub budget_usd : ℕ
  pub has_ledger : Bool
  pub max_run_usd : Option ℕ

pub data CostGate : Type 0 where
  null_gate : CostGate
  gate : Budget → CostGate

-- `build_cost_gate`; `audit_enabled` is whether `build_audit_logger` made a `SqliteAuditLogger`
unfoldable pub build_cost_gate : String → Option ℕ → Option ℕ → Bool → CostGate
build_cost_gate agent none max_run_usd audit_enabled = null_gate
build_cost_gate agent (some budget) max_run_usd audit_enabled = gate (record {
  agent = agent;
  budget_usd = budget;
  has_ledger = audit_enabled;
  max_run_usd = max_run_usd;
})

unfoldable pub check_spent : Budget → Result Exc ℕ → Option Exc
check_spent b (err exc) = some (budget_exceeded ledger_unreadable)
check_spent b (ok spent) =
    if leb b.budget_usd spent
    then some (budget_exceeded (budget_reached spent b.budget_usd))
    else none

-- `CostGate.check`, the cumulative check: the exception that it raises, if any
unfoldable pub check : Budget → Ledger → Option Exc
unfolding check_spent
check b db =
    if b.has_ledger
    then check_spent b (total_cost b.agent db)
    else some (budget_exceeded ledger_disabled)

unfoldable pub reserve_legacy : Option Exc → Ledger → Result Exc (Option ℕ) × Ledger
reserve_legacy none db = (ok none, db)
reserve_legacy (some exc) db = (err exc, db)

unfoldable pub reserve_handle :
    ℕ → ℕ → Result Exc (Option ℕ) → Ledger → Result Exc (Option ℕ) × Ledger
reserve_handle amount budget (err exc) db = (err (budget_exceeded reserve_failed), db)
reserve_handle amount budget (ok none) db = (err (budget_exceeded (would_exceed amount budget)), db)
reserve_handle amount budget (ok (some handle)) db = (ok (some handle), db)

unfoldable pub reserve_by : Budget → Option ℕ → ℕ → Ledger → Result Exc (Option ℕ) × Ledger
unfolding check reserve_legacy reserve_handle Ledger.reserve
reserve_by b none now db = reserve_legacy (check b db) db
reserve_by b (some amount) now db =
    let (r, db') = Ledger.reserve b.agent amount b.budget_usd now db in
    reserve_handle amount b.budget_usd r db'

-- `reserve`: the handle to settle later, or nothing on the legacy path
unfoldable pub reserve : CostGate → ℕ → Ledger → Result Exc (Option ℕ) × Ledger
unfolding reserve_by
reserve null_gate now db = (ok none, db)
reserve (gate b) now db =
    if b.has_ledger
    then reserve_by b b.max_run_usd now db
    else (err (budget_exceeded ledger_disabled), db)

unfoldable pub settle_handle : Bool → Option ℕ → Ledger → Ledger
settle_handle true (some handle) db = Ledger.settle handle db
settle_handle _ _ db = db

-- `settle`
unfoldable pub settle : CostGate → Option ℕ → Ledger → Ledger
unfolding settle_handle
settle null_gate handle db = db
settle (gate b) handle db = settle_handle b.has_ledger handle db
