-- ===== src/Governance/Host.antt =====
-- What the governance modules share outside a run: the ledger, the two context variables, and the
-- clock. `app` is all else that the application holds.
use lottie_orchestrator.Prelude.{ℕ, Option}
use lottie_orchestrator.Governance.Capability.{CapabilityGate}
use lottie_orchestrator.Governance.Ledger.{Ledger}

pub record Host (A : Type 0) : Type 0 where
  pub ledger : Ledger
  -- `_active_capabilities`, of governance/capability.py
  pub active_caps : Option CapabilityGate
  -- `_audit_depth`, of core/base_agent.py
  pub audit_depth : ℕ
  -- `time.time()` and `perf_counter()`
  pub now : ℕ
  pub app : A
