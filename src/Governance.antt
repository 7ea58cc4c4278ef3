-- ===== src/Governance.antt =====
-- src/lottie/governance: the policy, cost and capability gates, the audit ledger that the cost gate
-- reads, and the middleware and the observer that mount them on a run.
pub mod Policy
pub mod Capability
pub mod Ledger
pub mod Cost
pub mod Host
pub mod Modules
pub mod Precedence
pub mod Admission
pub mod Scopes
mod Tests
