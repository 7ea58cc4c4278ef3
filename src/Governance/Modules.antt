-- ===== src/Governance/Modules.antt =====
-- governance/middleware.py, with `DepthMiddleware` of core/middleware.py and the observer of
-- governance/subscribers.py: the governance modules of a chain.
use lottie_orchestrator.Prelude.{ℕ, ◌+◌, String, Option, none, some, ◌==◌}
use lottie_orchestrator.Prelude.Texts.{Text}
use lottie_orchestrator.Exec.{Exc, policy_escalation, budget_exceeded, Result, ok, err, Exec}
use lottie_orchestrator.Runtime.Context.{Usage}
use lottie_orchestrator.Runtime.Events.{
  RunInfo, RunEvent, run_started, run_completed, run_failed, run_blocked, provider_fallback,
  Subscriber,
}
use lottie_orchestrator.Runtime.Pipeline.{Run, Middleware}
use lottie_orchestrator.Governance.Policy
use lottie_orchestrator.Governance.Policy.{PolicyGate}
use lottie_orchestrator.Governance.Capability.{CapabilityGate}
use lottie_orchestrator.Governance.Cost
use lottie_orchestrator.Governance.Cost.{CostGate}
use lottie_orchestrator.Governance.Ledger.{Ledger, AuditRecord, log}
use lottie_orchestrator.Governance.Host.{Host}

-- a write to the host state of a run
abbrev pub on_host : {I A : Type 0} → (Host A → Host A) → Run I (Host A) → Run I (Host A)
on_host f s = record s { world = record s.world { user = f s.world.user } }

abbrev pub with_ledger : {A : Type 0} → Ledger → Host A → Host A
with_ledger db h = record h { ledger = db }

module _ {I A : Type 0} (audit_block : I → Exc → String → Host A → Host A) where
  -- `self._audit_block(ctx.input, exc, status)`
  abbrev pub block : Exc → String → Run I (Host A) → Run I (Host A)
  block exc status s = on_host (audit_block s.ctx.input exc status) s

  abbrev pub block_status : Exc → String
  block_status (policy_escalation _) = "escalated"
  block_status _ = "denied"

  -- `PolicyMiddleware.__call__` and `scope`, on the exception of the gate
  unfoldable pub policy_call :
      {O : Type 0} → Option Exc → Exec Exc (Run I (Host A)) O → Exec Exc (Run I (Host A)) O
  policy_call none nxt s = nxt s
  policy_call (some exc) nxt s = (err exc, block exc (block_status exc) s)

  unfoldable pub policy_scope :
      Option Exc → Exec Exc (Run I (Host A)) (Run I (Host A) → Run I (Host A))
  policy_scope none s = (ok (λ t. t), s)
  policy_scope (some exc) s = (err exc, block exc (block_status exc) s)

  -- `PolicyMiddleware`
  unfoldable pub policy_middleware : {O : Type 0} → PolicyGate → Middleware I O (Host A)
  unfolding policy_call policy_scope
  policy_middleware g = record {
    name = "policy";
    order = 20;
    call = λ nxt s. policy_call (Policy.check g) nxt s;
    scope = some (policy_scope (Policy.check g));
  }

  -- `except BudgetExceeded`: the block is audited
  abbrev pub block_budget : Exc → Run I (Host A) → Run I (Host A)
  block_budget (budget_exceeded r) s = block (budget_exceeded r) "budget_exceeded" s
  block_budget _ s = s

  unfoldable pub note_refusal : Result Exc (Option ℕ) → Exec Exc (Run I (Host A)) (Option ℕ)
  note_refusal (ok handle) s = (ok handle, s)
  note_refusal (err exc) s = (err exc, block_budget exc s)

  -- `CostMiddleware._reserve`
  unfoldable pub cost_reserve : CostGate → Exec Exc (Run I (Host A)) (Option ℕ)
  unfolding note_refusal
  cost_reserve g s =
      let (r, db) = Cost.reserve g s.world.user.now s.world.user.ledger in
      note_refusal r (on_host (with_ledger db) s)

  unfoldable pub cost_settle : CostGate → Option ℕ → Run I (Host A) → Run I (Host A)
  cost_settle g handle s = on_host (λ h. with_ledger (Cost.settle g handle h.ledger) h) s

  unfoldable pub cost_call :
      {O : Type 0}
      → CostGate
      → Result Exc (Option ℕ)
      → Exec Exc (Run I (Host A)) O
      → Exec Exc (Run I (Host A)) O
  cost_call g (err exc) nxt s = (err exc, s)
  cost_call g (ok handle) nxt s = let (r, s') = nxt s in (r, cost_settle g handle s')

  unfoldable pub cost_scope :
      CostGate → Result Exc (Option ℕ) → Exec Exc (Run I (Host A)) (Run I (Host A) → Run I (Host A))
  cost_scope g (err exc) s = (err exc, s)
  cost_scope g (ok handle) s = (ok (cost_settle g handle), s)

  -- `CostMiddleware`: the reservation is settled whatever the rest of the chain does
  unfoldable pub cost_middleware : {O : Type 0} → CostGate → Middleware I O (Host A)
  unfolding cost_reserve cost_settle cost_call cost_scope
  cost_middleware g = record {
    name = "cost";
    order = 30;
    call = λ nxt s. let (r, s') = cost_reserve g s in cost_call g r nxt s';
    scope = some (λ s. let (r, s') = cost_reserve g s in cost_scope g r s');
  }

module _ {I A : Type 0} where
  abbrev pub set_caps : Option CapabilityGate → Run I (Host A) → Run I (Host A)
  set_caps g s = on_host (λ h. record h { active_caps = g }) s

  -- `CapabilityMiddleware`: the agent's gate is active for the rest of the chain only
  unfoldable pub capability_middleware : {O : Type 0} → CapabilityGate → Middleware I O (Host A)
  capability_middleware g = record {
    name = "capability";
    order = 90;
    call = λ nxt s.
        let before = s.world.user.active_caps in
        let (r, s') = nxt (set_caps (some g) s) in (r, set_caps before s');
    scope =
        some (λ s.
          let before = s.world.user.active_caps in (ok (set_caps before), set_caps (some g) s));
  }

  abbrev pub set_depth : ℕ → Run I (Host A) → Run I (Host A)
  set_depth d s = on_host (λ h. record h { audit_depth = d }) s

  -- one run deeper; a run at depth 1 is a top-level one
  unfoldable pub descend : Run I (Host A) → Run I (Host A)
  descend s =
      let d = s.world.user.audit_depth + 1 in
      record (set_depth d s) { ctx = record s.ctx { root = d == 1 } }

  -- `DepthMiddleware`
  unfoldable pub depth_middleware : {O : Type 0} → Middleware I O (Host A)
  unfolding descend
  depth_middleware = record {
    name = "depth";
    order = 40;
    call = λ nxt s.
        let before = s.world.user.audit_depth in
        let (r, s') = nxt (descend s) in (r, set_depth before s');
    scope = some (λ s. let before = s.world.user.audit_depth in (ok (set_depth before), descend s));
  }

-- `AuditSubscriber._log`
unfoldable pub audit_record :
    ℕ → RunInfo → Text → Option Text → Usage → ℕ → String → Option Exc → AuditRecord
audit_record now i input_sha256 output_sha256 u latency status error = record {
  ts = now;
  agent = i.runnable;
  provider = i.provider;
  status = status;
  root = i.root;
  input_sha256 = input_sha256;
  output_sha256 = output_sha256;
  input_tokens = u.input_tokens;
  output_tokens = u.output_tokens;
  cost_usd = u.cost_usd;
  latency_ms = latency;
  error = error;
}

-- `AuditSubscriber.on_event`
unfoldable pub audit_event : {A : Type 0} → RunEvent → Host A → Host A
unfolding audit_record log
audit_event (run_completed i h h' u t) w =
    with_ledger (log (audit_record w.now i h h' u t "ok" none) w.ledger) w
audit_event (run_failed i h exc u t) w =
    with_ledger (log (audit_record w.now i h none u t "error" (some exc)) w.ledger) w
audit_event (run_started _ _) w = w
audit_event (run_blocked _ _ _ _) w = w
audit_event (provider_fallback _ _ _ _) w = w

unfoldable pub audit_subscriber : {A : Type 0} → Subscriber (Host A)
unfolding audit_event
audit_subscriber = record { name = "audit"; on_event = λ e w. (none, audit_event e w) }
