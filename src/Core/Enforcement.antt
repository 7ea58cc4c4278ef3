-- ===== src/Core/Enforcement.antt =====
-- core/middleware.py with runtime/pipeline.py: a run that returns has passed every check of its chain.
use lottie_orchestrator.Prelude.{
  ℕ, ◌≡◌, refl, sym, ap, subst, ◌∙◌, String, Option, none, some, List, [], ◌∷◌, ◌++◌, All,
  Bool-cases, inl, inr,
}
use lottie_orchestrator.Prelude.Texts.{Text}
use lottie_orchestrator.Exec.{Exc, Result, ok, err, Exec}
use lottie_orchestrator.Runtime.Events.{World}
use lottie_orchestrator.Runtime.Pipeline.{
  Run, Middleware, Pipeline, step, start_run, settle_execute, execute,
}
use lottie_orchestrator.Governance.Policy
use lottie_orchestrator.Governance.Policy.{PolicyGate}
use lottie_orchestrator.Governance.Cost
use lottie_orchestrator.Governance.Cost.{CostGate}
use lottie_orchestrator.Governance.Capability.{CapabilityGate}
use lottie_orchestrator.Governance.Host.{Host}
use lottie_orchestrator.Governance.Modules.{
  policy_middleware, policy_call, cost_middleware, cost_reserve, cost_call, note_refusal,
  depth_middleware, descend, capability_middleware, on_host, with_ledger, set_caps,
}
use lottie_orchestrator.Core.Screens.{
  SecurityGate, before_next, after_next, checked, security_input_middleware,
  security_output_middleware, verify_middleware,
}

ok-injective : {A : Type 0} (a b : A) → ◌≡◌ {A = Result Exc A} (ok a) (ok b) → a ≡ b
ok-injective a b h = cc

module _ {I O U : Type 0} where
  -- The output is one that the rest of the chain gave on the same input.
  pub record Passed (nxt : Exec Exc (Run I U) O) (s : Run I U) (o : O) : Type 0 where
    pub from : Run I U
    pub after : Run I U
    pub gives : nxt from ≡ (ok o, after)
    pub same : from.ctx.input ≡ s.ctx.input

  -- A member that returns only what the rest of the chain returned on the same input.
  pub record IsTransparent (m : Middleware I O U) : Type 0 where
    pub at :
        (nxt : Exec Exc (Run I U) O) (s t : Run I U) (o : O)
        → m.call nxt s ≡ (ok o, t)
        → Passed nxt s o

  -- A member that returns only where something holds of input and output.
  abbrev pub Demands : (I → O → Type 0) → Middleware I O U → Type 0
  Demands Q m =
      (nxt : Exec Exc (Run I U) O) (s t : Run I U) (o : O)
      → m.call nxt s ≡ (ok o, t)
      → Q s.ctx.input o

  -- all that a member demands holds
  abbrev pub Satisfied : I → O → Middleware I O U → Type 1
  Satisfied input o m = (Q : I → O → Type 0) → Demands Q m → Q input o

  module _ (p : Pipeline I O U) where
    step-Satisfied :
        (chain : List (Middleware I O U)) (s t : Run I U) (o : O)
        → All IsTransparent chain
        → step p chain s ≡ (ok o, t)
        → All (Satisfied s.ctx.input o) chain
    unfolding step
    step-Satisfied [] s t o hs h = tt
    step-Satisfied (m ∷ rest) s t o hs h =
        let s' : Run I U = record s { entered = s.entered ++ m.name ∷ [] } in
        let passed = hs.0.at (step p rest) s' t o h in
        (
          λ Q d. d (step p rest) s' t o h,
          subst (λ i. All (Satisfied i o) rest) passed.same
              (step-Satisfied rest passed.from passed.after o hs.1 passed.gives),
        )

    settle-ok :
        (r : Result Exc O) (s t : Run I U) (o : O) → settle_execute p r s ≡ (ok o, t) → r ≡ ok o
    unfolding settle_execute
    settle-ok (ok x) s t o h = ap (λ out. out.0) h
    settle-ok (err exc) s t o h = elim (Bool-cases s.reached_core) [
      | inl e ↦ cc (simp e at h)
      | inr e ↦ cc (simp e at h)
    ]

    pub execute-Satisfied :
        (input : I) (run_id : String) (w : World U) (t : Run I U) (o : O)
        → All IsTransparent p.chain
        → execute p input run_id w ≡ (ok o, t)
        → All (Satisfied input o) p.chain
    unfolding execute start_run
    execute-Satisfied input run_id w t o hs h =
        let s = start_run p input run_id w in
        let (r, s') = step p p.chain s in
        step-Satisfied p.chain s s' o hs (ap (λ x. (x, s')) (settle-ok r s' t o h))

  pub before_next-Passed :
      (e : Option Exc) (nxt : Exec Exc (Run I U) O) (s t : Run I U) (o : O)
      → before_next e nxt s ≡ (ok o, t)
      → Passed nxt s o × (e ≡ none)
  unfolding before_next
  before_next-Passed none nxt s t o h =
      (record { from = s; after = t; gives = h; same = refl }, refl)
  before_next-Passed (some exc) nxt s t o h = cc

  checked-ok :
      (output o : O) (s t : Run I U) (e : Option Exc)
      → checked output s e ≡ (ok o, t)
      → (output ≡ o) × (s ≡ t) × (e ≡ none)
  checked-ok output o s t none h = (ok-injective output o (ap (λ x. x.0) h), ap (λ x. x.1) h, refl)
  checked-ok output o s t (some exc) h = cc

  pub after_next-ok :
      (check : O → Option Exc) (x : Result Exc O × Run I U) (t : Run I U) (o : O)
      → after_next check x ≡ (ok o, t)
      → (x ≡ (ok o, t)) × (check o ≡ none)
  unfolding after_next
  after_next-ok check (err exc, s) t o h = cc
  after_next-ok check (ok output, s) t o h =
      let (same, end, passed) = checked-ok output o s t (check output) h in
      (λ i. (ok (same i), end i), ap check (sym same) ∙ passed)

  -- A member that hands on what the rest of the chain gave on the same input, error or not.
  pub record KeepsResult (m : Middleware I O U) : Type 0 where
    pub from : Exec Exc (Run I U) O → Run I U → Run I U
    pub left : Exec Exc (Run I U) O → Run I U → Run I U
    pub same : (nxt : Exec Exc (Run I U) O) (s : Run I U) → (from nxt s).ctx ≡ s.ctx
    pub gives :
        (nxt : Exec Exc (Run I U) O) (s : Run I U)
        → m.call nxt s ≡ ((nxt (from nxt s)).0, left nxt s)

  -- a member that calls the rest of the chain on a run with the same input and hands its result on
  handed_on :
      (nxt : Exec Exc (Run I U) O) (s from t : Run I U) (left : Run I U) (o : O)
      → from.ctx.input ≡ s.ctx.input
      → ◌≡◌ {A = Result Exc O × Run I U} ((nxt from).0, left) (ok o, t)
      → Passed nxt s o
  handed_on nxt s from t left o same h = record {
    from = from;
    after = (nxt from).1;
    gives = ap (λ x. (x.0, (nxt from).1)) h;
    same = same;
  }

  pub KeepsResult-IsTransparent : (m : Middleware I O U) → KeepsResult m → IsTransparent m
  KeepsResult-IsTransparent m k = record {
    at = λ nxt s t o h.
        handed_on nxt s (k.from nxt s) t (k.left nxt s) o (ap (λ c. c.input) (k.same nxt s))
          (sym (k.gives nxt s) ∙ h);
  }

  pub security_input-IsTransparent :
      (g : SecurityGate) (dump : I → Text) → IsTransparent (security_input_middleware g dump)
  unfolding security_input_middleware
  security_input-IsTransparent g dump = record {
    at = λ nxt s t o h. (before_next-Passed (g.check_input (dump s.ctx.input)) nxt s t o h).0;
  }

  pub security_output-IsTransparent :
      (g : SecurityGate) (dump : O → Text) → IsTransparent (security_output_middleware g dump)
  unfolding security_output_middleware
  security_output-IsTransparent g dump = record {
    at = λ nxt s t o h. record {
      from = s;
      after = t;
      gives = (after_next-ok (λ x. g.check_output (dump x)) (nxt s) t o h).0;
      same = refl;
    };
  }

  pub verify-IsTransparent :
      (verify : I → O → Option Exc) → IsTransparent (verify_middleware verify)
  unfolding verify_middleware
  verify-IsTransparent verify = record {
    at = λ nxt s t o h. record {
      from = s;
      after = t;
      gives = (after_next-ok (verify s.ctx.input) (nxt s) t o h).0;
      same = refl;
    };
  }

module _ {I O A : Type 0} (audit_block : I → Exc → String → Host A → Host A) where
  pub policy_call-Passed :
      (e : Option Exc) (nxt : Exec Exc (Run I (Host A)) O) (s t : Run I (Host A)) (o : O)
      → policy_call audit_block e nxt s ≡ (ok o, t)
      → Passed nxt s o × (e ≡ none)
  unfolding policy_call
  policy_call-Passed none nxt s t o h =
      (record { from = s; after = t; gives = h; same = refl }, refl)
  policy_call-Passed (some exc) nxt s t o h = cc

  pub policy-IsTransparent :
      (g : PolicyGate) → IsTransparent (policy_middleware audit_block {O = O} g)
  unfolding policy_middleware
  policy-IsTransparent g = record {
    at = λ nxt s t o h. (policy_call-Passed (Policy.check g) nxt s t o h).0;
  }

  cost_parts-Passed :
      (g : CostGate) (r : Result Exc (Option ℕ)) (nxt : Exec Exc (Run I (Host A)) O)
      (s s' t : Run I (Host A)) (o : O)
      → s'.ctx.input ≡ s.ctx.input
      → (let (r', s'') = note_refusal audit_block r s' in cost_call audit_block g r' nxt s'')
        ≡ (ok o, t)
      → Passed nxt s o
  unfolding note_refusal cost_call
  cost_parts-Passed g (err exc) nxt s s' t o e h = cc
  cost_parts-Passed g (ok handle) nxt s s' t o e h = handed_on nxt s s' t _ o e h

  pub cost-IsTransparent : (g : CostGate) → IsTransparent (cost_middleware audit_block {O = O} g)
  unfolding cost_middleware cost_reserve
  cost-IsTransparent g = record {
    at = λ nxt s t o h.
        let (r, db) = Cost.reserve g s.world.user.now s.world.user.ledger in
        cost_parts-Passed g r nxt s (on_host (with_ledger db) s) t o refl h;
  }

pub depth-IsTransparent :
    {I O A : Type 0} → IsTransparent {I = I} {O = O} {U = Host A} depth_middleware
unfolding depth_middleware descend
depth-IsTransparent = record { at = λ nxt s t o h. handed_on nxt s (descend s) t _ o refl h }

pub capability-IsTransparent :
    {I O A : Type 0} (g : CapabilityGate)
    → IsTransparent {I = I} {O = O} {U = Host A} (capability_middleware g)
unfolding capability_middleware
capability-IsTransparent g = record {
  at = λ nxt s t o h. handed_on nxt s (set_caps (some g) s) t _ o refl h;
}
