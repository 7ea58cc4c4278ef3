-- ===== src/Core/Governed.antt =====
-- core/middleware.py with runtime/pipeline.py: what a run through the standard chain has passed.
use lottie_orchestrator.Prelude.{
  ◌≡◌, sym, ap, subst, ◌∙◌, String, Option, none, some, List, [], All,
}
use lottie_orchestrator.Prelude.Sort.{sort_by-All, All-of-sort_by, by_key}
use lottie_orchestrator.Exec.{Exc, ok}
use lottie_orchestrator.Runtime.Events.{World}
use lottie_orchestrator.Runtime.Pipeline.{Run, Middleware, Pipeline, sort_chain, execute}
use lottie_orchestrator.Governance.Policy
use lottie_orchestrator.Governance.Host.{Host}
use lottie_orchestrator.Governance.Modules.{policy_middleware}
use lottie_orchestrator.Core.Screens.{
  security_input_middleware, security_output_middleware, verify_middleware,
}
use lottie_orchestrator.Core.Chain.{
  Mounts, standard_modules, drop_disabled, checked_chain, build_chain,
}
use lottie_orchestrator.Core.Enforcement.{
  IsTransparent, Satisfied, execute-Satisfied, before_next-Passed, after_next-ok,
  policy_call-Passed, security_input-IsTransparent, security_output-IsTransparent,
  verify-IsTransparent, policy-IsTransparent, cost-IsTransparent, depth-IsTransparent,
  capability-IsTransparent,
}

module _ {I O A : Type 0} (agent : Mounts I O A) where
  -- The modules that the memory and session packages make hand on what the chain returned.
  pub record HandsOn : Type 0 where
    pub session : IsTransparent agent.session_module
    pub trajectory : IsTransparent agent.trajectory_module
    pub recall : IsTransparent agent.recall_module
    pub reflect : IsTransparent agent.reflect_module

  -- Every check of the agent's gates has passed.
  pub record IsGoverned (input : I) (output : O) : Type 0 where
    pub input_screened : agent.security.check_input (agent.dump_input input) ≡ none
    pub policy_passed : Policy.check agent.policy ≡ none
    pub output_screened : agent.security.check_output (agent.dump_output output) ≡ none
    pub verified : agent.verify input output ≡ none

  standard-IsTransparent : HandsOn → All IsTransparent (standard_modules agent)
  unfolding standard_modules
  standard-IsTransparent h = (
    security_input-IsTransparent agent.security agent.dump_input,
    (
      policy-IsTransparent agent.write_block agent.policy,
      (
        cost-IsTransparent agent.write_block agent.cost,
        (
          h.session,
          (
            h.trajectory,
            (
              depth-IsTransparent,
              (
                h.recall,
                (
                  h.reflect,
                  (
                    security_output-IsTransparent agent.security agent.dump_output,
                    (
                      verify-IsTransparent agent.verify,
                      (capability-IsTransparent agent.capabilities, tt),
                    ),
                  ),
                ),
              ),
            ),
          ),
        ),
      ),
    ),
  )

  Satisfied-IsGoverned :
      (input : I) (output : O)
      → All (Satisfied input output) (standard_modules agent)
      → IsGoverned input output
  unfolding standard_modules security_input_middleware policy_middleware security_output_middleware
      verify_middleware
  Satisfied-IsGoverned input output h = record {
    input_screened =
        h.0 (λ i o. agent.security.check_input (agent.dump_input i) ≡ none)
          (λ nxt s t o e.
            (before_next-Passed (agent.security.check_input (agent.dump_input s.ctx.input)) nxt s t
              o e).1);
    policy_passed =
        h.1.0 (λ i o. Policy.check agent.policy ≡ none)
          (λ nxt s t o e.
            (policy_call-Passed agent.write_block (Policy.check agent.policy) nxt s t o e).1);
    output_screened =
        h.1.1.1.1.1.1.1.1.0 (λ i o. agent.security.check_output (agent.dump_output o) ≡ none)
          (λ nxt s t o e.
            (after_next-ok (λ x. agent.security.check_output (agent.dump_output x)) (nxt s) t o
              e).1);
    verified =
        h.1.1.1.1.1.1.1.1.1.0 (λ i o. agent.verify i o ≡ none)
          (λ nxt s t o e. (after_next-ok (agent.verify s.ctx.input) (nxt s) t o e).1);
  }

  checked_chain-ok :
      (ms chain : List (Middleware I O (Host A))) (e : Option Exc)
      → checked_chain ms e ≡ ok chain
      → ms ≡ chain
  checked_chain-ok ms chain none h = cc
  checked_chain-ok ms chain (some exc) h = cc

  build_chain-ok :
      (chain : List (Middleware I O (Host A)))
      → build_chain agent [] ≡ ok chain
      → standard_modules agent ≡ chain
  unfolding build_chain drop_disabled standard_modules
  build_chain-ok chain h = checked_chain-ok _ chain _ h

  -- A run through the agent's standard chain returns an output only if the input passed the input
  -- screen, the policy gate admits the agent, and the output passed the output screen and the
  -- agent's verification, whatever the work did. No module is disabled, and those of the memory and
  -- session packages return only what the rest of the chain returned on the same input.
  pub execute-IsGoverned :
      (p : Pipeline I O (Host A)) (chain : List (Middleware I O (Host A))) (input : I)
      (run_id : String) (w : World (Host A)) (t : Run I (Host A)) (output : O)
      → HandsOn
      → build_chain agent [] ≡ ok chain
      → p.chain ≡ sort_chain chain
      → execute p input run_id w ≡ (ok output, t)
      → IsGoverned input output
  unfolding sort_chain
  execute-IsGoverned p chain input run_id w t output hands b c h =
      let by_order = by_key (λ (m : Middleware I O (Host A)). m.order) in
      let sorted = c ∙ sym (ap (λ ms. sort_chain ms) (build_chain-ok chain b)) in
      let clear =
        sort_by-All by_order IsTransparent (standard_modules agent)
          (standard-IsTransparent hands) in
      let all =
        execute-Satisfied p input run_id w t output (subst (All IsTransparent) (sym sorted) clear)
          h in
      Satisfied-IsGoverned input output (
        All-of-sort_by by_order (Satisfied input output) (standard_modules agent)
          (subst (All (Satisfied input output)) sorted all))
