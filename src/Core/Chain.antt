-- ===== src/Core/Chain.antt =====
-- core/middleware.py, `build_chain` and `_reject_order_conflicts`: the standard chain of an agent.
use lottie_orchestrator.Prelude.{
  ℕ, String, Option, none, some, not, List, [], ◌∷◌, ◌==◌, keep, map, if◌then◌else◌,
}
use lottie_orchestrator.Prelude.Texts.{Text, contains}
use lottie_orchestrator.Exec.{Exc, module_conflict, Result, ok, err}
use lottie_orchestrator.Runtime.Pipeline.{Middleware, sort_chain}
use lottie_orchestrator.Governance.Policy.{PolicyGate}
use lottie_orchestrator.Governance.Cost.{CostGate}
use lottie_orchestrator.Governance.Capability.{CapabilityGate}
use lottie_orchestrator.Governance.Host.{Host}
use lottie_orchestrator.Governance.Modules.{
  policy_middleware, cost_middleware, depth_middleware, capability_middleware,
}
use lottie_orchestrator.Core.Screens.{
  SecurityGate, security_input_middleware, security_output_middleware, verify_middleware,
}

-- What `build_chain` reads of an agent: its gates, the methods that modules are given, and the
-- modules that the memory and session packages make for it.
pub record Mounts (I O A : Type 0) : Type 0 where
  pub security : SecurityGate
  pub policy : PolicyGate
  pub cost : CostGate
  pub capabilities : CapabilityGate
  pub write_block : I → Exc → String → Host A → Host A
  pub dump_input : I → Text
  pub dump_output : O → Text
  pub verify : I → O → Option Exc
  pub session_module : Middleware I O (Host A)
  pub trajectory_module : Middleware I O (Host A)
  pub recall_module : Middleware I O (Host A)
  pub reflect_module : Middleware I O (Host A)

-- `seen.get(order)`
unfoldable pub seen_at : ℕ → List (ℕ × String) → Option String
seen_at order [] = none
seen_at order ((k, name) ∷ seen) = if k == order then some name else seen_at order seen

module _ {I O U : Type 0} where
  -- raise for a clash, or go on
  abbrev pub reject_clash : Middleware I O U → Option String → Option Exc → Option Exc
  reject_clash m (some clash) rest = some (module_conflict m.name m.order clash)
  reject_clash m none rest = rest

  -- `_reject_order_conflicts`, from what has been seen: the exception that it raises, if any
  unfoldable pub reject_from : List (ℕ × String) → List (Middleware I O U) → Option Exc
  unfolding seen_at
  reject_from seen [] = none
  reject_from seen (m ∷ ms) =
      reject_clash m (seen_at m.order seen) (reject_from ((m.order, m.name) ∷ seen) ms)

  unfoldable pub reject_order_conflicts : List (Middleware I O U) → Option Exc
  unfolding reject_from
  reject_order_conflicts modules = reject_from [] modules

  -- `[m for m in modules if m.name not in disabled]`
  unfoldable pub drop_disabled : List String → List (Middleware I O U) → List (Middleware I O U)
  drop_disabled disabled modules = keep (λ m. not (contains disabled m.name)) modules

  abbrev pub checked_chain :
      List (Middleware I O U) → Option Exc → Result Exc (List (Middleware I O U))
  checked_chain modules none = ok modules
  checked_chain modules (some exc) = err exc

module _ {I O A : Type 0} (agent : Mounts I O A) where
  -- the modules of `build_chain`, before any is dropped
  unfoldable pub standard_modules : List (Middleware I O (Host A))
  standard_modules =
      security_input_middleware agent.security agent.dump_input
      ∷ policy_middleware agent.write_block agent.policy
      ∷ cost_middleware agent.write_block agent.cost
      ∷ agent.session_module
      ∷ agent.trajectory_module
      ∷ depth_middleware
      ∷ agent.recall_module
      ∷ agent.reflect_module
      ∷ security_output_middleware agent.security agent.dump_output
      ∷ verify_middleware agent.verify
      ∷ capability_middleware agent.capabilities
      ∷ []

  -- `build_chain`
  unfoldable pub build_chain : List String → Result Exc (List (Middleware I O (Host A)))
  unfolding standard_modules drop_disabled reject_order_conflicts
  build_chain disabled =
      let modules = drop_disabled disabled standard_modules in
      checked_chain modules (reject_order_conflicts modules)

  abbrev pub names_of : Result Exc (List (Middleware I O (Host A))) → Result Exc (List String)
  names_of (err exc) = err exc
  names_of (ok chain) = ok (map (λ m. m.name) (sort_chain chain))

  -- `BaseAgent.mounted_modules`
  unfoldable pub mounted_modules : List String → Result Exc (List String)
  unfolding build_chain
  mounted_modules disabled = names_of (build_chain disabled)
