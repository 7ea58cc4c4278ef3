-- ===== src/Core/Secured.antt =====
-- core/middleware.py with serve/security.py and the modules of the memory and session packages: what
-- an agent that is mounted with all of them lets in and out.
use lottie_orchestrator.Prelude.{[], List, ◌≡◌, ℕ, String, Option, none, Bool}
use lottie_orchestrator.Exec.{ok}
use lottie_orchestrator.Runtime.Events.{World}
use lottie_orchestrator.Runtime.Pipeline.{Run, Middleware, Pipeline, sort_chain, execute}
use lottie_orchestrator.Governance.Policy
use lottie_orchestrator.Governance.Host.{Host}
use lottie_orchestrator.Core.Chain.{Mounts, build_chain}
use lottie_orchestrator.Core.Enforcement.{KeepsResult-IsTransparent}
use lottie_orchestrator.Core.Governed.{HandsOn, execute-IsGoverned}
use lottie_orchestrator.Security.Screens.{Tools, serve_gate}
use lottie_orchestrator.Security.Clean.{IsAcceptable, IsPresentable, serve_gate-IsPresentable}
use lottie_orchestrator.Session.Store.{Codec}
use lottie_orchestrator.Session.Module.{SessionPorts, session_middleware, session-KeepsResult}
use lottie_orchestrator.Memory.Modules.{
  MemoryPorts, recall_middleware, trajectory_middleware, reflect_middleware,
}
use lottie_orchestrator.Memory.Unnoticed.{
  recall-KeepsResult, trajectory-KeepsResult, reflect-KeepsResult,
}

-- the settings of the memory modules
pub record MemorySettings : Type 0 where
  pub recall_enabled : Bool
  pub recall_limit : ℕ
  pub trajectory_enabled : Bool
  pub max_chars : ℕ
  pub reflect_enabled : Bool
  pub max_run_tokens : Option ℕ

module _ {I O A : Type 0} (memory : MemoryPorts I O (Host A)) (settings : MemorySettings) where
  -- `_recall_module`
  unfoldable pub recall_module : Middleware I O (Host A)
  unfolding recall_middleware
  recall_module = recall_middleware memory settings.recall_enabled settings.recall_limit

  -- `_trajectory_module`
  unfoldable pub trajectory_module : Middleware I O (Host A)
  unfolding trajectory_middleware
  trajectory_module = trajectory_middleware memory settings.trajectory_enabled settings.max_chars

  -- `_reflect_module`
  unfoldable pub reflect_module : Middleware I O (Host A)
  unfolding reflect_middleware
  reflect_module = reflect_middleware memory settings.reflect_enabled settings.max_run_tokens

module _ {I O A V : Type 0} (codec : Codec V) (tools : Tools) where
  -- `_session_module`
  unfoldable pub session_module : SessionPorts I (Host A) V → Middleware I O (Host A)
  unfolding session_middleware
  session_module session = session_middleware codec tools session

  -- `set_security_gate` with the gate of the transports, and the modules of both packages
  unfoldable pub mount :
      Mounts I O A
      → SessionPorts I (Host A) V
      → MemoryPorts I O (Host A)
      → MemorySettings
      → Mounts I O A
  unfolding serve_gate session_module recall_module trajectory_module reflect_module
  mount agent session memory settings = record agent {
    security = serve_gate tools;
    session_module = session_module session;
    trajectory_module = trajectory_module memory settings;
    recall_module = recall_module memory settings;
    reflect_module = reflect_module memory settings;
  }

-- What is known of a run that returned.
pub record IsSecured {I O A : Type 0} (tools : Tools) (agent : Mounts I O A) (input : I)
    (output : O) : Type 0 where
  pub accepted : IsAcceptable tools (agent.dump_input input)
  pub admitted : Policy.check agent.policy ≡ none
  pub presentable : IsPresentable tools (agent.dump_output output)
  pub verified : agent.verify input output ≡ none

module _ {I O A V : Type 0} (codec : Codec V) (tools : Tools) (agent : Mounts I O A)
    (session : SessionPorts I (Host A) V) (memory : MemoryPorts I O (Host A))
    (settings : MemorySettings) where
  mount-HandsOn : HandsOn (mount codec tools agent session memory settings)
  unfolding mount session_module recall_module trajectory_module reflect_module
  mount-HandsOn = record {
    session = KeepsResult-IsTransparent _ (session-KeepsResult codec tools session);
    trajectory =
        KeepsResult-IsTransparent _
          (trajectory-KeepsResult memory settings.trajectory_enabled settings.max_chars);
    recall =
        KeepsResult-IsTransparent _
          (recall-KeepsResult memory settings.recall_enabled settings.recall_limit);
    reflect =
        KeepsResult-IsTransparent _
          (reflect-KeepsResult memory settings.reflect_enabled settings.max_run_tokens);
  }

  -- A run through the standard chain of an agent, with the gate of the transports and the memory and
  -- session modules as their packages make them, returns an output only if the serialized input is
  -- acceptable, the policy gate admits the agent, the serialized output is presentable, and the
  -- agent's verification passed, whatever the work, the memory and the store of sessions do. No
  -- module is disabled.
  pub execute-IsSecured :
      (p : Pipeline I O (Host A)) (chain : List (Middleware I O (Host A))) (input : I)
      (run_id : String) (w : World (Host A)) (t : Run I (Host A)) (output : O)
      → build_chain (mount codec tools agent session memory settings) [] ≡ ok chain
      → p.chain ≡ sort_chain chain
      → execute p input run_id w ≡ (ok output, t)
      → IsSecured tools agent input output
  unfolding mount serve_gate
  execute-IsSecured p chain input run_id w t output b c h =
      let mounted = mount codec tools agent session memory settings in
      let g = execute-IsGoverned mounted p chain input run_id w t output mount-HandsOn b c h in
      record {
        accepted = (serve_gate-IsPresentable tools (agent.dump_input input)).0 g.input_screened;
        admitted = g.policy_passed;
        presentable =
            (serve_gate-IsPresentable tools (agent.dump_output output)).1 g.output_screened;
        verified = g.verified;
      }
