-- ===== src/Memory/Unnoticed.antt =====
-- memory/middleware.py: the memory modules never change the outcome of a run.
use lottie_orchestrator.Prelude.{[], ℕ, ◌≡◌, refl, Option, Bool}
use lottie_orchestrator.Exec.{Exc, Result, ok, err}
use lottie_orchestrator.Runtime.Pipeline.{Run}
use lottie_orchestrator.Core.Enforcement.{KeepsResult}
use lottie_orchestrator.Memory.Modules.{
  MemoryPorts, load, on_world, on_user, persisted, reflected, recall_middleware,
  trajectory_middleware, reflect_middleware,
}

module _ {I O U : Type 0} (ports : MemoryPorts I O U) where
  pub recall-KeepsResult :
      (enabled : Bool) (limit : ℕ) → KeepsResult (recall_middleware ports enabled limit)
  unfolding recall_middleware
  recall-KeepsResult enabled limit = record {
    from = λ nxt s. on_world ports (load ports enabled limit) s;
    left = λ nxt s.
        on_world ports (on_user (ports.set_prefix []))
          (nxt (on_world ports (load ports enabled limit) s)).1;
    same = λ nxt s. refl;
    gives = λ nxt s. refl;
  }

  pub trajectory-KeepsResult :
      (enabled : Bool) (max_chars : ℕ) → KeepsResult (trajectory_middleware ports enabled max_chars)
  unfolding trajectory_middleware
  trajectory-KeepsResult enabled max_chars = record {
    from = λ nxt s. s;
    left = λ nxt s. (persisted ports enabled max_chars s.ctx.input (nxt s)).1;
    same = λ nxt s. refl;
    gives = λ nxt s. refl;
  }

  reflected-result :
      (enabled : Bool) (cap : Option ℕ) (input : I) (x : Result Exc O × Run I U)
      → reflected ports enabled cap input x ≡ (x.0, (reflected ports enabled cap input x).1)
  reflected-result enabled cap input (ok output, s) = refl
  reflected-result enabled cap input (err exc, s) = refl

  pub reflect-KeepsResult :
      (enabled : Bool) (cap : Option ℕ) → KeepsResult (reflect_middleware ports enabled cap)
  unfolding reflect_middleware
  reflect-KeepsResult enabled cap = record {
    from = λ nxt s. s;
    left = λ nxt s. (reflected ports enabled cap s.ctx.input (nxt s)).1;
    same = λ nxt s. refl;
    gives = λ nxt s. reflected-result enabled cap s.ctx.input (nxt s);
  }
