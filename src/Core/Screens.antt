-- ===== src/Core/Screens.antt =====
-- security/middleware.py and `VerifyMiddleware` of core/middleware.py: the chain members that look at
-- input and output. A check is the exception that it raises, if any.
use lottie_orchestrator.Prelude.{Option, none, some}
use lottie_orchestrator.Prelude.Texts.{Text}
use lottie_orchestrator.Exec.{Exc, Result, ok, err, Exec}
use lottie_orchestrator.Runtime.Pipeline.{Middleware}

-- `InputOutputGate`
pub record SecurityGate : Type 0 where
  pub check_input : Text → Option Exc
  pub check_output : Text → Option Exc

-- `NullSecurityGate`
unfoldable pub null_security_gate : SecurityGate
null_security_gate = record { check_input = λ _. none; check_output = λ _. none }

-- a check before the rest of the chain
unfoldable pub before_next : {S O : Type 0} → Option Exc → Exec Exc S O → Exec Exc S O
before_next none nxt s = nxt s
before_next (some exc) nxt s = (err exc, s)

-- the output that passed, or the exception of its check
abbrev pub checked : {S O : Type 0} → O → S → Option Exc → Result Exc O × S
checked output s none = (ok output, s)
checked output s (some exc) = (err exc, s)

-- a check of the output that the rest of the chain gave
unfoldable pub after_next : {S O : Type 0} → (O → Option Exc) → Result Exc O × S → Result Exc O × S
after_next check (err exc, s) = (err exc, s)
after_next check (ok output, s) = checked output s (check output)

module _ {I O U : Type 0} where
  -- `SecurityInputMiddleware`
  unfoldable pub security_input_middleware : SecurityGate → (I → Text) → Middleware I O U
  unfolding before_next
  security_input_middleware gate dump = record {
    name = "security_input";
    order = 10;
    call = λ nxt s. before_next (gate.check_input (dump s.ctx.input)) nxt s;
    scope = none;
  }

  -- `SecurityOutputMiddleware`
  unfoldable pub security_output_middleware : SecurityGate → (O → Text) → Middleware I O U
  unfolding after_next
  security_output_middleware gate dump = record {
    name = "security_output";
    order = 75;
    call = λ nxt s. after_next (λ output. gate.check_output (dump output)) (nxt s);
    scope = none;
  }

  -- `VerifyMiddleware`, with the agent's `_verify`
  unfoldable pub verify_middleware : (I → O → Option Exc) → Middleware I O U
  unfolding after_next
  verify_middleware verify = record {
    name = "verify";
    order = 80;
    call = λ nxt s. after_next (verify s.ctx.input) (nxt s);
    scope = none;
  }
