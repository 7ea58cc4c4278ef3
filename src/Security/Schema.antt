-- ===== src/Security/Schema.antt =====
-- security/schema.py: findings and verdicts.
use lottie_orchestrator.Prelude.{ℕ, String, Bool, List}
use lottie_orchestrator.Prelude.Texts.{Text}

pub record SecurityFinding : Type 0 where
  pub file : String
  pub line : ℕ
  pub kind : String
  pub message : Text

-- `ValidateOutput`
pub record ValidateOutput : Type 0 where
  pub passed : Bool
  pub diagnostics : Text

pub record InjectionScanOutput : Type 0 where
  pub flagged : Bool
  pub findings : List SecurityFinding
  pub sanitized : Text

-- the verdict of a screen, `SanitizeOutput` and `OutputCheckOutput`
pub record Verdict : Type 0 where
  pub ok : Bool
  pub reason : String
