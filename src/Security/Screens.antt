-- ===== src/Security/Screens.antt =====
-- security/input_sanitizer.py, output_validator.py, content_gate.py and memory_gate.py, and
-- serve/security.py: the fail-closed screens. What they call of third parties is a record of tools.
use lottie_orchestrator.Prelude.{
  ℕ, String, Option, none, some, Bool, true, false, not, ◌&&◌, ◌||◌, List, [], ◌∷◌, ◌==◌, ltb, leb,
  any, length, is_nonempty, if◌then◌else◌,
}
use lottie_orchestrator.Prelude.Texts.{Text, codes}
use lottie_orchestrator.Prelude.Walks.{strip, is_empty}
use lottie_orchestrator.Exec.{Exc, screened}
use lottie_orchestrator.Files.{FilePath}
use lottie_orchestrator.Governance.Capability
use lottie_orchestrator.Governance.Capability.{CapabilityGate, active_capability_gate}
use lottie_orchestrator.Core.Screens.{SecurityGate}
use lottie_orchestrator.Security.Schema.{Verdict}
use lottie_orchestrator.Security.Markers.{Rule}
use lottie_orchestrator.Security.Injection.{Span, scan}
use lottie_orchestrator.Security.Secrets.{Scanners, scan_text}

-- `_ALLOWED_CONTROLS` and the test of one character
unfoldable pub is_forbidden : ℕ → Bool
is_forbidden code =
    not (code == b'\t' || (code == b'\n' || code == b'\r'))
    && (ltb code 32 || (leb 127 code && leb code 159))

-- `_has_control_chars`
unfoldable pub has_control_chars : Text → Bool
unfolding is_forbidden
has_control_chars text = any is_forbidden text

abbrev accepted : Verdict
accepted = record { ok = true; reason = "" }

abbrev refused : String → Verdict
refused reason = record { ok = false; reason = reason }

abbrev pub max_input : ℕ
max_input = 20000

abbrev pub max_output : ℕ
max_output = 100000

-- `InputSanitizerSkill._execute`
unfoldable pub sanitize : ℕ → Text → Verdict
unfolding has_control_chars
sanitize max_len content =
    if ltb max_len (length content)
    then refused "oversized"
    else if has_control_chars content
    then refused "control-characters"
    else accepted

-- `OutputValidationSkill._execute`
unfoldable pub validate_output : ℕ → Text → Verdict
validate_output max_len content =
    if is_empty (strip content)
    then refused "empty"
    else if ltb max_len (length content)
    then refused "oversized"
    else accepted

-- The engine of regular expressions, the scanners of `SecretDetectionSkill`, the name of its temporary
-- file, and the capability gate of the agent in whose window the screens are called, if any.
pub record Tools : Type 0 where
  pub finditer : Rule → Text → List Span
  pub scanners : Scanners
  pub tmp : FilePath
  pub active : Option CapabilityGate

-- `ContentGate`: `source`, `error` by name, and `label`
pub record ContentGate : Type 0 where
  pub source : String
  pub error : String
  pub label : String

-- `MemoryContentGate()`
abbrev pub memory_gate : ContentGate
memory_gate = record {
  source = "memory-write";
  error = "MemoryContentRejected";
  label = "memory write";
}

-- a refusal, or what the next screen says
abbrev pub or_refuse : Verdict → (String → Exc) → Option Exc → Option Exc
or_refuse v refuse next = if v.ok then next else some (refuse v.reason)

abbrev pub refuse_if : Bool → Exc → Option Exc → Option Exc
refuse_if tripped exc next = if tripped then some exc else next

abbrev pub denied_or : Option Exc → Option Exc → Option Exc
denied_or (some exc) next = some exc
denied_or none next = next

module _ (tools : Tools) where
  -- the check with which `BaseSkill.run` starts, of a skill's capability
  abbrev pub denial : String → Option Exc
  denial capability = Capability.check (active_capability_gate tools.active) capability

  -- `ContentGate.check`: the exception that it raises, if any
  unfoldable pub check : ContentGate → Text → Option Exc
  unfolding sanitize scan scan_text Capability.check active_capability_gate
  check gate content = denied_or (denial "inputsanitizer") (
      or_refuse (sanitize max_input content) (screened gate.error gate.label) (
        denied_or (denial "promptinjectionscan") (
          refuse_if (scan tools.finditer content gate.source).flagged
            (screened gate.error gate.label "prompt-injection detected")
            (refuse_if
              (is_nonempty (scan_text tools.scanners tools.tmp content (codes gate.source ∷ [])))
              (screened gate.error gate.label "secret detected") none))))

  -- `SecurityGate.check_input`
  unfoldable pub check_input : Text → Option Exc
  unfolding sanitize scan Capability.check active_capability_gate
  check_input text = denied_or (denial "inputsanitizer") (
      or_refuse (sanitize max_input text) (screened "InputSecurityViolation" "input") (
        denied_or (denial "promptinjectionscan") (
          refuse_if (scan tools.finditer text "serve-input").flagged
            (screened "InputSecurityViolation" "input" "prompt-injection detected") none)))

  -- `SecurityGate.check_output`
  unfoldable pub check_output : Text → Option Exc
  unfolding validate_output scan_text Capability.check active_capability_gate
  check_output text = denied_or (denial "outputvalidation") (
      or_refuse (validate_output max_output text) (screened "OutputSecurityViolation" "output") (
        refuse_if
          (is_nonempty (scan_text tools.scanners tools.tmp text (codes "serve-output" ∷ [])))
          (screened "OutputSecurityViolation" "output" "secret detected") none))

  -- `SecurityGate`
  unfoldable pub serve_gate : SecurityGate
  unfolding check_input check_output
  serve_gate = record { check_input = check_input; check_output = check_output }
