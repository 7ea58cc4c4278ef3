-- ===== src/Security/Clean.antt =====
-- security/content_gate.py and serve/security.py: what a text that passed a screen is free of.
use lottie_orchestrator.Prelude.{
  Option, ℕ, ◌+◌, ◌≤◌, ◌≡◌, refl, ◌↔◌, String, Option, none, some, Bool, true, false, ◌||◌, List,
  [], ◌∷◌, any, is_nonempty, length, arith, Bool-cases, inl, inr,
}
use lottie_orchestrator.Prelude.Texts.{Text, codes, contains}
use lottie_orchestrator.Prelude.Walks.{strip, is_empty, splitlines}
use lottie_orchestrator.Files.{FilePath}
use lottie_orchestrator.Exec.{Exc, screened}
use lottie_orchestrator.Governance.Capability
use lottie_orchestrator.Governance.Capability.{CapabilityGate, active_capability_gate}
use lottie_orchestrator.Security.Markers.{rules}
use lottie_orchestrator.Security.Injection.{scan}
use lottie_orchestrator.Security.Redaction.{scan-found, is_nonempty-map}
use lottie_orchestrator.Security.Secrets.{
  Secret, Scanners, custom_patterns, seen, note_secret, scan_detected, scan_line, scan_custom,
  scan_path, scan_text,
}
use lottie_orchestrator.Security.Screens.{
  refuse_if, or_refuse, denied_or, denial, Tools, ContentGate, sanitize, validate_output,
  has_control_chars, max_input, max_output, check, check_input, check_output,
}

is_nonempty-note_secret : (k : Secret) (fs : List Secret) → is_nonempty (note_secret k fs) ≡ true
unfolding note_secret
is_nonempty-note_secret k [] = refl
is_nonempty-note_secret k (f ∷ fs) = elim (Bool-cases (seen k (f ∷ fs))) [
  | inl e ↦ rw e refl
  | inr e ↦ rw e refl
]

module _ (tools : Scanners) (raw : FilePath) where
  is_nonempty-scan_detected :
      (ss : List (ℕ × String)) (fs : List Secret)
      → is_nonempty (scan_detected tools raw ss fs) ≡ (is_nonempty ss || is_nonempty fs)
  unfolding scan_detected
  is_nonempty-scan_detected [] fs = refl
  is_nonempty-scan_detected ((line, kind) ∷ ss) fs =
      let k : Secret = record { file = raw; line = line; kind = kind } in
      let rec = is_nonempty-scan_detected ss (note_secret k fs) in
      let here = is_nonempty-note_secret k fs in ground arith

  abbrev pub matched : List (String × String) → Text → Bool
  matched patterns line = any (λ p. tools.search p.1 line) patterns

  is_nonempty-scan_line :
      (ps : List (String × String)) (n : ℕ) (line : Text) (fs : List Secret)
      → is_nonempty (scan_line tools raw ps n line fs) ≡ (matched ps line || is_nonempty fs)
  unfolding scan_line
  is_nonempty-scan_line [] n line fs = refl
  is_nonempty-scan_line ((kind, p) ∷ ps) n line fs =
      let k : Secret = record { file = raw; line = n; kind = kind } in
      let here = is_nonempty-note_secret k fs in
      elim (Bool-cases (tools.search p line)) [
        | inl e ↦
            let rec = is_nonempty-scan_line ps n line (note_secret k fs) in rw e (ground arith)
        | inr e ↦ rw e (is_nonempty-scan_line ps n line fs)
      ]

  is_nonempty-scan_custom :
      (n : ℕ) (lines : List Text) (fs : List Secret)
      → is_nonempty (scan_custom tools raw n lines fs)
        ≡ (any (matched custom_patterns) lines || is_nonempty fs)
  unfolding scan_custom
  is_nonempty-scan_custom n [] fs = refl
  is_nonempty-scan_custom n (line ∷ lines) fs =
      let fs' = scan_line tools raw custom_patterns n line fs in
      let rec = is_nonempty-scan_custom (n + 1) lines fs' in
      let here = is_nonempty-scan_line custom_patterns n line fs in ground arith

  pub scan_path-found :
      (content : Text) (fs : List Secret)
      → is_nonempty (scan_path tools raw (some content) fs) ≡ (
          (any (matched custom_patterns) (splitlines content)
            || is_nonempty (tools.scan_file raw content))
          || is_nonempty fs)
  unfolding scan_path
  scan_path-found content fs =
      let detected = tools.scan_file raw content in
      let a =
        is_nonempty-scan_custom 1 (splitlines content) (scan_detected tools raw detected fs) in
      let b = is_nonempty-scan_detected detected fs in ground arith

-- neither detect-secrets nor a pattern finds a secret in a text
pub record HasNoSecret (tools : Tools) (content : Text) : Type 0 where
  pub undetected : is_nonempty (tools.scanners.scan_file tools.tmp content) ≡ false
  pub unmatched :
      any (matched tools.scanners tools.tmp custom_patterns) (splitlines content) ≡ false

-- a text that is not too long, has no control characters, and matches no rule of the table
pub record IsAcceptable (tools : Tools) (content : Text) : Type 0 where
  pub fits : length content ≤ max_input
  pub printable : has_control_chars content ≡ false
  pub unmarked : any (λ r. is_nonempty (tools.finditer r content)) rules ≡ false

-- an agent may use a skill: outside of any window, where nothing is declared, or where it is declared
pub data Permitted (capability : String) : Option CapabilityGate → Type 0 where
  outside : Permitted capability none
  unrestricted : Permitted capability (some Capability.null_gate)
  declared :
      {allowed : List String}
      → contains allowed capability ≡ true
      → Permitted capability (some (Capability.gate allowed))

declared_of :
    (capability : String) (allowed : List String)
    → Permitted capability (some (Capability.gate allowed))
    → contains allowed capability ≡ true
declared_of capability allowed (declared e) = e

-- a text with something in it that is not too long and has no secret
pub record IsPresentable (tools : Tools) (content : Text) : Type 0 where
  pub filled : is_empty (strip content) ≡ false
  pub fits : length content ≤ max_output
  pub secretless : HasNoSecret tools content

module _ (tools : Tools) (content : Text) where
  scan_text-found :
      (source : FilePath)
      → is_nonempty (scan_text tools.scanners tools.tmp content source) ≡ (
          any (matched tools.scanners tools.tmp custom_patterns) (splitlines content)
          || is_nonempty (tools.scanners.scan_file tools.tmp content))
  unfolding scan_text
  scan_text-found source =
      let relabel : Secret → Secret = λ f. record f { file = source } in
      let a = is_nonempty-map relabel (scan_path tools.scanners tools.tmp (some content) []) in
      let b = scan_path-found tools.scanners tools.tmp content [] in ground arith

  check_passed :
      (gate : ContentGate) (a b : Option Exc)
      → (denied_or a (
            or_refuse (sanitize max_input content) (screened gate.error gate.label) (
              denied_or b (
                refuse_if
                  (scan tools.finditer content gate.source).flagged
                  (screened gate.error gate.label "prompt-injection detected")
                  (refuse_if
                    (is_nonempty
                      (scan_text tools.scanners tools.tmp content (codes gate.source ∷ [])))
                    (screened gate.error gate.label "secret detected")
                    none))))
          ≡ none)
        ↔ ((a ≡ none) × (b ≡ none) × IsAcceptable tools content × HasNoSecret tools content)
  unfolding sanitize
  check_passed gate (some e) b = (λ h. cc, λ h. cc)
  check_passed gate none (some e) = (λ h. ground (arith, h), λ h. cc)
  check_passed gate none none =
      let marks = scan-found tools.finditer content gate.source in
      let secrets = scan_text-found (codes gate.source ∷ []) in
      (
        λ h. (
          refl,
          refl,
          record { fits = ground arith; printable = ground arith; unmarked = ground arith },
          record { undetected = ground arith; unmatched = ground arith },
        ),
        λ h.
            let (_, _, a, s) = h in
            ground (arith, a.fits, a.printable, a.unmarked, s.undetected, s.unmatched),
      )

  denial-Permitted :
      (capability : String) → (denial tools capability ≡ none) ↔ Permitted capability tools.active
  unfolding Capability.check active_capability_gate
  denial-Permitted capability = gate_of tools.active
    where
      gate_of :
          (o : Option CapabilityGate)
          → (Capability.check (active_capability_gate o) capability ≡ none) ↔ Permitted capability o
      gate_of none = (λ h. outside, λ h. refl)
      gate_of (some Capability.null_gate) = (λ h. unrestricted, λ h. refl)
      gate_of (some (Capability.gate allowed)) = elim (Bool-cases (contains allowed capability)) [
        | inl e ↦ (λ h. declared e, λ h. rw e refl)
        | inr e ↦ (λ h. cc (rw e at h), λ h. let d = declared_of capability allowed h in cc)
      ]

  -- The content gate lets a text through exactly if the agent in whose window it is called may use
  -- the sanitizer and the injection scanner, and the text is not too long, has no control characters,
  -- matches no rule of the table, and no scanner finds a secret in it.
  pub check-IsAcceptable :
      (gate : ContentGate)
      → (check tools gate content ≡ none) ↔ (
          Permitted "inputsanitizer" tools.active
          × Permitted "promptinjectionscan" tools.active
          × IsAcceptable tools content
          × HasNoSecret tools content)
  unfolding check
  check-IsAcceptable gate =
      let both =
        check_passed gate (denial tools "inputsanitizer") (denial tools "promptinjectionscan") in
      let first = denial-Permitted "inputsanitizer" in
      let second = denial-Permitted "promptinjectionscan" in
      (
        λ h. let (a, b, c, d) = both.0 h in (first.0 a, second.0 b, c, d),
        λ h. both.1 (first.1 h.0, second.1 h.1, h.2, h.3),
      )

  -- The gate of the transports lets only acceptable inputs in, and only presentable outputs out.
  pub serve_gate-IsPresentable :
      (check_input tools content ≡ none → IsAcceptable tools content)
      × (check_output tools content ≡ none → IsPresentable tools content)
  unfolding check_input check_output sanitize validate_output
  serve_gate-IsPresentable =
      let marks = scan-found tools.finditer content "serve-input" in
      let secrets = scan_text-found (codes "serve-output" ∷ []) in
      (
        λ h. record { fits = ground arith; printable = ground arith; unmarked = ground arith },
        λ h. record {
          filled = ground arith;
          fits = ground arith;
          secretless = record { undetected = ground arith; unmatched = ground arith };
        },
      )
