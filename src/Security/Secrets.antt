-- ===== src/Security/Secrets.antt =====
-- security/secret_detector.py, `SecretDetectionSkill`. What detect-secrets finds in a file and the
-- search of a regular expression are parameters.
use lottie_orchestrator.Prelude.{
  ℕ, ◌+◌, String, Option, none, some, Bool, ◌&&◌, List, [], ◌∷◌, ◌++◌, map, ◌==◌, any, str_eq,
  if◌then◌else◌,
}
use lottie_orchestrator.Prelude.Texts.{Text}
use lottie_orchestrator.Prelude.Walks.{splitlines}
use lottie_orchestrator.Files.{FilePath, Files, path_eq, read}

-- a finding of this scanner: the file, the line and the kind
pub record Secret : Type 0 where
  pub file : FilePath
  pub line : ℕ
  pub kind : String

-- `_CUSTOM_PATTERNS`
abbrev pub custom_patterns : List (String × String)
custom_patterns =
    ("PrivateKey", "-----BEGIN (?:RSA |EC |OPENSSH )?PRIVATE KEY-----")
    ∷ ("AWSAccessKey", "AKIA[0-9A-Z]{16}")
    ∷ []

-- What the scanner calls: `collection.scan_file`, with the line and type of each secret, and
-- `pattern.search`.
pub record Scanners : Type 0 where
  pub scan_file : FilePath → Text → List (ℕ × String)
  pub search : String → Text → Bool

-- `key in seen`; the keys are those of the findings so far
abbrev pub seen : Secret → List Secret → Bool
seen k findings =
    any (λ f. path_eq f.file k.file && (f.line == k.line && str_eq f.kind k.kind)) findings

-- `seen.add(key)` and `findings.append(...)`, or `continue`
unfoldable pub note_secret : Secret → List Secret → List Secret
note_secret k findings = if seen k findings then findings else findings ++ k ∷ []

module _ (tools : Scanners) (raw : FilePath) where
  -- `_scan_detect_secrets`
  unfoldable pub scan_detected : List (ℕ × String) → List Secret → List Secret
  unfolding note_secret
  scan_detected [] findings = findings
  scan_detected ((line, kind) ∷ secrets) findings =
      scan_detected secrets (note_secret (record { file = raw; line = line; kind = kind }) findings)

  -- the inner loop of `_scan_custom`
  unfoldable pub scan_line : List (String × String) → ℕ → Text → List Secret → List Secret
  unfolding note_secret
  scan_line [] lineno line findings = findings
  scan_line ((kind, pattern) ∷ patterns) lineno line findings = scan_line patterns lineno line (
      if tools.search pattern line
      then note_secret (record { file = raw; line = lineno; kind = kind }) findings
      else findings)

  -- `_scan_custom`, from a line on
  unfoldable pub scan_custom : ℕ → List Text → List Secret → List Secret
  unfolding scan_line
  scan_custom lineno [] findings = findings
  scan_custom lineno (line ∷ lines) findings =
      scan_custom (lineno + 1) lines (scan_line custom_patterns lineno line findings)

module _ (tools : Scanners) where
  -- one round of the loop of `_execute`; none is a path that is no file
  unfoldable pub scan_path : FilePath → Option Text → List Secret → List Secret
  unfolding scan_detected scan_custom
  scan_path raw none findings = findings
  scan_path raw (some content) findings =
      scan_custom tools raw 1 (splitlines content)
        (scan_detected tools raw (tools.scan_file raw content) findings)

  -- `_execute`
  unfoldable pub scan_paths : List FilePath → Files → List Secret → List Secret
  unfolding scan_path
  scan_paths [] files findings = findings
  scan_paths (raw ∷ paths) files findings =
      scan_paths paths files (scan_path raw (read raw files) findings)

  -- `scan_text`, on a temporary file
  unfoldable pub scan_text : FilePath → Text → FilePath → List Secret
  unfolding scan_path
  scan_text tmp content source =
      map {A = Secret} (λ f. record f { file = source }) (scan_path tmp (some content) [])
