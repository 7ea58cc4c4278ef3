-- ===== src/Security/Writes.antt =====
-- security/write_gate.py, validator.py and code_scanner.py: generated files are written, scanned, and
-- removed again on any finding. Writes, scanners and subprocesses are parameters that may raise.
use lottie_orchestrator.Prelude.{
  String, ℕ, ◌-◌, Option, none, some, Bool, true, false, not, ◌&&◌, List, [], ◌∷◌, ◌++◌, map, ◌==◌,
  ltb, keep, drop, length, last_or, is_nonempty, if◌then◌else◌,
}
use lottie_orchestrator.Prelude.Texts.{Text, codes}
use lottie_orchestrator.Prelude.Walks.{strip, text_eq}
use lottie_orchestrator.Exec.{Exc, Result, ok, err, Exec}
use lottie_orchestrator.Governance.Capability
use lottie_orchestrator.Governance.Capability.{CapabilityGate, active_capability_gate}
use lottie_orchestrator.Files.{FilePath, Files, read, write, rmtree}
use lottie_orchestrator.Security.Paths.{located}
use lottie_orchestrator.Security.Schema.{ValidateOutput}
use lottie_orchestrator.Security.Secrets.{Secret, Scanners, scan_paths}

-- one issue that bandit reports
pub record Issue : Type 0 where
  pub file : Text
  pub line : ℕ
  pub kind : Text
  pub message : Text

-- `proc.returncode`, `stdout` and `stderr`
pub record Process : Type 0 where
  pub returncode : ℕ
  pub stdout : Text
  pub stderr : Text

-- How creating the directories of a file or writing it fails: with an exception, and with a text that
-- the file is left with, if it was opened.
pub record Failure : Type 0 where
  pub exc : Exc
  pub left : Option Text

-- What the gate calls: a write, if it fails; the scanners, and what reading the files raises; the
-- subprocesses on paths, in a file system; the reading of a report of bandit, which is none where it
-- raises one of the three exceptions that are caught; and the capability gate of the agent in whose
-- window the gate is called, if any.
pub record Checkers : Type 0 where
  pub failure : FilePath → Text → Files → Option Failure
  pub scanners : Scanners
  pub scan_raises : List FilePath → Files → Option Exc
  pub bandit : List FilePath → Files → Result Exc Process
  pub mypy : List FilePath → Files → Result Exc Process
  pub ruff : List FilePath → Files → Result Exc Process
  pub parse_report : Text → Result Exc (Option (List Issue))
  pub active : Option CapabilityGate

-- a finding of the gate, of either scanner
pub data Finding : Type 0 where
  secret : Secret → Finding
  issue : Issue → Finding

pub record GateResult : Type 0 where
  pub passed : Bool
  pub findings : List Finding
  pub diagnostics : Text
  pub files_written : List FilePath

-- `path.suffix == ".py"`, for the name of a file
unfoldable pub is_python_name : Text → Bool
is_python_name name = ltb 3 (length name) && text_eq (drop (length name - 3) name) (codes ".py")

abbrev pub size : Option Text → ℕ
size none = 0
size (some content) = length content

-- `p.suffix == ".py" and p.stat().st_size > 0`
unfoldable pub is_python : Files → FilePath → Bool
unfolding is_python_name
is_python files path = is_python_name (last_or [] path) && ltb 0 (size (read path files))

abbrev pub leave : FilePath → Option Text → Files → Files
leave path none fs = fs
leave path (some text) fs = write path text fs

abbrev pub after_write :
    Option Failure → FilePath → Text → Exec Exc Files (Unit {0}) → Exec Exc Files (Unit {0})
after_write (some f) path content next fs = (err f.exc, leave path f.left fs)
after_write none path content next fs = next (write path content fs)

abbrev pub written : FilePath → List (FilePath × Text) → List FilePath
written target files = map (λ f. located target f.0) files

-- `path.relative_to(root)`, or the path
unfoldable pub rel : FilePath → FilePath → FilePath → FilePath
rel whole [] path = path
rel whole (r ∷ root) [] = whole
rel whole (r ∷ root) (p ∷ path) =
    let rest = rel whole root path in if text_eq r p then rest else whole

-- the three results, in the order in which they are computed, or the first exception
abbrev pub gathered :
    Result Exc (List Secret)
    → Result Exc (List Issue)
    → Result Exc ValidateOutput
    → Result Exc (List Finding × ValidateOutput)
gathered (err e) issues v = err e
gathered (ok secrets) (err e) v = err e
gathered (ok secrets) (ok issues) (err e) = err e
gathered (ok secrets) (ok issues) (ok v) = ok (map secret secrets ++ map issue issues, v)

module _ (tools : Checkers) where
  -- the loop that writes
  unfoldable pub write_all : FilePath → List (FilePath × Text) → Exec Exc Files (Unit {0})
  unfolding located write
  write_all target [] fs = (ok tt, fs)
  write_all target ((relpath, content) ∷ files) fs =
      let path = located target relpath in
      after_write (tools.failure path content fs) path content (write_all target files) fs

  abbrev pub unless_denied : {A : Type 0} → Option Exc → Result Exc A → Result Exc A
  unless_denied (some exc) r = err exc
  unless_denied none r = r

  -- `BaseSkill.run`: the check of the skill's capability, then what it does
  abbrev pub run_skill : {A : Type 0} → String → Result Exc A → Result Exc A
  run_skill capability r =
      unless_denied (Capability.check (active_capability_gate tools.active) capability) r

  -- `SecretDetectionSkill._execute`
  unfoldable pub scan_secrets : List FilePath → Files → Result Exc (List Secret)
  unfolding scan_paths
  scan_secrets paths fs =
      unless_denied (tools.scan_raises paths fs) (ok (scan_paths tools.scanners paths fs []))

  abbrev pub issues_or_none : Result Exc (Option (List Issue)) → Result Exc (List Issue)
  issues_or_none (err e) = err e
  issues_or_none (ok none) = ok []
  issues_or_none (ok (some issues)) = ok issues

  abbrev pub reported : Result Exc Process → Result Exc (List Issue)
  reported (err e) = err e
  reported (ok p) = issues_or_none (tools.parse_report p.stdout)

  -- `CodeSecurityScanSkill._execute`
  unfoldable pub scan_code : List FilePath → Files → Result Exc (List Issue)
  scan_code [] fs = ok []
  scan_code (path ∷ paths) fs = reported (tools.bandit (path ∷ paths) fs)

  abbrev pub both_passed : Result Exc Process → Result Exc Process → Result Exc ValidateOutput
  both_passed (err e) ruff = err e
  both_passed (ok mypy) (err e) = err e
  both_passed (ok mypy) (ok ruff) = ok (record {
    passed = mypy.returncode == 0 && ruff.returncode == 0;
    diagnostics = strip (mypy.stdout ++ (mypy.stderr ++ (ruff.stdout ++ ruff.stderr)));
  })

  -- `SchemaValidatorSkill._execute`
  unfoldable pub validate : List FilePath → Files → Result Exc ValidateOutput
  validate [] fs = ok (record { passed = true; diagnostics = [] })
  validate (path ∷ paths) fs =
      both_passed (tools.mypy (path ∷ paths) fs) (tools.ruff (path ∷ paths) fs)

  -- the verdict and the file system after it; `rmtree` is taken to remove all that it should
  abbrev pub decided :
      FilePath
      → FilePath
      → List FilePath
      → List Finding
      → ValidateOutput
      → Bool
      → Exec Exc Files GateResult
  decided target root paths findings v true fs = (
    ok (record {
      passed = true;
      findings = [];
      diagnostics = v.diagnostics;
      files_written = map (λ p. rel p root p) paths;
    }),
    fs,
  )
  decided target root paths findings v false fs = (
    ok (record {
      passed = false;
      findings = findings;
      diagnostics = v.diagnostics;
      files_written = [];
    }),
    rmtree target fs,
  )

  abbrev pub concluded :
      FilePath
      → FilePath
      → List FilePath
      → Result Exc (List Finding × ValidateOutput)
      → Exec Exc Files GateResult
  concluded target root paths (err e) fs = (err e, fs)
  concluded target root paths (ok (findings, v)) fs =
      decided target root paths findings v (not (is_nonempty findings) && v.passed) fs

  -- all three scans of the files that were written
  abbrev pub judged : List FilePath → Files → Result Exc (List Finding × ValidateOutput)
  judged paths fs =
      let python = keep (is_python fs) paths in
      gathered (run_skill "secretdetection" (scan_secrets paths fs))
        (run_skill "codesecurityscan" (scan_code python fs))
        (run_skill "schemavalidator" (validate python fs))

  abbrev pub after_writes :
      FilePath
      → FilePath
      → List FilePath
      → Result Exc (Unit {0}) × Files
      → Result Exc GateResult × Files
  after_writes target root paths (err e, fs) = (err e, fs)
  after_writes target root paths (ok _, fs) = concluded target root paths (judged paths fs) fs

  -- `guard_and_write`
  unfoldable pub guard_and_write :
      FilePath → List (FilePath × Text) → FilePath → Exec Exc Files GateResult
  unfolding write_all is_python scan_secrets scan_code validate Capability.check
      active_capability_gate
  guard_and_write target files root fs =
      after_writes target root (written target files) (write_all target files fs)
