-- ===== src/Security/Tests.antt =====
-- A toy engine, in which one rule matches each exclamation mark, and a scanner that finds nothing.
use lottie_orchestrator.Prelude.{
  ◌++◌, ℕ, ◌+◌, ◌≡◌, refl, ◌↔◌, String, none, some, Bool, true, false, List, [], ◌∷◌, ◌==◌, All,
  arith, Bool-cases, inl, inr, str_eq, if◌then◌else◌,
}
use lottie_orchestrator.Prelude.Texts.{Text, codes}
use lottie_orchestrator.Prelude.Walks.{splitlines}
use lottie_orchestrator.Exec.{capability_denied, raised, ok, err}
use lottie_orchestrator.Governance.Capability.{gate}
use lottie_orchestrator.Files.{FilePath, Files}
use lottie_orchestrator.Security.Markers.{Rule}
use lottie_orchestrator.Security.Injection.{Span, scan}
use lottie_orchestrator.Security.Spans.{IsForward}
use lottie_orchestrator.Security.Redaction.{Redacted, scan-Redacted}
use lottie_orchestrator.Security.Secrets.{Scanners}
use lottie_orchestrator.Security.Screens.{Tools, memory_gate, check}
use lottie_orchestrator.Security.Clean.{IsAcceptable, Permitted, HasNoSecret, check-IsAcceptable}
use lottie_orchestrator.Security.Paths.{located}
use lottie_orchestrator.Security.Writes.{Checkers, Process, guard_and_write}

splitlines_cases : splitlines (97 ∷ 13 ∷ 10 ∷ 10 ∷ 98 ∷ 11 ∷ []) ≡ (97 ∷ []) ∷ [] ∷ (98 ∷ []) ∷ []
unfolding splitlines
splitlines_cases = refl

abbrev bangs : ℕ → Text → List Span
bangs i [] = []
bangs i (c ∷ t) =
    let rest = bangs (i + 1) t in
    let here : Span = record { start = i; «end» = i + 1 } in if c == b'!' then here ∷ rest else rest

bangs-IsForward : (i : ℕ) (t : Text) → All IsForward (bangs i t)
bangs-IsForward i [] = tt
bangs-IsForward i (c ∷ t) = elim (Bool-cases (c == b'!')) [
  | inl e ↦ rw e (omega arith, bangs-IsForward (i + 1) t)
  | inr e ↦ rw e (bangs-IsForward (i + 1) t)
]

abbrev engine : Rule → Text → List Span
engine r t = if str_eq r.label "exfiltration/exfiltrate" then bangs 0 t else []

engine-IsForward : (t : Text) (r : Rule) → All IsForward (engine r t)
engine-IsForward t r = elim (Bool-cases (str_eq r.label "exfiltration/exfiltrate")) [
  | inl e ↦ rw e (bangs-IsForward 0 t)
  | inr e ↦ rw e tt
]

scan-Redacted_example : Redacted engine (codes "go! now") true (codes "go[REDACTED:INJECTION] now")
unfolding scan lottie_orchestrator.Prelude.Sort.sort_by lottie_orchestrator.Security.Markers.rules
scan-Redacted_example =
    scan-Redacted engine (codes "go! now") "note" (engine-IsForward (codes "go! now"))

abbrev silent : Scanners
silent = record { scan_file = λ path content. []; search = λ pattern line. false }

abbrev tools : Tools
tools = record { finditer = engine; scanners = silent; tmp = codes "t" ∷ []; active = none }

check-IsAcceptable_example : (check tools memory_gate (codes "go on") ≡ none) ↔ (
    Permitted "inputsanitizer" tools.active
    × Permitted "promptinjectionscan" tools.active
    × IsAcceptable tools (codes "go on")
    × HasNoSecret tools (codes "go on"))
check-IsAcceptable_example = check-IsAcceptable tools (codes "go on") memory_gate

-- In the window of an agent that declares one skill, a clean text is refused.
undeclared_refused :
    check (record tools { active = some (gate ("retrieval" ∷ [])) }) memory_gate (codes "go on")
    ≡ some (capability_denied "inputsanitizer")
unfolding check
undeclared_refused = refl

abbrev failing : Process
failing = record { returncode = 1; stdout = codes "x: error"; stderr = [] }

abbrev passing : Process
passing = record { returncode = 0; stdout = []; stderr = [] }

abbrev checkers : Checkers
checkers = record {
  failure = λ path content fs. none;
  scanners = silent;
  scan_raises = λ paths fs. none;
  bandit = λ paths fs. ok passing;
  mypy = λ paths fs. ok failing;
  ruff = λ paths fs. ok passing;
  parse_report = λ report. ok none;
  active = none;
}

abbrev project : Files
project = (codes "p" ∷ codes "a.py" ∷ [], codes "1") ∷ []

abbrev generated : List (FilePath × Text)
generated =
    (codes "b.py" ∷ [], codes "2") ∷ (codes "c" ∷ codes ".." ∷ codes "d" ∷ [], codes "3") ∷ []

-- a refusal removes what was written
refused_write : guard_and_write checkers (codes "q" ∷ []) generated [] project ≡ (
  ok (record { passed = false; findings = []; diagnostics = codes "x: error"; files_written = [] }),
  project,
)
unfolding guard_and_write lottie_orchestrator.Files.read splitlines
    lottie_orchestrator.Prelude.Walks.strip lottie_orchestrator.Files.rmtree
refused_write = refl

abbrev full : Checkers
full = record checkers { bandit = λ paths fs. err (raised "OSError" "no space left") }

-- an exception of a scanner leaves the files
abandoned_write : guard_and_write full (codes "q" ∷ []) generated [] project ≡ (
  err (raised "OSError" "no space left"),
  project
      ++ ((codes "q" ∷ codes "b.py" ∷ [], codes "2")
          ∷ (codes "q" ∷ codes "d" ∷ [], codes "3")
          ∷ []),
)
unfolding guard_and_write lottie_orchestrator.Files.read
abandoned_write = refl

-- a path with two dots, and an absolute one, lead out of the target
escaping_paths :
    (located (codes "q" ∷ []) (codes ".." ∷ codes "x" ∷ []) ≡ codes "x" ∷ [])
    × (located (codes "q" ∷ []) (codes "/" ∷ codes "x" ∷ []) ≡ codes "/" ∷ codes "x" ∷ [])
unfolding located
escaping_paths = (refl, refl)
