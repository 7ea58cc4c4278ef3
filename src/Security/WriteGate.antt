-- ===== src/Security/WriteGate.antt =====
-- security/write_gate.py: a refused write leaves nothing, and an admitted one is clean.
use lottie_orchestrator.Prelude.{
  All, ◌≡◌, Option, none, some, true, false, List, [], ◌∷◌, if◌then◌else◌,
}
use lottie_orchestrator.Prelude.Texts.{Text}
use lottie_orchestrator.Files.{FilePath, Files, is_under, read, path_eq}
use lottie_orchestrator.Exec.{Exc, Result, ok, err, Exec}
use lottie_orchestrator.Security.Vetted.{IsVetted}
use lottie_orchestrator.Security.Paths.{located}
use lottie_orchestrator.Security.Writes.{Checkers, GateResult, written}

-- each file that is given is named below the target
abbrev pub IsBelow : FilePath → List (FilePath × Text) → Type 0
IsBelow target files = All (λ f. is_under target (located target f.0) ≡ true) files

-- the text of the last of the files that are written at a path, if any is
abbrev pub last_written : FilePath → FilePath → List (FilePath × Text) → Option Text → Option Text
last_written target q [] before = before
last_written target q ((relpath, content) ∷ files) before =
    last_written target q files
      (if path_eq (located target relpath) q then some content else before)

module _ (tools : Checkers) where
  -- What the gate leaves at each path. Admitted: the files as they were given, in which no scanner
  -- and no checker finds anything. Refused: nothing below the target, and all else as before. Where
  -- a write or a scanner raised: all outside of the target as before.
  pub data Gated (target : FilePath) (files : List (FilePath × Text)) (before : Files)
      : Result Exc GateResult × Files → Type 0 where
    admitted :
        {g : GateResult} {after : Files}
        → g.passed ≡ true
        → ((q : FilePath) → read q after ≡ last_written target q files (read q before))
        → IsVetted tools (written target files) after
        → Gated target files before (ok g, after)
    refused :
        {g : GateResult} {after : Files}
        → g.passed ≡ false
        → ((q : FilePath) → read q after ≡ (if is_under target q then none else read q before))
        → Gated target files before (ok g, after)
    raised :
        {exc : Exc} {after : Files}
        → ((q : FilePath) → is_under target q ≡ false → read q after ≡ read q before)
        → Gated target files before (err exc, after)
