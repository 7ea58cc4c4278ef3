-- ===== src/Security/Vetted.antt =====
-- security/write_gate.py: what a verdict of the gate says of the files.
use lottie_orchestrator.Prelude.{
  ◌≡◌, refl, ap, ◌∙◌, Option, none, some, Bool, true, false, ◌||◌, ◌&&◌, not, List, [], ◌∷◌, ◌++◌,
  map, keep, any, is_nonempty, arith,
}
use lottie_orchestrator.Prelude.Texts.{Text}
use lottie_orchestrator.Prelude.Walks.{splitlines}
use lottie_orchestrator.Files.{FilePath, Files, read}
use lottie_orchestrator.Security.Secrets.{Secret, Scanners, custom_patterns, scan_paths, scan_path}
use lottie_orchestrator.Security.Clean.{matched, scan_path-found}
use lottie_orchestrator.Exec.{Exc, Result, ok, err}
use lottie_orchestrator.Security.Schema.{ValidateOutput}
use lottie_orchestrator.Security.Writes.{
  Checkers, Issue, Finding, is_python, gathered, unless_denied, scan_secrets, scan_code, validate,
  judged,
}

-- whether a scanner finds a secret in the file at a path
abbrev pub has_secret : Scanners → FilePath → Option Text → Bool
has_secret tools raw none = false
has_secret tools raw (some content) =
    any (matched tools raw custom_patterns) (splitlines content)
    || is_nonempty (tools.scan_file raw content)

module _ (tools : Scanners) where
  is_nonempty-scan_path :
      (raw : FilePath) (content : Option Text) (found : List Secret)
      → is_nonempty (scan_path tools raw content found)
        ≡ (has_secret tools raw content || is_nonempty found)
  unfolding scan_path
  is_nonempty-scan_path raw none found = refl
  is_nonempty-scan_path raw (some content) found = scan_path-found tools raw content found

  is_nonempty-scan_paths :
      (paths : List FilePath) (fs : Files) (found : List Secret)
      → is_nonempty (scan_paths tools paths fs found)
        ≡ (any (λ p. has_secret tools p (read p fs)) paths || is_nonempty found)
  unfolding scan_paths
  is_nonempty-scan_paths [] fs found = refl
  is_nonempty-scan_paths (p ∷ paths) fs found =
      let found' = scan_path tools p (read p fs) found in
      let rec = is_nonempty-scan_paths paths fs found' in
      let here = is_nonempty-scan_path p (read p fs) found in ground arith

no_findings :
    (secrets : List Secret) (issues : List Issue) (b : Bool)
    → (not (is_nonempty (map Finding.secret secrets ++ map Finding.issue issues)) && b) ≡ true
    → (is_nonempty secrets ≡ false) × (issues ≡ []) × (b ≡ true)
no_findings [] [] b h = (refl, refl, h)
no_findings [] (i ∷ issues) b h = cc
no_findings (s ∷ secrets) issues b h = cc

module _ (tools : Checkers) where
  -- no scanner and no checker finds anything in files
  pub record IsVetted (paths : List FilePath) (fs : Files) : Type 0 where
    pub secretless : any (λ p. has_secret tools.scanners p (read p fs)) paths ≡ false
    pub silent : scan_code tools (keep (is_python fs) paths) fs ≡ ok []
    pub verdict : ValidateOutput
    pub validated : validate tools (keep (is_python fs) paths) fs ≡ ok verdict
    pub valid : verdict.passed ≡ true

  run_skill-ok :
      {A : Type 0} (o : Option Exc) (r : Result Exc A) (a : A)
      → unless_denied tools o r ≡ ok a
      → r ≡ ok a
  run_skill-ok none r a h = h
  run_skill-ok (some e) r a h = cc

  gathered-IsVetted :
      (paths : List FilePath) (fs : Files) (secrets : Result Exc (List Secret))
      (issues : Result Exc (List Issue)) (validation : Result Exc ValidateOutput)
      (findings : List Finding) (v : ValidateOutput)
      → ((x : List Secret) → secrets ≡ ok x → scan_paths tools.scanners paths fs [] ≡ x)
      → ((x : List Issue) → issues ≡ ok x → scan_code tools (keep (is_python fs) paths) fs ≡ ok x)
      → ((x : ValidateOutput)
          → validation ≡ ok x
          → validate tools (keep (is_python fs) paths) fs ≡ ok x)
      → gathered secrets issues validation ≡ ok (findings, v)
      → (not (is_nonempty findings) && v.passed) ≡ true
      → IsVetted paths fs
  gathered-IsVetted paths fs (err e) issues validation findings v a b c h k = cc
  gathered-IsVetted paths fs (ok secrets) (err e) validation findings v a b c h k = cc
  gathered-IsVetted paths fs (ok secrets) (ok issues) (err e) findings v a b c h k = cc
  gathered-IsVetted paths fs (ok secrets) (ok issues) (ok x) findings v a b c h k =
      let same : map Finding.secret secrets ++ map Finding.issue issues ≡ findings = cc in
      let output : x ≡ v = cc in
      let k' : (not (is_nonempty (map Finding.secret secrets ++ map Finding.issue issues))
            && v.passed)
          ≡ true =
        ap (λ y. not (is_nonempty y) && v.passed) same ∙ k in
      let (clean, none_found, valid) = no_findings secrets issues v.passed k' in
      let found = is_nonempty-scan_paths tools.scanners paths fs [] in
      let all = ap is_nonempty (a secrets refl) in
      record {
        secretless = ground (arith, found, all, clean);
        silent = b issues refl ∙ ap (λ y. ok y) none_found;
        verdict = v;
        validated = c x refl ∙ ap (λ y. ok y) output;
        valid = valid;
      }

  scan_secrets-ok :
      (paths : List FilePath) (fs : Files) (x : List Secret)
      → scan_secrets tools paths fs ≡ ok x
      → scan_paths tools.scanners paths fs [] ≡ x
  unfolding scan_secrets
  scan_secrets-ok paths fs x h = let e = run_skill-ok (tools.scan_raises paths fs) _ x h in cc

  pub judged-IsVetted :
      (paths : List FilePath) (fs : Files) (findings : List Finding) (v : ValidateOutput)
      → judged tools paths fs ≡ ok (findings, v)
      → (not (is_nonempty findings) && v.passed) ≡ true
      → IsVetted paths fs
  judged-IsVetted paths fs findings v h k =
      gathered-IsVetted paths fs _ _ _ findings v
        (λ x e. scan_secrets-ok paths fs x (run_skill-ok _ _ x e)) (λ x e. run_skill-ok _ _ x e)
        (λ x e. run_skill-ok _ _ x e) h k
