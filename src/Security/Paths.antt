-- ===== src/Security/Paths.antt =====
-- security/write_gate.py: the file that a path relative to a target names. Links are not modelled.
use lottie_orchestrator.Prelude.{[], ◌∷◌, ◌++◌, last_or, if◌then◌else◌}
use lottie_orchestrator.Prelude.Texts.{codes}
use lottie_orchestrator.Prelude.Walks.{text_eq}
use lottie_orchestrator.Files.{FilePath}

abbrev pub without_last : FilePath → FilePath
without_last [] = []
without_last (d ∷ []) = []
without_last (d ∷ e ∷ path) = d ∷ without_last (e ∷ path)

-- `..` from a path; that of the root is the root
abbrev pub parent : FilePath → FilePath
parent path = if text_eq (last_or [] path) (codes "/") then path else without_last path

abbrev pub normal : FilePath → FilePath → FilePath
normal done [] = done
normal done (d ∷ path) =
    let up = normal (parent done) path in
    let down = normal (done ++ d ∷ []) path in if text_eq d (codes "..") then up else down

-- `target / relpath`: an absolute path, whose first part is `/`, takes the place of the target
abbrev pub joined : FilePath → FilePath → FilePath
joined target [] = target
joined target (d ∷ relpath) = if text_eq d (codes "/") then d ∷ relpath else target ++ d ∷ relpath

-- the file that `target / relpath` names, as `resolve` gives it where there are no links
unfoldable pub located : FilePath → FilePath → FilePath
located target relpath = normal [] (joined target relpath)
