-- ===== src/Files.antt =====
-- A file system as the code uses it: paths to contents. A path is its segments, and a directory is
-- there while a file is below it.
use lottie_orchestrator.Prelude.{
  ℕ, Option, none, some, Bool, true, false, not, ◌&&◌, List, [], ◌∷◌, keep, any, if◌then◌else◌,
}
use lottie_orchestrator.Prelude.Texts.{Text}
use lottie_orchestrator.Prelude.Walks.{text_eq}
pub mod Laws

abbrev pub FilePath : Type 0
FilePath = List Text

abbrev pub Files : Type 0
Files = List (FilePath × Text)

abbrev pub path_eq : FilePath → FilePath → Bool
path_eq [] [] = true
path_eq [] (d ∷ t) = false
path_eq (c ∷ s) [] = false
path_eq (c ∷ s) (d ∷ t) = text_eq c d && path_eq s t

-- whether the second path is the first one or below it
abbrev pub is_under : FilePath → FilePath → Bool
is_under [] path = true
is_under (d ∷ dir) [] = false
is_under (d ∷ dir) (p ∷ path) = text_eq d p && is_under dir path

-- `path.read_text()`, none if `path.is_file()` is false
unfoldable pub read : FilePath → Files → Option Text
read path [] = none
read path ((q, content) ∷ files) =
    let rest = read path files in if path_eq q path then some content else rest

-- `path.write_text(content)`, with the directories that it needs
unfoldable pub write : FilePath → Text → Files → Files
write path content [] = (path, content) ∷ []
write path content ((q, old) ∷ files) =
    let rest = write path content files in
    if path_eq q path then (path, content) ∷ files else (q, old) ∷ rest

-- `shutil.rmtree(dir)`
unfoldable pub rmtree : FilePath → Files → Files
rmtree dir files = keep (λ f. not (is_under dir f.0)) files

-- `dir.is_dir()`
unfoldable pub is_dir : FilePath → Files → Bool
is_dir dir files = any (λ f. is_under dir f.0 && not (path_eq dir f.0)) files
