-- ===== src/Session/Tests.antt =====
-- A store with a toy JSON, that can read one state only.
use lottie_orchestrator.Prelude.{
  false, ◌++◌, if◌then◌else◌, ℕ, ◌≡◌, refl, String, Option, none, some, Bool, true, List, [], ◌∷◌,
  ltb,
}
use lottie_orchestrator.Prelude.Texts.{Text, codes}
use lottie_orchestrator.Prelude.Walks.{text_eq}
use lottie_orchestrator.Exec.{raised, ok, err}
use lottie_orchestrator.Security.Clean.{IsAcceptable, HasNoSecret}
use lottie_orchestrator.Files.{FilePath, Files}
use lottie_orchestrator.Security.Screens.{Tools}
use lottie_orchestrator.Session.Store.{SessionState, Codec, matches_id, load}
use lottie_orchestrator.Session.Confinement.{
  Command, saving, deleting, perform, Confined, perform-Confined,
}
use lottie_orchestrator.Session.Refinement.{
  Sessions, load_valid, Refines, specify_all, perform_all-Refines,
}
use lottie_orchestrator.Session.Screened.{loaded-IsAcceptable}

-- The id may end with a newline, as `$` allows.
id_with_newline : matches_id (codes "a\n") ≡ true
unfolding matches_id
id_with_newline = refl

abbrev tools : Tools
tools = record {
  finditer = λ r t. [];
  scanners = record { scan_file = λ path content. []; search = λ pattern line. false };
  tmp = codes "t" ∷ [];
  active = none;
}

abbrev base : FilePath
base = codes ".lottie" ∷ codes "sessions" ∷ []

-- a state with one note, saved at time 5
abbrev draft : SessionState Text
draft = record {
  session_id = codes "a1";
  agent = "writer";
  created_at = 3;
  updated_at = 5;
  progress = (codes "step", codes "two") ∷ [];
  runs = [];
}

-- the only text that can be read is the one that is written for `draft`
abbrev codec : Codec Text
codec = record {
  dump = λ s. codes "{}";
  dump_indented = λ s. codes "{}";
  validate = λ t. if text_eq t (codes "{}") then ok draft else err (raised "ValidationError" "");
  str = λ v. v;
}

abbrev escape : SessionState Text
escape = record draft { session_id = codes "../a" }

abbrev empty_map : Sessions Text
empty_map id = none

abbrev calls : List (Command Text)
calls = saving draft 5 ∷ deleting (codes "b") ∷ []

abbrev files : Files
files = (base ++ codes "a1" ∷ codes "state.json" ∷ [], codes "{}") ∷ []

perform-Confined_example : Confined base (codes "../a") files files
unfolding perform lottie_orchestrator.Prelude.Sort.sort_by
    lottie_orchestrator.Security.Markers.rules lottie_orchestrator.Prelude.Walks.splitlines
perform-Confined_example = perform-Confined codec tools base (saving escape 5) files

nothing_stored : Refines codec tools base [] empty_map
unfolding lottie_orchestrator.Files.read
nothing_stored id v = load_valid codec tools base id [] v

perform_all-Refines_example :
    Refines codec tools base files (specify_all codec tools base calls empty_map)
unfolding perform lottie_orchestrator.Files.is_dir lottie_orchestrator.Prelude.Sort.sort_by
    lottie_orchestrator.Security.Markers.rules lottie_orchestrator.Prelude.Walks.splitlines
    lottie_orchestrator.Files.write
perform_all-Refines_example =
    perform_all-Refines codec tools base calls [] empty_map (refl, (tt, tt)) nothing_stored

loaded-IsAcceptable_example : IsAcceptable tools (codes "two") × HasNoSecret tools (codes "two")
unfolding matches_id load lottie_orchestrator.Files.read perform lottie_orchestrator.Files.is_dir
    lottie_orchestrator.Prelude.Sort.sort_by lottie_orchestrator.Security.Markers.rules
    lottie_orchestrator.Prelude.Walks.splitlines lottie_orchestrator.Files.write
loaded-IsAcceptable_example =
    loaded-IsAcceptable codec tools base calls (codes "a1") draft (refl, (tt, tt)) refl refl
