-- ===== src/Session/Store.antt =====
-- session/schema.py and session/store.py: session states in files. Reading and writing of JSON, and
-- `str` of a value, are parameters; the time that an operation reads is its argument.
use lottie_orchestrator.Prelude.{
  ℕ, String, Option, none, some, Bool, true, false, ◌&&◌, ◌||◌, List, [], ◌∷◌, ◌++◌, map, ◌==◌, leb,
  all, length, if◌then◌else◌,
}
use lottie_orchestrator.Prelude.Sort.{sort_by}
use lottie_orchestrator.Prelude.Texts.{Text, codes, text_leb}
use lottie_orchestrator.Prelude.Walks.{text_eq}
use lottie_orchestrator.Exec.{Exc, raised, Result, ok, err, Exec}
use lottie_orchestrator.Files.{FilePath, Files, read, write, rmtree, is_dir}
use lottie_orchestrator.Security.Screens.{Tools, ContentGate, check}

pub record SessionRun : Type 0 where
  pub ts : ℕ
  pub status : String
  pub input_sha256 : Option Text
  pub latency_ms : ℕ
  pub input_tokens : ℕ
  pub output_tokens : ℕ
  pub cost_usd : ℕ
  pub error : Option String

-- `V` is the type of a value of `progress`.
pub record SessionState (V : Type 0) : Type 0 where
  pub session_id : Text
  pub agent : String
  pub created_at : ℕ
  pub updated_at : ℕ
  pub progress : List (Text × V)
  pub runs : List SessionRun

-- `model_dump_json`, also with `indent=2`, `model_validate_json`, and `str`
pub record Codec (V : Type 0) : Type 0 where
  pub dump : SessionState V → Text
  pub dump_indented : SessionState V → Text
  pub validate : Text → Result Exc (SessionState V)
  pub str : V → Text

unfoldable pub is_alnum : ℕ → Bool
is_alnum c = (leb b'A' c && leb c b'Z') || (leb b'a' c && leb c b'z') || (leb b'0' c && leb c b'9')

unfoldable pub is_id_char : ℕ → Bool
unfolding is_alnum
is_id_char c = is_alnum c || (c == b'_' || c == b'-')

-- A newline that ends the text, at which `$` matches too, is dropped.
unfoldable pub before_newline : Text → Text
before_newline [] = []
before_newline (c ∷ s) =
    let rest = before_newline s in if c == 10 && text_eq s [] then [] else c ∷ rest

abbrev is_id : Text → Bool
is_id [] = false
is_id (c ∷ s) = is_alnum c && (all is_id_char s && leb (length s) 63)

-- `_ID_RE.match`
unfoldable pub matches_id : Text → Bool
unfolding is_alnum is_id_char before_newline
matches_id s = is_id (before_newline s)

-- `safe_session_id`; the message is given without the id
unfoldable pub safe_session_id : Text → Result Exc Text
unfolding matches_id
safe_session_id s =
    if matches_id s
    then ok s
    else err (raised "InvalidSessionId" "must match ^[A-Za-z0-9][A-Za-z0-9_-]{0,63}$")

-- `session_gate`
abbrev pub session_gate : ContentGate
session_gate = record {
  source = "session-write";
  error = "SessionRejected";
  label = "session write";
}

-- `"\n".join(texts)`
abbrev pub join_lines : List Text → Text
join_lines [] = []
join_lines (t ∷ []) = t
join_lines (t ∷ u ∷ ts) = t ++ 10 ∷ join_lines (u ∷ ts)

-- `record_run`
unfoldable pub record_run : {V : Type 0} → SessionState V → SessionRun → SessionState V
record_run state run = record state { runs = state.runs ++ run ∷ [] }

module _ {V : Type 0} (codec : Codec V) (tools : Tools) (base : FilePath) where
  abbrev pub session_dir : Text → FilePath
  session_dir id = base ++ id ∷ []

  abbrev pub state_file : Text → FilePath
  state_file id = base ++ id ∷ codes "state.json" ∷ []

  abbrev pub located : Result Exc Text → Result Exc FilePath
  located (ok id) = ok (state_file id)
  located (err e) = err e

  -- `path`
  unfoldable pub path : Text → Result Exc FilePath
  unfolding safe_session_id
  path session_id = located (safe_session_id session_id)

  abbrev pub present : Result Exc (SessionState V) → Result Exc (Option (SessionState V))
  present (ok state) = ok (some state)
  present (err e) = err e

  abbrev pub validated : Option Text → Result Exc (Option (SessionState V))
  validated none = ok none
  validated (some text) = present (codec.validate text)

  abbrev pub load_from : Files → Result Exc FilePath → Result Exc (Option (SessionState V))
  load_from files (ok target) = validated (read target files)
  load_from files (err e) = err e

  -- `load`
  unfoldable pub load : Text → Files → Result Exc (Option (SessionState V))
  unfolding path
  load session_id files = load_from files (path session_id)

  abbrev pub required : Result Exc (Option (SessionState V)) → Result Exc (SessionState V)
  required (err e) = err e
  required (ok none) = err (raised "SessionNotFound" "no session with that name")
  required (ok (some state)) = ok state

  -- `require`
  unfoldable pub require : Text → Files → Result Exc (SessionState V)
  unfolding load
  require session_id files = required (load session_id files)

  abbrev pub fresh : String → ℕ → Result Exc Text → Result Exc (SessionState V)
  fresh agent now (err e) = err e
  fresh agent now (ok id) = ok (record {
    session_id = id;
    agent = agent;
    created_at = now;
    updated_at = now;
    progress = [];
    runs = [];
  })

  abbrev pub started :
      Text → String → ℕ → Result Exc (Option (SessionState V)) → Result Exc (SessionState V)
  started session_id agent now (err e) = err e
  started session_id agent now (ok (some existing)) = ok existing
  started session_id agent now (ok none) = fresh agent now (safe_session_id session_id)

  -- `start`
  unfoldable pub start : Text → String → ℕ → Files → Result Exc (SessionState V)
  unfolding load
  start session_id agent now files = started session_id agent now (load session_id files)

  abbrev pub joined_progress : SessionState V → Text
  joined_progress state = join_lines (map (λ p. codec.str p.1) state.progress)

  abbrev pub or_else : Option Exc → Option Exc → Option Exc
  or_else (some exc) next = some exc
  or_else none next = next

  -- both screens of `save`
  unfoldable pub screen : SessionState V → Option Exc
  unfolding check
  screen state =
      or_else (check tools session_gate (codec.dump (record state { runs = [] })))
        (check tools session_gate (joined_progress state))

  abbrev pub stamp : ℕ → SessionState V → SessionState V
  stamp now state = record state { updated_at = now }

  abbrev pub stored : SessionState V → Result Exc FilePath → Exec Exc Files (SessionState V)
  stored state (err e) files = (err e, files)
  stored state (ok target) files = (ok state, write target (codec.dump_indented state) files)

  abbrev pub save_screened : Option Exc → SessionState V → ℕ → Exec Exc Files (SessionState V)
  save_screened (some exc) state now files = (err exc, files)
  save_screened none state now files = stored (stamp now state) (path state.session_id) files

  -- `save`
  unfoldable pub save : SessionState V → ℕ → Exec Exc Files (SessionState V)
  unfolding screen path
  save state now = save_screened (screen state) state now

  -- the id of a session that a path is the state of
  unfoldable pub session_of : FilePath → FilePath → Option Text
  session_of [] (id ∷ name ∷ []) = if text_eq name (codes "state.json") then some id else none
  session_of (b ∷ bs) (p ∷ ps) = let rest = session_of bs ps in if text_eq b p then rest else none
  session_of _ _ = none

  abbrev pub session_ids : Files → List Text
  session_ids [] = []
  session_ids ((p, _) ∷ files) = elim (session_of base p) [
    | some id ↦ id ∷ session_ids files
    | none ↦ session_ids files
  ]

  -- `list`
  unfoldable pub list : Files → List Text
  unfolding session_of
  list files = if is_dir base files then sort_by text_leb (session_ids files) else []

  abbrev pub delete_dir : Text → Files → Bool × Files
  delete_dir id files =
      if is_dir (session_dir id) files
      then (true, rmtree (session_dir id) files)
      else (false, files)

  abbrev pub delete_checked : Result Exc Text → Exec Exc Files Bool
  delete_checked (err e) files = (err e, files)
  delete_checked (ok id) files = let (found, files') = delete_dir id files in (ok found, files')

  -- `delete`
  unfoldable pub delete : Text → Exec Exc Files Bool
  unfolding safe_session_id
  delete session_id = delete_checked (safe_session_id session_id)
