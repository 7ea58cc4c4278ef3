-- ===== src/Session/Confinement.antt =====
-- session/store.py: an id never leads out of the sessions directory.
use lottie_orchestrator.Prelude.{
  ℕ, ◌<◌, ◌≡◌, refl, sym, ap, ◌∙◌, Option, none, some, Bool, true, false, ◌||◌, [], ◌∷◌, ◌++◌, ◌==◌,
  all, any, length, arith, Bool-cases, inl, inr,
}
use lottie_orchestrator.Prelude.Texts.{Text, codes}
use lottie_orchestrator.Prelude.Walks.{text_eq, text_eq_iff}
use lottie_orchestrator.Exec.{Exc, Result, ok, err}
use lottie_orchestrator.Files.{FilePath, Files, is_under, path_eq, read, write, is_dir}
use lottie_orchestrator.Files.Laws.{path_eq_iff, read-write, read-rmtree}
use lottie_orchestrator.Security.Screens.{Tools}
use lottie_orchestrator.Session.Store.{
  located, stored, save_screened, delete_checked, SessionState, Codec, is_id_char, is_alnum,
  before_newline, matches_id, safe_session_id, path, delete_dir, screen, stamp, save, delete,
}

-- a call that may change the files
pub data Command (V : Type 0) : Type 0 where
  saving : SessionState V → ℕ → Command V
  deleting : Text → Command V

abbrev pub id_of : {V : Type 0} → Command V → Text
id_of (saving state now) = state.session_id
id_of (deleting id) = id

module _ {V : Type 0} (codec : Codec V) (tools : Tools) (base : FilePath) where
  -- the files after a call
  unfoldable pub perform : Command V → Files → Files
  unfolding save delete
  perform (saving state now) files = (save codec tools base state now files).1
  perform (deleting id) files = (delete codec tools base id files).1

-- a character with which a segment of a path could lead elsewhere
abbrev pub is_special : ℕ → Bool
is_special c = c == b'/' || (c == b'\\' || (c == b'.' || c == 0))

clean_body : (s : Text) → all is_id_char (before_newline s) ≡ true → any is_special s ≡ false
unfolding is_id_char is_alnum before_newline
clean_body [] h = refl
clean_body (c ∷ []) h = ground arith
clean_body (c ∷ d ∷ s) h = let rec = clean_body (d ∷ s) in ground (arith, rec)

matches_id-clean : (s : Text) → matches_id s ≡ true → (any is_special s ≡ false) × (0 < length s)
unfolding matches_id is_id_char is_alnum before_newline
matches_id-clean [] h = cc
matches_id-clean (c ∷ []) h = ground arith
matches_id-clean (c ∷ d ∷ s) h = let rec = clean_body (d ∷ s) in ground (arith, rec)

-- what the check of an id gives
pub data Checked (id : Text) : Result Exc Text → Type 0 where
  valid : matches_id id ≡ true → Checked id (ok id)
  invalid : {e : Exc} → matches_id id ≡ false → Checked id (err e)

pub safe_session_id-Checked : (id : Text) → Checked id (safe_session_id id)
unfolding safe_session_id
safe_session_id-Checked id = elim (Bool-cases (matches_id id)) [
  | inl e ↦ rw e (valid e)
  | inr e ↦ rw e (invalid e)
]

-- What a call does to the files: nothing, or something in the directory of its id alone, whose name
-- is not empty and has no character that leads elsewhere.
pub data Confined (base : FilePath) (id : Text) (before after : Files) : Type 0 where
  untouched : before ≡ after → Confined base id before after
  below :
      any is_special id ≡ false
      → 0 < length id
      → ((q : FilePath) → is_under (base ++ id ∷ []) q ≡ false → read q after ≡ read q before)
      → Confined base id before after

pub is_under_refl : (base rest : FilePath) → is_under base (base ++ rest) ≡ true
is_under_refl [] rest = refl
is_under_refl (d ∷ base) rest = rw ((text_eq_iff d d).1 refl) (is_under_refl base rest)

pub state_file-under :
    (base : FilePath) (id id' : Text)
    → is_under (base ++ id ∷ []) (base ++ id' ∷ codes "state.json" ∷ []) ≡ text_eq id id'
state_file-under [] id id' = ground arith
state_file-under (d ∷ base) id id' = rw ((text_eq_iff d d).1 refl) (state_file-under base id id')

module _ {V : Type 0} (codec : Codec V) (tools : Tools) (base : FilePath) where
  written-Confined :
      (id : Text) (content : Text) (files : Files)
      → matches_id id ≡ true
      → Confined base id files (write (base ++ id ∷ codes "state.json" ∷ []) content files)
  written-Confined id content files h =
      let target : FilePath = base ++ id ∷ codes "state.json" ∷ [] in
      let inside : is_under (base ++ id ∷ []) target ≡ true =
        state_file-under base id id ∙ (text_eq_iff id id).1 refl in
      let (clean, filled) = matches_id-clean id h in
      below clean filled (λ q out.
        let apart : path_eq target q ≡ true → is_under (base ++ id ∷ []) q ≡ true =
          λ e. ap (λ x. is_under (base ++ id ∷ []) x) (sym ((path_eq_iff target q).0 e)) ∙ inside in
        let step = read-write target q content files in ground arith)

  deleted-Confined :
      (id : Text) (files : Files)
      → matches_id id ≡ true
      → Confined base id files (delete_dir codec tools base id files).1
  deleted-Confined id files h = elim (Bool-cases (is_dir (base ++ id ∷ []) files)) [
    | inl e ↦
        let (clean, filled) = matches_id-clean id h in
        rw e (below clean filled (λ q out. read-rmtree (base ++ id ∷ []) q files ∙ rw out refl))
    | inr e ↦ rw e (untouched refl)
  ]

  stored-Confined :
      (state : SessionState V) (r : Result Exc Text) (files : Files)
      → Checked state.session_id r
      → Confined base state.session_id files
          (stored codec tools base state (located codec tools base r) files).1
  stored-Confined state (ok id) files (valid h) = written-Confined state.session_id _ files h
  stored-Confined state (err e) files (invalid h) = untouched refl

  save_screened-Confined :
      (exc : Option Exc) (state : SessionState V) (now : ℕ) (files : Files)
      → Confined base state.session_id files (save_screened codec tools base exc state now files).1
  unfolding path
  save_screened-Confined (some exc) state now files = untouched refl
  save_screened-Confined none state now files =
      stored-Confined (stamp codec tools base now state) (safe_session_id state.session_id) files
        (safe_session_id-Checked state.session_id)

  delete_checked-Confined :
      (id : Text) (r : Result Exc Text) (files : Files)
      → Checked id r
      → Confined base id files (delete_checked codec tools base r files).1
  delete_checked-Confined id (ok id') files (valid h) = deleted-Confined id files h
  delete_checked-Confined id (err e) files (invalid h) = untouched refl

  -- Whatever id a caller gives, saving and deleting a session change nothing but files below the
  -- directory of that id, and then the id is a plain name, with no separator and no dot; an id that
  -- is not one changes no file at all.
  pub perform-Confined :
      (c : Command V) (files : Files)
      → Confined base (id_of c) files (perform codec tools base c files)
  unfolding perform save delete
  perform-Confined (saving state now) files =
      save_screened-Confined (screen codec tools base state) state now files
  perform-Confined (deleting id) files =
      delete_checked-Confined id (safe_session_id id) files (safe_session_id-Checked id)
