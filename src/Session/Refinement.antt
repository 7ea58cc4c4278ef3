-- ===== src/Session/Refinement.antt =====
-- session/store.py: the files of the store are a map from ids to session states.
use lottie_orchestrator.Prelude.{
  ℕ, ◌≡◌, refl, sym, ap, ◌∙◌, Option, none, some, true, false, List, [], ◌∷◌, ◌++◌, All, arith,
  Bool-cases, inl, inr, if◌then◌else◌,
}
use lottie_orchestrator.Prelude.Texts.{Text, codes}
use lottie_orchestrator.Prelude.Walks.{text_eq, text_eq_iff}
use lottie_orchestrator.Exec.{Exc, Result, ok, err}
use lottie_orchestrator.Files.{FilePath, Files, is_under, path_eq, read, write, rmtree, is_dir}
use lottie_orchestrator.Files.Laws.{path_eq_iff, read-write, read-rmtree}
use lottie_orchestrator.Security.Screens.{Tools}
use lottie_orchestrator.Session.Store.{
  SessionState, Codec, matches_id, safe_session_id, path, state_file, located, stored, stamp,
  screen, save_screened, save, delete_dir, delete_checked, delete, load, validated, present,
}
use lottie_orchestrator.Session.Confinement.{
  Command, saving, deleting, perform, Checked, valid, invalid, safe_session_id-Checked,
  state_file-under,
}

-- the abstract store
abbrev pub Sessions : Type 0 → Type 0
Sessions V = Text → Option (SessionState V)

abbrev pub update : {V : Type 0} → Text → Option (SessionState V) → Sessions V → Sessions V
update id v m j = if text_eq id j then v else m j

abbrev pub unless : {A : Type 0} → Option Exc → A → A → A
unless none a b = a
unless (some exc) a b = b

path_eq-state_file :
    (base : FilePath) (i j : Text)
    → path_eq (base ++ i ∷ codes "state.json" ∷ []) (base ++ j ∷ codes "state.json" ∷ [])
      ≡ text_eq i j
path_eq-state_file [] i j = ground arith
path_eq-state_file (d ∷ base) i j = rw ((text_eq_iff d d).1 refl) (path_eq-state_file base i j)

state_file_apart :
    (base : FilePath) (i j : Text)
    → path_eq (base ++ i ∷ []) (base ++ j ∷ codes "state.json" ∷ []) ≡ false
state_file_apart [] i j = ground arith
state_file_apart (d ∷ base) i j = rw ((text_eq_iff d d).1 refl) (state_file_apart base i j)

-- in a directory that is not there no file is
read_missing :
    (dir q : FilePath) (files : Files)
    → is_dir dir files ≡ false
    → is_under dir q ≡ true
    → path_eq dir q ≡ false
    → read q files ≡ none
unfolding read is_dir
read_missing dir q [] h u e = refl
read_missing dir q ((r, content) ∷ files) h u e =
    let rec = read_missing dir q files in
    let same : path_eq r q ≡ true → (is_under dir r ≡ true) × (path_eq dir r ≡ false) = λ p.
      let at : q ≡ r = sym ((path_eq_iff r q).0 p) in
      (ap (λ x. is_under dir x) (sym at) ∙ u, ap (λ x. path_eq dir x) (sym at) ∙ e) in
    elim (Bool-cases (path_eq r q)) [
      | inl p ↦ let (a, b) = same p in ground arith
      | inr p ↦ ground arith
    ]

module _ {V : Type 0} (codec : Codec V) (tools : Tools) (base : FilePath) where
  -- a call on the abstract store
  abbrev pub specify : Command V → Sessions V → Sessions V
  specify (saving state now) m =
      if matches_id state.session_id
      then unless (screen codec tools base state)
          (update state.session_id (some (stamp codec tools base now state)) m) m
      else m
  specify (deleting id) m = if matches_id id then update id none m else m

  abbrev pub specify_all : List (Command V) → Sessions V → Sessions V
  specify_all [] m = m
  specify_all (c ∷ cs) m = specify_all cs (specify c m)

  abbrev pub perform_all : List (Command V) → Files → Files
  perform_all [] files = files
  perform_all (c ∷ cs) files = perform_all cs (perform codec tools base c files)

  -- Loading a session by a valid id gives what the abstract store has.
  abbrev pub Refines : Files → Sessions V → Type 0
  Refines files m = (id : Text) → matches_id id ≡ true → load codec tools base id files ≡ ok (m id)

  pub load_valid :
      (id : Text) (files : Files)
      → matches_id id ≡ true
      → load codec tools base id files
        ≡ validated codec tools base (read (state_file codec tools base id) files)
  unfolding load path safe_session_id
  load_valid id files h = rw h refl

  -- What a call writes is read back as the same state.
  abbrev pub ReadsBack : Command V → Type 0
  ReadsBack (saving state now) =
      let stamped = stamp codec tools base now state in
      codec.validate (codec.dump_indented stamped) ≡ ok stamped
  ReadsBack (deleting id) = Unit

  written-Refines :
      (state : SessionState V) (files : Files) (m : Sessions V)
      → codec.validate (codec.dump_indented state) ≡ ok state
      → Refines files m
      → Refines
          (write (state_file codec tools base state.session_id) (codec.dump_indented state) files)
          (update state.session_id (some state) m)
  written-Refines state files m back h j v =
      let id = state.session_id in
      let target = state_file codec tools base id in
      let step =
        read-write target (state_file codec tools base j) (codec.dump_indented state) files in
      let eq = path_eq-state_file base id j in
      let after = load_valid j (write target (codec.dump_indented state) files) v in
      elim (Bool-cases (text_eq id j)) [
        | inl e ↦
            let got = rw (eq, e) at step in
            rw e (after ∙ ap (validated codec tools base) got ∙ ap (present codec tools base) back)
        | inr e ↦
            let got = rw (eq, e) at step in
            rw e (after ∙ ap (validated codec tools base) got ∙ sym (load_valid j files v) ∙ h j v)
      ]

  deleted-Refines :
      (id : Text) (files : Files) (m : Sessions V)
      → Refines files m
      → Refines (delete_dir codec tools base id files).1 (update id none m)
  deleted-Refines id files m h j v =
      let dir : FilePath = base ++ id ∷ [] in
      let target = state_file codec tools base j in
      let below = state_file-under base id j in
      let apart = state_file_apart base id j in
      elim (Bool-cases (is_dir dir files)) [
        | inl d ↦
            let after = load_valid j (rmtree dir files) v in
            let step = read-rmtree dir target files in
            elim (Bool-cases (text_eq id j)) [
              | inl e ↦
                  let got = rw (below, e) at step in
                  rw (d, e) (after ∙ ap (validated codec tools base) got)
              | inr e ↦
                  let got = rw (below, e) at step in
                  rw (d, e)
                    (after
                      ∙ ap (validated codec tools base) got
                      ∙ sym (load_valid j files v)
                      ∙ h j v)
            ]
        | inr d ↦ elim (Bool-cases (text_eq id j)) [
          | inl e ↦
              let got = read_missing dir target files d (below ∙ e) apart in
              rw (d, e) (load_valid j files v ∙ ap (validated codec tools base) got)
          | inr e ↦ rw (d, e) (h j v)
        ]
      ]

  saved-Refines :
      (exc : Option Exc) (state : SessionState V) (now : ℕ) (r : Result Exc Text) (files : Files)
      (m : Sessions V)
      → Checked state.session_id r
      → ReadsBack (saving state now)
      → Refines files m
      → Refines
          (unless exc
            (stored codec tools base
              (stamp codec tools base now state)
              (located codec tools base r)
              files).1
            files)
          (if matches_id state.session_id
            then unless exc (update state.session_id (some (stamp codec tools base now state)) m) m
            else m)
  saved-Refines (some exc) state now (ok id) files m (valid c) back h = rw c h
  saved-Refines (some exc) state now (err e) files m (invalid c) back h = rw c h
  saved-Refines none state now (ok id) files m (valid c) back h =
      rw c (written-Refines (stamp codec tools base now state) files m back h)
  saved-Refines none state now (err e) files m (invalid c) back h = rw c h

  delete_checked-Refines :
      (id : Text) (r : Result Exc Text) (files : Files) (m : Sessions V)
      → Checked id r
      → Refines files m
      → Refines
          (delete_checked codec tools base r files).1
          (if matches_id id then update id none m else m)
  delete_checked-Refines id (ok id') files m (valid c) h = rw c (deleted-Refines id files m h)
  delete_checked-Refines id (err e) files m (invalid c) h = rw c h

  perform-Refines :
      (c : Command V) (files : Files) (m : Sessions V)
      → ReadsBack c
      → Refines files m
      → Refines (perform codec tools base c files) (specify c m)
  unfolding perform save delete path
  perform-Refines (saving state now) files m back h =
      screened (screen codec tools base state) (λ exc.
        saved-Refines exc state now (safe_session_id state.session_id) files m
          (safe_session_id-Checked state.session_id) back h)
    where
      screened :
          (exc : Option Exc)
          → ((e : Option Exc)
              → Refines
                  (unless e
                    (stored codec tools base
                      (stamp codec tools base now state)
                      (path codec tools base state.session_id)
                      files).1
                    files)
                  (if matches_id state.session_id
                    then unless e
                        (update state.session_id (some (stamp codec tools base now state)) m)
                        m
                    else m))
          → Refines (save_screened codec tools base exc state now files).1 (
              if matches_id state.session_id
              then unless exc
                  (update state.session_id (some (stamp codec tools base now state)) m)
                  m
              else m)
      screened (some exc) go = go (some exc)
      screened none go = go none
  perform-Refines (deleting id) files m back h =
      delete_checked-Refines id (safe_session_id id) files m (safe_session_id-Checked id) h

  -- After any calls that save and delete sessions, loading by a valid id gives what the same calls
  -- make of a map from ids to states: the state that was saved last under the id, with the time
  -- of saving, unless it was deleted since. A call with an id or a content that is refused changes
  -- nothing. What the calls write is read
  -- back as the same state.
  pub perform_all-Refines :
      (cs : List (Command V)) (files : Files) (m : Sessions V)
      → All ReadsBack cs
      → Refines files m
      → Refines (perform_all cs files) (specify_all cs m)
  perform_all-Refines [] files m back h = h
  perform_all-Refines (c ∷ cs) files m back h =
      perform_all-Refines cs (perform codec tools base c files) (specify c m) back.1
        (perform-Refines c files m back.0 h)
