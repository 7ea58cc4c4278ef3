-- ===== src/Session/Reload.antt =====
-- session/store.py: a state that was saved is loaded again.
use lottie_orchestrator.Prelude.{ℕ, ◌≡◌, sym, ap, ◌∙◌, Option, none, some, true}
use lottie_orchestrator.Prelude.Texts.{Text}
use lottie_orchestrator.Exec.{Exc, Result, ok, err}
use lottie_orchestrator.Files.{FilePath, Files, write}
use lottie_orchestrator.Files.Laws.{read-write, path_eq_refl}
use lottie_orchestrator.Security.Screens.{Tools}
use lottie_orchestrator.Session.Store.{
  SessionState, Codec, matches_id, safe_session_id, path, state_file, located, stored, stamp,
  screen, save_screened, save, load, validated, present,
}
use lottie_orchestrator.Session.Confinement.{Checked, valid, safe_session_id-Checked}
use lottie_orchestrator.Session.Refinement.{load_valid}

module _ {V : Type 0} (codec : Codec V) (tools : Tools) (base : FilePath) where
  -- what was saved, and what loading gives then
  pub record Saved (state : SessionState V) (now : ℕ) (st : SessionState V) (files' : Files)
      : Type 0 where
    pub stamped : st ≡ stamp codec tools base now state
    pub loaded : load codec tools base state.session_id files' ≡ ok (some st)

  loaded_after_write :
      (state : SessionState V) (files : Files)
      → matches_id state.session_id ≡ true
      → codec.validate (codec.dump_indented state) ≡ ok state
      → load codec tools base state.session_id
          (write (state_file codec tools base state.session_id) (codec.dump_indented state) files)
        ≡ ok (some state)
  loaded_after_write state files v back =
      let target = state_file codec tools base state.session_id in
      let found = read-write target target (codec.dump_indented state) files in
      let here = rw (path_eq_refl target) at found in
      load_valid codec tools base state.session_id _ v
      ∙ ap (validated codec tools base) here
      ∙ ap (present codec tools base) back

  stored-Saved :
      (state st : SessionState V) (now : ℕ) (r : Result Exc Text) (files files' : Files)
      → Checked state.session_id r
      → codec.validate (codec.dump_indented (stamp codec tools base now state))
        ≡ ok (stamp codec tools base now state)
      → stored codec tools base
          (stamp codec tools base now state)
          (located codec tools base r)
          files
        ≡ (ok st, files')
      → Saved state now st files'
  stored-Saved state st now (err e) files files' c back h = cc
  stored-Saved state st now (ok id) files files' (valid v) back h =
      let stamped = stamp codec tools base now state in
      let target = state_file codec tools base state.session_id in
      let same : stamped ≡ st = ok_of stamped st (ap (λ x. x.0) h) in
      let left : write target (codec.dump_indented stamped) files ≡ files' = ap (λ x. x.1) h in
      record {
        stamped = sym same;
        loaded =
            ap (load codec tools base state.session_id) (sym left)
            ∙ loaded_after_write stamped files v back
            ∙ ap (λ s. ok (some s)) same;
      }
    where
      ok_of : (a b : SessionState V) → ◌≡◌ {A = Result Exc (SessionState V)} (ok a) (ok b) → a ≡ b
      ok_of a b h = cc

  save_screened-Saved :
      (exc : Option Exc) (state st : SessionState V) (now : ℕ) (files files' : Files)
      → codec.validate (codec.dump_indented (stamp codec tools base now state))
        ≡ ok (stamp codec tools base now state)
      → save_screened codec tools base exc state now files ≡ (ok st, files')
      → Saved state now st files'
  unfolding path
  save_screened-Saved (some exc) state st now files files' back h = cc
  save_screened-Saved none state st now files files' back h =
      stored-Saved state st now (safe_session_id state.session_id) files files'
        (safe_session_id-Checked state.session_id) back h

  pub save-Saved :
      (state st : SessionState V) (now : ℕ) (files files' : Files)
      → codec.validate (codec.dump_indented (stamp codec tools base now state))
        ≡ ok (stamp codec tools base now state)
      → save codec tools base state now files ≡ (ok st, files')
      → Saved state now st files'
  unfolding save
  save-Saved state = save_screened-Saved (screen codec tools base state) state
