-- ===== src/Core/Resumed.antt =====
-- core/base_agent.py with session/store.py: progress that was saved is there when the session is
-- loaded again.
use lottie_orchestrator.Prelude.{
  ℕ, ◌≡◌, refl, sym, ap, ◌∙◌, Option, none, some, true, false, List, [], ◌∷◌, arith, Bool-cases,
  inl, inr, if◌then◌else◌,
}
use lottie_orchestrator.Prelude.Texts.{Text}
use lottie_orchestrator.Prelude.Walks.{text_eq, text_eq_iff}
use lottie_orchestrator.Exec.{Exc, Result, ok, err}
use lottie_orchestrator.Files.{FilePath, Files}
use lottie_orchestrator.Security.Screens.{Tools}
use lottie_orchestrator.Session.Store.{SessionState, Codec, load, save}
use lottie_orchestrator.Session.Reload.{Saved, save-Saved}
use lottie_orchestrator.Core.Progress.{Progress, put, merged, persisted, save_progress}

abbrev pub entry {ℓ} : {V : Type ℓ} → Text → List (Text × V) → Option V
entry k [] = none
entry k ((j, v) ∷ d) = let rest = entry k d in if text_eq j k then some v else rest

-- the value that the updates give a key last, or the one before them
abbrev pub updated {ℓ} : {V : Type ℓ} → Text → List (Text × V) → Option V → Option V
updated k [] old = old
updated k ((j, v) ∷ updates) old = updated k updates (if text_eq j k then some v else old)

entry-put {ℓ} :
    {V : Type ℓ} (k j : Text) (v : V) (d : List (Text × V))
    → entry k (put j v d) ≡ (if text_eq j k then some v else entry k d)
unfolding put
entry-put k j v [] = refl
entry-put k j v ((i, w) ∷ d) = elim (Bool-cases (text_eq i j)) [
  | inl e ↦
      let same : text_eq i k ≡ text_eq j k = ap (λ x. text_eq x k) ((text_eq_iff i j).0 e) in
      ground arith
  | inr e ↦
      let rec = entry-put k j v d in
      let apart : text_eq j k ≡ true → text_eq i k ≡ false = λ h. rw (← (text_eq_iff j k).0 h) e in
      ground arith
]

entry-merged {ℓ} :
    {V : Type ℓ} (k : Text) (d updates : List (Text × V))
    → entry k (merged d updates) ≡ updated k updates (entry k d)
unfolding merged
entry-merged k d [] = refl
entry-merged k d ((j, v) ∷ updates) =
    entry-merged k (put j v d) updates ∙ ap (updated k updates) (entry-put k j v d)

module _ {V : Type 0} (codec : Codec V) (tools : Tools) where
  -- The state of the session, in memory and as it is loaded: each entry is the updates' last one, or
  -- the one before them.
  pub record Resumed (updates : List (Text × V)) (state : SessionState V) (base : FilePath)
      (s : Progress V) : Type 0 where
    pub latest : SessionState V
    pub held : s.session ≡ some latest
    pub reloaded : load codec tools base state.session_id s.files ≡ ok (some latest)
    pub entries : (k : Text) → entry k latest.progress ≡ updated k updates (entry k state.progress)

  persisted-Resumed :
      (updates : List (Text × V)) (now : ℕ) (state : SessionState V) (base : FilePath)
      (s t : Progress V) (x : Result Exc (SessionState V) × Files)
      → ((st : SessionState V) (files' : Files)
          → x ≡ (ok st, files')
          → Saved codec tools base
              (record state { progress = merged state.progress updates })
              now
              st
              files')
      → persisted codec tools (record state { progress = merged state.progress updates }) s x
        ≡ (ok tt, t)
      → Resumed updates state base t
  persisted-Resumed updates now state base s t (err e, files) saved h = cc
  persisted-Resumed updates now state base s t (ok st, files) saved h =
      let z = saved st files refl in
      let at : record s { session = some st; files = files } ≡ t = ap (λ x. x.1) h in
      record {
        latest = st;
        held = sym (ap (λ x. x.session) at);
        reloaded = ap (λ x. load codec tools base state.session_id x.files) (sym at) ∙ z.loaded;
        entries =
            λ k. ap (λ x. entry k x.progress) z.stamped ∙ entry-merged k state.progress updates;
      }

  -- If `save_progress` returns, the session that is then loaded is the one in memory, and each entry
  -- of its progress is the last one of the updates, or the one from before where the updates have
  -- none. The state that is written is read back as the same one.
  pub save_progress-Resumed :
      (updates : List (Text × V)) (now : ℕ) (state : SessionState V) (base : FilePath)
      (s t : Progress V)
      → s.session ≡ some state
      → s.store ≡ some base
      → (let state' = record state { progress = merged state.progress updates; updated_at = now } in
          codec.validate (codec.dump_indented state') ≡ ok state')
      → save_progress codec tools updates now s ≡ (ok tt, t)
      → Resumed updates state base t
  unfolding save_progress
  save_progress-Resumed updates now state base s t session store back h =
      let h' = simp (session, store) at h in
      let state' : SessionState V = record state { progress = merged state.progress updates } in
      persisted-Resumed updates now state base s t (save codec tools base state' now s.files)
        (λ st files' e. save-Saved codec tools base state' st now s.files files' back e) h'
