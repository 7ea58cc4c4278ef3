-- ===== src/Session/Screened.antt =====
-- session/store.py: what is loaded was screened when it was saved.
use lottie_orchestrator.Prelude.{
  ℕ, ◌≡◌, refl, sym, ap, ◌∙◌, Option, none, some, true, List, [], ◌∷◌, All, Bool-cases, inl, inr,
}
use lottie_orchestrator.Prelude.Texts.{Text}
use lottie_orchestrator.Prelude.Walks.{text_eq}
use lottie_orchestrator.Exec.{Exc, Result, ok}
use lottie_orchestrator.Files.{FilePath, read}
use lottie_orchestrator.Security.Screens.{Tools, check}
use lottie_orchestrator.Security.Clean.{IsAcceptable, HasNoSecret, check-IsAcceptable}
use lottie_orchestrator.Session.Store.{
  SessionState, Codec, matches_id, stamp, screen, or_else, load, session_gate, joined_progress,
}
use lottie_orchestrator.Session.Confinement.{Command, saving, deleting}
use lottie_orchestrator.Session.Refinement.{
  ReadsBack, Sessions, update, unless, specify, specify_all, perform_all, load_valid,
  perform_all-Refines,
}

module _ {V : Type 0} (codec : Codec V) (tools : Tools) (base : FilePath) where
  -- the abstract store holds only states whose progress was screened
  abbrev AreScreened : Sessions V → Type 0
  AreScreened m =
      (id : Text) (state : SessionState V)
      → m id ≡ some state
      → check tools session_gate (joined_progress codec tools base state) ≡ none

  specify_saving-AreScreened :
      (exc : Option Exc) (state : SessionState V) (now : ℕ) (m : Sessions V)
      → (exc ≡ none → check tools session_gate (joined_progress codec tools base state) ≡ none)
      → AreScreened m
      → AreScreened
          (unless exc (update state.session_id (some (stamp codec tools base now state)) m) m)
  specify_saving-AreScreened (some exc) state now m s h id found e = h id found e
  specify_saving-AreScreened none state now m s h id found e =
      elim (Bool-cases (text_eq state.session_id id)) [
        | inl t ↦
            let e' : some (stamp codec tools base now state) ≡ some found = rw t at e in
            let same : stamp codec tools base now state ≡ found = cc in
            ap (λ x. check tools session_gate (joined_progress codec tools base x)) (sym same)
            ∙ s refl
        | inr t ↦ h id found (rw t at e)
      ]

  or_else-none : (a b : Option Exc) → or_else codec tools base a b ≡ none → b ≡ none
  or_else-none none b h = h
  or_else-none (some exc) b h = cc

  specify-AreScreened :
      (c : Command V) (m : Sessions V) → AreScreened m → AreScreened (specify codec tools base c m)
  unfolding screen
  specify-AreScreened (saving state now) m h = elim (Bool-cases (matches_id state.session_id)) [
    | inl v ↦ rw v (
        specify_saving-AreScreened (screen codec tools base state) state now m
          (λ e. or_else-none _ _ e) h)
    | inr v ↦ rw v h
  ]
  specify-AreScreened (deleting id) m h = elim (Bool-cases (matches_id id)) [
    | inl v ↦ rw v (forgotten)
    | inr v ↦ rw v h
  ]
    where
      forgotten : AreScreened (update id none m)
      forgotten j state e = elim (Bool-cases (text_eq id j)) [
        | inl t ↦ cc (rw t at e)
        | inr t ↦ h j state (rw t at e)
      ]

  specify_all-AreScreened :
      (cs : List (Command V)) (m : Sessions V)
      → AreScreened m
      → AreScreened (specify_all codec tools base cs m)
  specify_all-AreScreened [] m h = h
  specify_all-AreScreened (c ∷ cs) m h =
      specify_all-AreScreened cs (specify codec tools base c m) (specify-AreScreened c m h)

  ok_some-injective :
      (a : Option (SessionState V)) (b : SessionState V)
      → ◌≡◌ {A = Result Exc (Option (SessionState V))} (ok a) (ok (some b))
      → a ≡ some b
  ok_some-injective a b h = cc

  -- Whatever calls have saved and deleted sessions in a store that was empty, the progress of a
  -- session that is then loaded by a valid id, its values joined by newlines, has passed the content
  -- gate: it is not too long, has no control characters, matches no rule, and has no secret. What the
  -- calls write is read back as the same state.
  pub loaded-IsAcceptable :
      (cs : List (Command V)) (id : Text) (state : SessionState V)
      → All (ReadsBack codec tools base) cs
      → matches_id id ≡ true
      → load codec tools base id (perform_all codec tools base cs []) ≡ ok (some state)
      → IsAcceptable tools (joined_progress codec tools base state)
        × HasNoSecret tools (joined_progress codec tools base state)
  unfolding read
  loaded-IsAcceptable cs id state back v h =
      let empty_map : Sessions V = λ j. none in
      let start =
        perform_all-Refines codec tools base cs [] empty_map back
          (λ j w. load_valid codec tools base j [] w) in
      let found = ok_some-injective _ state (sym (start id v) ∙ h) in
      let screened =
        (check-IsAcceptable tools (joined_progress codec tools base state) session_gate).0
          (specify_all-AreScreened cs empty_map (λ j s e. cc) id state found) in
      (screened.2, screened.3)
