-- ===== src/Distill/Slots.antt =====
-- distill/template.py: a template as literal text and slots, and what is rendered of it.
use lottie_orchestrator.Prelude.{
  subst, ℕ, suc, ◌≡◌, ◌↔◌, refl, sym, ap, ◌∙◌, some, Bool, true, false, not, ◌&&◌, List, [], ◌∷◌,
  ◌++◌, ◌==◌, leb, all, length, is_nonempty, All, arith, Bool-cases, inl, inr, if◌then◌else◌,
}
use lottie_orchestrator.Prelude.Texts.{Text}
use lottie_orchestrator.Exec.{Exc, raised, Result, ok, err}
use lottie_orchestrator.Distill.Replaced.{
  IsKnown, IsGiven, keys-IsKnown, required_slots-IsGiven, Replacement, fill-Replacement,
  fill_unique,
}
use lottie_orchestrator.Distill.Template.{
  DistilledSkill, slot_names, required_slots, is_name_start, is_name_char, closing, slot_at,
  sub_from, contains_text, fill, minus, keys, render, named, replaced,
}

pub data Piece : Type 0 where
  literal placeholder : Text → Piece

abbrev pub is_slot_name : Text → Bool
is_slot_name [] = false
is_slot_name (c ∷ s) = is_name_start c && (all is_name_char s && leb (length s) 39)

abbrev pub IsPiece : Piece → Type 0
IsPiece (literal t) = all (λ c. not (c == b'{')) t ≡ true
IsPiece (placeholder name) = is_slot_name name ≡ true

abbrev pub printed : List Piece → Text
printed [] = []
printed (literal t ∷ ps) = t ++ printed ps
printed (placeholder name ∷ ps) = b'{' ∷ (name ++ b'}' ∷ printed ps)

-- what stands in the place of a piece, with the texts that are put in for the slots
abbrev pub shown : (Text → Text) → List Piece → Text
shown value [] = []
shown value (literal t ∷ ps) = t ++ shown value ps
shown value (placeholder name ∷ ps) = value name ++ shown value ps

closing-name : (n s : Text) → all is_name_char n ≡ true → closing (n ++ b'}' ∷ s) ≡ some n
unfolding closing is_name_char is_name_start
closing-name [] s h = refl
closing-name (c ∷ n) s h =
    let inner : all is_name_char n ≡ true = ground arith in
    let rec = closing-name n s inner in
    let brace : (c == b'}') ≡ false = ground arith in
    let name : is_name_char c ≡ true = ground arith in simp (brace, name, rec)

named-name : (n s : Text) → is_slot_name n ≡ true → named (n ++ b'}' ∷ s) ≡ some n
named-name [] s h = cc
named-name (c ∷ n) s h =
    let first : is_name_start c ≡ true = ground arith in
    let inner : all is_name_char n ≡ true = ground arith in
    let short : leb (length n) 39 ≡ true = ground arith in
    simp (first, closing-name n s inner, short)

module _ (value : Text → Text) where
  sub_from-skip :
      (a : Text) (d : ℕ) (s : Text)
      → sub_from value (suc (length a)) (a ++ d ∷ s) ≡ sub_from value 0 s
  unfolding sub_from
  sub_from-skip [] d s = refl
  sub_from-skip (c ∷ a) d s = sub_from-skip a d s

  sub_from-literal :
      (t s : Text)
      → all (λ c. not (c == b'{')) t ≡ true
      → sub_from value 0 (t ++ s) ≡ t ++ sub_from value 0 s
  unfolding sub_from slot_at
  sub_from-literal [] s h = refl
  sub_from-literal (c ∷ t) s h =
      let brace : (c == b'{') ≡ false = ground arith in
      let rest : all (λ c. not (c == b'{')) t ≡ true = ground arith in
      simp (brace, sub_from-literal t s rest)

  sub_from-placeholder :
      (n s : Text)
      → is_slot_name n ≡ true
      → sub_from value 0 (b'{' ∷ (n ++ b'}' ∷ s)) ≡ value n ++ sub_from value 0 s
  unfolding sub_from slot_at
  sub_from-placeholder n s h =
      ap (λ o. replaced value o (λ k. sub_from value k (n ++ b'}' ∷ s)) b'{') (named-name n s h)
      ∙ ap (λ t. value n ++ t) (sub_from-skip n b'}' s)

  sub_from-printed :
      (ps : List Piece) → All IsPiece ps → sub_from value 0 (printed ps) ≡ shown value ps
  unfolding sub_from
  sub_from-printed [] h = refl
  sub_from-printed (literal t ∷ ps) h =
      sub_from-literal t (printed ps) h.0 ∙ ap (λ s. t ++ s) (sub_from-printed ps h.1)
  sub_from-printed (placeholder n ∷ ps) h =
      sub_from-placeholder n (printed ps) h.0 ∙ ap (λ s. value n ++ s) (sub_from-printed ps h.1)

-- a text that is made of pieces, with what takes the place of each placeholder
pub data Shown (skill : DistilledSkill) (values : List (Text × Text))
    : List Piece → Text → Type 0 where
  nothing : Shown skill values [] []
  as_is :
      {t out : Text} {ps : List Piece}
      → Shown skill values ps out
      → Shown skill values (literal t ∷ ps) (t ++ out)
  put_in :
      {name t out : Text} {ps : List Piece}
      → Replacement skill values name t
      → Shown skill values ps out
      → Shown skill values (placeholder name ∷ ps) (t ++ out)

module _ (skill : DistilledSkill) (values : List (Text × Text)) where
  shown-Shown : (ps : List Piece) → Shown skill values ps (shown (fill skill values) ps)
  shown-Shown [] = nothing
  shown-Shown (literal t ∷ ps) = as_is (shown-Shown ps)
  shown-Shown (placeholder name ∷ ps) = put_in (fill-Replacement skill values name) (shown-Shown ps)

  shown_unique :
      (ps : List Piece) (out : Text)
      → Shown skill values ps out
      → shown (fill skill values) ps ≡ out
  shown_unique _ _ nothing = refl
  shown_unique _ _ (as_is {t} h) = ap (λ s. t ++ s) (shown_unique _ _ h)
  shown_unique _ _ (put_in {name} {t} {out} {ps} r h) =
      ap (λ s. s ++ shown (fill skill values) ps) (fill_unique skill values name t r)
      ∙ ap (λ s. t ++ s) (shown_unique ps out h)

is_nonempty-minus :
    (names others : List Text)
    → is_nonempty (minus names others) ≡ not (all (contains_text others) names)
is_nonempty-minus [] others = refl
is_nonempty-minus (n ∷ names) others = elim (Bool-cases (contains_text others n)) [
  | inl e ↦ simp (e, is_nonempty-minus names others)
  | inr e ↦ simp e
]

settled :
    (u m : Bool) (e e' : Exc) (a out : Text)
    → (◌≡◌ {A = Result Exc Text} (if not u then err e else if not m then err e' else ok a) (ok out))
      ↔ ((u ≡ true) × (m ≡ true) × (out ≡ a))
settled false m e e' a out = (λ h. cc, λ h. cc)
settled true false e e' a out = (λ h. cc, λ h. cc)
settled true true e e' a out = (λ h. (refl, refl, cc), λ h. ap (λ x. ok x) (sym h.2))

render-filled :
    (skill : DistilledSkill) (values : List (Text × Text)) (ps : List Piece) (out : Text)
    → All IsPiece ps
    → skill.user_template ≡ printed ps
    → (render skill values ≡ ok out) ↔ (
        (all (contains_text (slot_names skill)) (keys values) ≡ true)
        × (all (contains_text (keys values)) (required_slots skill) ≡ true)
        × (out ≡ shown (fill skill values) ps))
unfolding render
render-filled skill values ps out h t =
    let unknown = is_nonempty-minus (keys values) (slot_names skill) in
    let missing = is_nonempty-minus (required_slots skill) (keys values) in
    let body = ap (sub_from (fill skill values) 0) t ∙ sub_from-printed (fill skill values) ps h in
    simp (unknown, missing, body)
      (settled (all (contains_text (slot_names skill)) (keys values))
        (all (contains_text (keys values)) (required_slots skill))
        (raised "SlotError" "unknown slot(s)") (raised "SlotError" "missing required slot(s)")
        (shown (fill skill values) ps) out)

-- Rendering a template of literal text and slots gives a text exactly if each value is for a slot of
-- the skill and each required slot has a value, and the text is the literal parts as they are with,
-- in place of each placeholder, the value that is given for that slot, nothing where the slot has no
-- value, and the placeholder itself where the skill has no such slot. A value is put in whatever it
-- holds, and never searched for slots. The literal text has no opening brace.
pub render-shown :
    (skill : DistilledSkill) (values : List (Text × Text)) (ps : List Piece) (out : Text)
    → All IsPiece ps
    → skill.user_template ≡ printed ps
    → (render skill values ≡ ok out)
      ↔ (IsKnown skill values × IsGiven skill values × Shown skill values ps out)
render-shown skill values ps out h t =
    let filled = render-filled skill values ps out h t in
    let known = keys-IsKnown skill values in
    let had = required_slots-IsGiven skill values in
    (
      λ r.
          let (k, g, same) = filled.0 r in
          (
            known.0 k,
            had.0 g,
            subst (Shown skill values ps) (sym same) (shown-Shown skill values ps),
          ),
      λ x. filled.1 (known.1 x.0, had.1 x.1, sym (shown_unique skill values ps out x.2)),
    )
