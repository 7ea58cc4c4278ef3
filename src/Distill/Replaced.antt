-- ===== src/Distill/Replaced.antt =====
-- distill/template.py: what takes the place of a placeholder, independently of how it is found.
use lottie_orchestrator.Prelude.{
  ◌↔◌, ◌||◌, List, map, keep, any-map, ◌≡◌, refl, sym, ◌∙◌, true, false, not, List, [], ◌∷◌, ◌++◌,
  any, all, arith, Bool-cases, inl, inr,
}
use lottie_orchestrator.Prelude.Texts.{Text}
use lottie_orchestrator.Prelude.Walks.{text_eq}
use lottie_orchestrator.Distill.Template.{
  SkillSlot, keys, required_slots, DistilledSkill, slot_names, contains_text, get_or_empty, fill,
}

-- the value of a name in a dict
pub data IsEntry (name : Text) : List (Text × Text) → Text → Type 0 where
  first :
      {k v : Text} {values : List (Text × Text)}
      → (text_eq k name ≡ true)
      → IsEntry name ((k, v) ∷ values) v
  later :
      {k v w : Text} {values : List (Text × Text)}
      → (text_eq k name ≡ false)
      → IsEntry name values w
      → IsEntry name ((k, v) ∷ values) w

-- What takes the place of a placeholder: the value given for it, if it is a slot of the skill, or
-- nothing where none is given; what is no slot stays as it is, with its braces.
pub data Replacement (skill : DistilledSkill) (values : List (Text × Text)) (name : Text)
    : Text → Type 0 where
  given :
      {v : Text}
      → any (λ s. text_eq s.name name) skill.slots ≡ true
      → IsEntry name values v
      → Replacement skill values name v
  omitted :
      any (λ s. text_eq s.name name) skill.slots ≡ true
      → all (λ p. not (text_eq p.0 name)) values ≡ true
      → Replacement skill values name []
  undeclared :
      any (λ s. text_eq s.name name) skill.slots ≡ false
      → Replacement skill values name (b'{' ∷ (name ++ b'}' ∷ []))

-- how a dict answers for a name
data Answered (name : Text) (values : List (Text × Text)) : Text → Type 0 where
  found : {v : Text} → IsEntry name values v → Answered name values v
  absent : all (λ p. not (text_eq p.0 name)) values ≡ true → Answered name values []

later-Answered :
    (name k v w : Text) (values : List (Text × Text))
    → text_eq k name ≡ false
    → Answered name values w
    → Answered name ((k, v) ∷ values) w
later-Answered name k v _ values e (found h) = found (later e h)
later-Answered name k v _ values e (absent h) = absent (ground (arith, e, h))

get_or_empty-Answered :
    (name : Text) (values : List (Text × Text)) → Answered name values (get_or_empty values name)
unfolding get_or_empty
get_or_empty-Answered name [] = absent refl
get_or_empty-Answered name ((k, v) ∷ values) = elim (Bool-cases (text_eq k name)) [
  | inl e ↦ rw e (found (first e))
  | inr e ↦ rw e (later-Answered name k v _ values e (get_or_empty-Answered name values))
]

get_or_empty-IsEntry :
    (name : Text) (values : List (Text × Text)) (v : Text)
    → IsEntry name values v
    → get_or_empty values name ≡ v
unfolding get_or_empty
get_or_empty-IsEntry name _ v (first e) = rw e refl
get_or_empty-IsEntry name _ v (later e h) = rw e (get_or_empty-IsEntry name _ v h)

get_or_empty-absent :
    (name : Text) (values : List (Text × Text))
    → all (λ p. not (text_eq p.0 name)) values ≡ true
    → get_or_empty values name ≡ []
unfolding get_or_empty
get_or_empty-absent name [] h = refl
get_or_empty-absent name ((k, v) ∷ values) h =
    let e : text_eq k name ≡ false = ground (arith, h) in
    let rest : all (λ p. not (text_eq p.0 name)) values ≡ true = ground (arith, h) in
    rw e (get_or_empty-absent name values rest)

module _ (skill : DistilledSkill) (values : List (Text × Text)) where
  slot_names-any :
      (name : Text)
      → contains_text (slot_names skill) name ≡ any (λ s. text_eq s.name name) skill.slots
  unfolding slot_names
  slot_names-any name = any-map (λ n. text_eq n name) (λ s. s.name) skill.slots

  answered-Replacement :
      (name v : Text)
      → any (λ s. text_eq s.name name) skill.slots ≡ true
      → Answered name values v
      → Replacement skill values name v
  answered-Replacement name _ d (found h) = given d h
  answered-Replacement name _ d (absent h) = omitted d h

  pub fill-Replacement : (name : Text) → Replacement skill values name (fill skill values name)
  unfolding fill
  fill-Replacement name = elim (Bool-cases (contains_text (slot_names skill) name)) [
    | inl e ↦ rw e (
        answered-Replacement name _ (sym (slot_names-any name) ∙ e)
          (get_or_empty-Answered name values))
    | inr e ↦ rw e (undeclared (sym (slot_names-any name) ∙ e))
  ]

  pub fill_unique : (name t : Text) → Replacement skill values name t → fill skill values name ≡ t
  unfolding fill
  fill_unique name _ (given d h) =
      let e = slot_names-any name ∙ d in rw e (get_or_empty-IsEntry name values _ h)
  fill_unique name _ (omitted d h) =
      let e = slot_names-any name ∙ d in rw e (get_or_empty-absent name values h)
  fill_unique name _ (undeclared d) = let e = slot_names-any name ∙ d in rw e refl

  -- each value is for a slot of the skill
  abbrev pub IsKnown : Type 0
  IsKnown = all (λ p. any (λ s. text_eq s.name p.0) skill.slots) values ≡ true

  -- each required slot has a value
  abbrev pub IsGiven : Type 0
  IsGiven = all (λ s. not s.required || any (λ p. text_eq p.0 s.name) values) skill.slots ≡ true

  known_from :
      (vs : List (Text × Text))
      → all (contains_text (slot_names skill)) (keys vs)
        ≡ all (λ p. any (λ s. text_eq s.name p.0) skill.slots) vs
  known_from [] = refl
  known_from (p ∷ vs) = let here = slot_names-any p.0 in ground (arith, here, known_from vs)

  keys-any : (name : Text) → contains_text (keys values) name ≡ any (λ p. text_eq p.0 name) values
  keys-any name = any-map (λ n. text_eq n name) (λ p. p.0) values

  given_from :
      (slots : List SkillSlot)
      → all (contains_text (keys values)) (map (λ s. s.name) (keep (λ s. s.required) slots))
        ≡ all (λ s. not s.required || any (λ p. text_eq p.0 s.name) values) slots
  given_from [] = refl
  given_from (s ∷ slots) =
      let here = keys-any s.name in
      elim (Bool-cases s.required) [
        | inl e ↦ rw e (ground (arith, here, given_from slots))
        | inr e ↦ rw e (given_from slots)
      ]

  pub keys-IsKnown : all (contains_text (slot_names skill)) (keys values) ≡ true ↔ IsKnown
  keys-IsKnown = let e = known_from values in (λ h. sym e ∙ h, λ h. e ∙ h)

  pub required_slots-IsGiven :
      all (contains_text (keys values)) (required_slots skill) ≡ true ↔ IsGiven
  unfolding required_slots
  required_slots-IsGiven = let e = given_from skill.slots in (λ h. sym e ∙ h, λ h. e ∙ h)
