-- ===== src/Distill/Template.antt =====
-- distill/schema.py and distill/template.py: a skill as a prompt template, and how its slots are
-- filled. The pattern of a slot is written out.
use lottie_orchestrator.Prelude.{
  ℕ, suc, Option, none, some, Bool, not, ◌&&◌, ◌||◌, List, [], ◌∷◌, ◌++◌, map, ◌==◌, leb, any, keep,
  length, is_nonempty, if◌then◌else◌,
}
use lottie_orchestrator.Prelude.Texts.{Text}
use lottie_orchestrator.Prelude.Walks.{text_eq}
use lottie_orchestrator.Exec.{Exc, raised, Result, ok, err}

pub record SkillSlot : Type 0 where
  pub name : Text
  pub description : Text
  pub required : Bool

pub record DistilledSkill : Type 0 where
  pub name : Text
  pub description : Text
  pub version : Text
  pub system_prompt : Text
  pub user_template : Text
  pub slots : List SkillSlot
  pub capability : Option Text

-- `slot_names` and `required_slots`
unfoldable pub slot_names : DistilledSkill → List Text
slot_names skill = map (λ s. s.name) skill.slots

unfoldable pub required_slots : DistilledSkill → List Text
required_slots skill = map (λ s. s.name) (keep (λ s. s.required) skill.slots)

unfoldable pub is_name_start : ℕ → Bool
is_name_start c = leb b'a' c && leb c b'z'

unfoldable pub is_name_char : ℕ → Bool
unfolding is_name_start
is_name_char c = is_name_start c || ((leb b'0' c && leb c b'9') || c == b'_')

abbrev pub with_char : ℕ → Option Text → Option Text
with_char c none = none
with_char c (some name) = some (c ∷ name)

-- the characters of a name up to the brace that closes the slot
unfoldable pub closing : Text → Option Text
unfolding is_name_char
closing [] = none
closing (c ∷ s) =
    let rest = with_char c (closing s) in
    if c == b'}' then some [] else if is_name_char c then rest else none

abbrev pub bounded : ℕ → Option Text → Option Text
bounded c none = none
bounded c (some name) = if leb (length name) 39 then some (c ∷ name) else none

abbrev pub named : Text → Option Text
named [] = none
named (c ∷ s) = if is_name_start c then bounded c (closing s) else none

-- the name in the match of `_SLOT_RE` that starts with a character and the text behind it
unfoldable pub slot_at : ℕ → Text → Option Text
unfolding closing
slot_at c s = if c == b'{' then named s else none

abbrev pub replaced : (Text → Text) → Option Text → (ℕ → Text) → ℕ → Text
replaced fill none rest c = c ∷ rest 0
replaced fill (some name) rest c = fill name ++ rest (suc (length name))

-- `_SLOT_RE.sub`; the number is how many characters of a match are still ahead
unfoldable pub sub_from : (Text → Text) → ℕ → Text → Text
unfolding slot_at
sub_from fill n [] = []
sub_from fill ℕ.zero (c ∷ s) = replaced fill (slot_at c s) (λ n. sub_from fill n s) c
sub_from fill (suc n) (c ∷ s) = sub_from fill n s

abbrev pub contains_text : List Text → Text → Bool
contains_text names name = any (λ n. text_eq n name) names

-- `values.get(name, "")`
unfoldable pub get_or_empty : List (Text × Text) → Text → Text
get_or_empty [] name = []
get_or_empty ((k, v) ∷ values) name =
    let rest = get_or_empty values name in if text_eq k name then v else rest

-- `_fill`; a match that is no slot of the skill stays as it is
unfoldable pub fill : DistilledSkill → List (Text × Text) → Text → Text
unfolding slot_names get_or_empty
fill skill values name =
    if contains_text (slot_names skill) name
    then get_or_empty values name
    else b'{' ∷ (name ++ b'}' ∷ [])

-- the names that are not among others
abbrev pub minus : List Text → List Text → List Text
minus names others = keep (λ n. not (contains_text others n)) names

abbrev pub keys : List (Text × Text) → List Text
keys values = map (λ p. p.0) values

-- `render`; the messages are given without the names
unfoldable pub render : DistilledSkill → List (Text × Text) → Result Exc Text
unfolding slot_names required_slots sub_from fill
render skill values =
    if is_nonempty (minus (keys values) (slot_names skill))
    then err (raised "SlotError" "unknown slot(s)")
    else if is_nonempty (minus (required_slots skill) (keys values))
    then err (raised "SlotError" "missing required slot(s)")
    else ok (sub_from (fill skill values) 0 skill.user_template)
