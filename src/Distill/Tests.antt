-- ===== src/Distill/Tests.antt =====
-- A skill with one slot, and a toy YAML that can read the template of that skill only.
use lottie_orchestrator.Prelude.{
  ℕ, ◌≡◌, ◌↔◌, refl, none, some, true, false, all, List, [], ◌∷◌, if◌then◌else◌,
}
use lottie_orchestrator.Prelude.Texts.{Text, codes}
use lottie_orchestrator.Prelude.Walks.{text_eq}
use lottie_orchestrator.Exec.{raised, ok, err}
use lottie_orchestrator.Files.{FilePath, Files}
use lottie_orchestrator.Security.Screens.{Tools}
use lottie_orchestrator.Distill.Template.{
  DistilledSkill, slot_names, required_slots, contains_text, fill, keys, render,
}
use lottie_orchestrator.Distill.Replaced.{IsKnown, IsGiven}
use lottie_orchestrator.Distill.Slots.{Piece, literal, placeholder, Shown, render-shown}
use lottie_orchestrator.Distill.Store.{Yaml, safe_name, list_drafts, file_of}
use lottie_orchestrator.Distill.Review.{promote}
use lottie_orchestrator.Distill.Promoted.{Promoted}

abbrev skill : DistilledSkill
skill = record {
  name = codes "greet";
  description = codes "says hello";
  version = codes "0.1.0";
  system_prompt = codes "Be kind.";
  user_template = codes "Hi {who}, {x}!";
  slots = record { name = codes "who"; description = codes "a name"; required = true } ∷ [];
  capability = none;
}

-- The value looks like a slot, and `{x}` is no slot of the skill.
abbrev values : List (Text × Text)
values = (codes "who", codes "{who}") ∷ []

rendered : render skill values ≡ ok (codes "Hi {who}, {x}!")
unfolding render
rendered = refl

missing_value : render skill [] ≡ err (raised "SlotError" "missing required slot(s)")
unfolding render
missing_value = refl

abbrev pieces : List Piece
pieces =
    literal (codes "Hi ")
    ∷ placeholder (codes "who")
    ∷ literal (codes ", ")
    ∷ placeholder (codes "x")
    ∷ literal (codes "!")
    ∷ []

render-shown_example : (render skill values ≡ ok (codes "Hi {who}, {x}!")) ↔ (
    IsKnown skill values
    × IsGiven skill values
    × Shown skill values pieces (codes "Hi {who}, {x}!"))
unfolding lottie_orchestrator.Distill.Template.is_name_start
    lottie_orchestrator.Distill.Template.is_name_char
render-shown_example =
    render-shown skill values pieces (codes "Hi {who}, {x}!")
      (refl, (refl, (refl, (refl, (refl, tt))))) refl

abbrev tools : Tools
tools = record {
  finditer = λ r t. [];
  scanners = record { scan_file = λ path content. []; search = λ pattern line. false };
  tmp = codes "t" ∷ [];
  active = none;
}

abbrev yaml : Yaml
yaml = record {
  dump_skill = λ s. codes "skill";
  dump_provenance = λ p. codes "provenance";
  dump_promotion = λ p. codes "promotion";
  validate_skill =
      λ t. if text_eq t (codes "skill") then ok skill else err (raised "ValidationError" "");
  validate_provenance = λ t. err (raised "ValidationError" "");
  validate_promotion = λ t. err (raised "ValidationError" "");
}

abbrev root : FilePath
root = codes "root" ∷ []

abbrev drafts : Files
drafts =
    (file_of yaml tools root (codes "draft") (codes "greet") (codes "template.yaml"), codes "skill")
    ∷ []

abbrev promoted : Files
promoted = (promote yaml tools root (codes "greet") (codes "hello") (codes "ana") 7 drafts).1

name_with_newline : safe_name (codes "a\n") ≡ ok (codes "a\n")
unfolding safe_name
name_with_newline = refl

listed_draft : list_drafts yaml tools root drafts ≡ codes "greet" ∷ []
unfolding list_drafts
listed_draft = refl
