-- ===== src/Distill/Store.antt =====
-- distill/store.py: drafts of skills under `skills/draft`.
-- Reading and writing of YAML with pydantic's validation is a parameter; the time that an operation
-- reads is its argument.
use lottie_orchestrator.Prelude.{
  ℕ, Option, none, some, Bool, false, ◌&&◌, ◌||◌, List, [], ◌∷◌, ◌++◌, map, ◌==◌, leb, all, length,
  if◌then◌else◌,
}
use lottie_orchestrator.Prelude.Sort.{sort_by}
use lottie_orchestrator.Prelude.Texts.{Text, codes, text_leb}
use lottie_orchestrator.Prelude.Walks.{text_eq, decimal}
use lottie_orchestrator.Exec.{Exc, raised, Result, ok, err, Exec}
use lottie_orchestrator.Files.{FilePath, Files, read, write, is_dir}
use lottie_orchestrator.Security.Screens.{Tools, ContentGate, check}
use lottie_orchestrator.Session.Store.{before_newline, join_lines}
use lottie_orchestrator.Distill.Template.{SkillSlot, DistilledSkill, is_name_start, is_name_char}

pub record DistillProvenance : Type 0 where
  pub source_agent : Text
  pub trajectory_count : ℕ
  pub version : Text
  pub run_ids : List Text
  pub created_at : Option ℕ

pub record PromotionRecord : Type 0 where
  pub skill_name : Text
  pub capability : Text
  pub reviewer : Text
  pub source_version : Text
  pub approved_at : Option ℕ

-- `yaml.safe_dump` of each model, and `model_validate` of what `yaml.safe_load` gives
pub record Yaml : Type 0 where
  pub dump_skill : DistilledSkill → Text
  pub dump_provenance : DistillProvenance → Text
  pub dump_promotion : PromotionRecord → Text
  pub validate_skill : Text → Result Exc DistilledSkill
  pub validate_provenance : Text → Result Exc DistillProvenance
  pub validate_promotion : Text → Result Exc PromotionRecord

-- `draft_gate`
abbrev pub draft_gate : ContentGate
draft_gate = record { source = "distill-draft"; error = "DraftRejected"; label = "draft write" }

abbrev pub is_skill_name : Text → Bool
is_skill_name [] = false
is_skill_name (c ∷ s) =
    is_name_start c && (all (λ d. is_name_char d || d == b'-') s && leb (length s) 39)

-- `safe_name`; the message is given without the name
unfoldable pub safe_name : Text → Result Exc Text
unfolding before_newline is_name_start is_name_char
safe_name name =
    if is_skill_name (before_newline name)
    then ok name
    else err (raised "InvalidSkillName" "must match ^[a-z][a-z0-9_-]{0,39}$")

-- the text that the gate is given
abbrev pub screened_text : DistilledSkill → Text
screened_text skill =
    join_lines (skill.description ∷ skill.system_prompt ∷ skill.user_template ∷ [])

abbrev pub yes_or_no : Bool → Text
yes_or_no b = if b then codes "yes" else codes "no"

abbrev pub slot_row : SkillSlot → Text
slot_row s =
    codes "| `"
    ++ (s.name
        ++ (codes "` | "
            ++ (yes_or_no s.required ++ (codes " | " ++ (s.description ++ codes " |")))))

abbrev pub slot_rows : List SkillSlot → Text
slot_rows [] = codes "| _(none)_ | | |"
slot_rows (s ∷ slots) = join_lines (map slot_row (s ∷ slots))

-- `_render_skill_md`
unfoldable pub render_skill_md : DistilledSkill → DistillProvenance → Text
unfolding decimal
render_skill_md skill prov = join_lines (
    (codes "# " ++ (skill.name ++ (codes " (distilled, v" ++ (skill.version ++ codes ")"))))
    ∷ []
    ∷ (codes "> **DRAFT — not registered.** Distilled from "
        ++ (decimal prov.trajectory_count
            ++ (codes " successful run(s) of `"
                ++ (prov.source_agent
                    ++ codes
                        "`. Executed by `TemplateRunnerSkill`; this is a prompt template, not code. Promote with `lottie distill review`."))))
    ∷ []
    ∷ codes "## What it does"
    ∷ []
    ∷ skill.description
    ∷ []
    ∷ codes "## Slots"
    ∷ []
    ∷ codes "| Name | Required | Description |"
    ∷ codes "|---|---|---|"
    ∷ slot_rows skill.slots
    ∷ []
    ∷ codes "## Provenance"
    ∷ []
    ∷ (codes "- Source agent: `" ++ (prov.source_agent ++ codes "`"))
    ∷ (codes "- Trajectories: " ++ decimal prov.trajectory_count)
    ∷ (codes "- Version: " ++ skill.version)
    ∷ []
    ∷ [])

-- what `load_draft` takes where there is no provenance
abbrev pub unknown_provenance : DistilledSkill → DistillProvenance
unknown_provenance skill = record {
  source_agent = codes "unknown";
  trajectory_count = 0;
  version = skill.version;
  run_ids = [];
  created_at = none;
}

module _ (yaml : Yaml) (tools : Tools) (root : FilePath) where
  abbrev pub file_of : Text → Text → Text → FilePath
  file_of kind name file = root ++ codes "skills" ∷ kind ∷ name ∷ file ∷ []

  abbrev pub dir_of : Text → Text → FilePath
  dir_of kind name = root ++ codes "skills" ∷ kind ∷ name ∷ []

  -- the files of `write_draft`
  abbrev pub write_all : Text → Text → DistilledSkill → DistillProvenance → Files → Files
  write_all kind name skill prov files =
      write (file_of kind name (codes "SKILL.md")) (render_skill_md skill prov) (
        write (file_of kind name (codes "provenance.yaml")) (yaml.dump_provenance prov)
          (write (file_of kind name (codes "template.yaml")) (yaml.dump_skill skill) files))

  abbrev pub written :
      Result Exc Text → DistilledSkill → DistillProvenance → Exec Exc Files FilePath
  written (err e) skill prov files = (err e, files)
  written (ok name) skill prov files =
      (ok (dir_of (codes "draft") name), write_all (codes "draft") name skill prov files)

  abbrev pub write_screened :
      Option Exc → DistilledSkill → DistillProvenance → ℕ → Exec Exc Files FilePath
  write_screened (some exc) skill prov now files = (err exc, files)
  write_screened none skill prov now files =
      let stamped : DistillProvenance = record prov {
        created_at = some now;
        version = skill.version;
      } in
      written (safe_name skill.name) skill stamped files

  -- `write_draft`
  unfoldable pub write_draft : DistilledSkill → DistillProvenance → ℕ → Exec Exc Files FilePath
  unfolding check safe_name
  write_draft skill prov now files =
      write_screened (check tools draft_gate (screened_text skill)) skill prov now files

  abbrev pub paired :
      DistilledSkill
      → Result Exc DistillProvenance
      → Result Exc (DistilledSkill × DistillProvenance)
  paired skill (err e) = err e
  paired skill (ok prov) = ok (skill, prov)

  abbrev pub provenance_of : DistilledSkill → Option Text → Result Exc DistillProvenance
  provenance_of skill none = ok (unknown_provenance skill)
  provenance_of skill (some text) = yaml.validate_provenance text

  abbrev pub with_provenance :
      Option Text → Result Exc DistilledSkill → Result Exc (DistilledSkill × DistillProvenance)
  with_provenance prov (err e) = err e
  with_provenance prov (ok skill) = paired skill (provenance_of skill prov)

  abbrev pub parsed : Option Text → Option Text → Result Exc (DistilledSkill × DistillProvenance)
  parsed prov none = err (raised "DraftNotFound" "no distilled draft with that name")
  parsed prov (some template) = with_provenance prov (yaml.validate_skill template)

  abbrev pub loaded : Files → Result Exc Text → Result Exc (DistilledSkill × DistillProvenance)
  loaded files (err e) = err e
  loaded files (ok name) =
      parsed (read (file_of (codes "draft") name (codes "provenance.yaml")) files)
        (read (file_of (codes "draft") name (codes "template.yaml")) files)

  -- `load_draft`
  unfoldable pub load_draft : Text → Files → Result Exc (DistilledSkill × DistillProvenance)
  unfolding safe_name
  load_draft name files = loaded files (safe_name name)

  -- the name of the skill that a path is the template of
  unfoldable pub skill_of : FilePath → FilePath → Option Text
  skill_of [] (name ∷ file ∷ []) = if text_eq file (codes "template.yaml") then some name else none
  skill_of (b ∷ bs) (p ∷ ps) = let rest = skill_of bs ps in if text_eq b p then rest else none
  skill_of _ _ = none

  abbrev pub skills_in : FilePath → Files → List Text
  skills_in base [] = []
  skills_in base ((p, _) ∷ files) = elim (skill_of base p) [
    | some name ↦ name ∷ skills_in base files
    | none ↦ skills_in base files
  ]

  abbrev pub listed : Text → Files → List Text
  listed kind files =
      let base = root ++ codes "skills" ∷ kind ∷ [] in
      if is_dir base files then sort_by text_leb (skills_in base files) else []

  -- `list_drafts`
  unfoldable pub list_drafts : Files → List Text
  unfolding skill_of sort_by is_dir
  list_drafts files = listed (codes "draft") files
