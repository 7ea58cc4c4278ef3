-- ===== src/Distill/Review.antt =====
-- distill/store.py: a human's decision on a draft, and promoted skills under `skills/distilled`.
use lottie_orchestrator.Prelude.{ℕ, Option, none, some, List, [], ◌∷◌}
use lottie_orchestrator.Prelude.Texts.{Text, codes}
use lottie_orchestrator.Exec.{Exc, raised, Result, ok, err, Exec}
use lottie_orchestrator.Files.{FilePath, Files, read, write, rmtree}
use lottie_orchestrator.Security.Screens.{Tools, check}
use lottie_orchestrator.Distill.Template.{DistilledSkill}
use lottie_orchestrator.Distill.Store.{
  DistillProvenance, PromotionRecord, Yaml, draft_gate, safe_name, screened_text, render_skill_md,
  file_of, dir_of, load_draft, listed,
}

module _ (yaml : Yaml) (tools : Tools) (root : FilePath) where
  -- the writes of `promote`, and the removal of the draft
  abbrev pub moved : Text → DistilledSkill → DistillProvenance → PromotionRecord → Files → Files
  moved name approved prov decision files = rmtree (dir_of yaml tools root (codes "draft") name) (
      write (file_of yaml tools root (codes "distilled") name (codes "SKILL.md"))
        (render_skill_md approved prov)
        (write (file_of yaml tools root (codes "distilled") name (codes "promotion.yaml"))
          (yaml.dump_promotion decision)
          (write (file_of yaml tools root (codes "distilled") name (codes "provenance.yaml"))
            (yaml.dump_provenance prov)
            (write (file_of yaml tools root (codes "distilled") name (codes "template.yaml"))
              (yaml.dump_skill approved) files))))

  abbrev pub promoted_as :
      Option Exc
      → Text
      → DistilledSkill
      → DistillProvenance
      → PromotionRecord
      → Result Exc Text
      → Exec Exc Files FilePath
  promoted_as (some exc) name approved prov decision safe files = (err exc, files)
  promoted_as none name approved prov decision (err e) files = (err e, files)
  promoted_as none name approved prov decision (ok safe) files = (
    ok (dir_of yaml tools root (codes "distilled") safe),
    moved safe approved prov decision files,
  )

  abbrev pub promote_loaded :
      Text
      → Text
      → Text
      → ℕ
      → Result Exc (DistilledSkill × DistillProvenance)
      → Exec Exc Files FilePath
  promote_loaded name capability reviewer now (err e) files = (err e, files)
  promote_loaded name [] reviewer now (ok (skill, prov)) files =
      (err (raised "NotPromotable" "a capability must be declared at promotion"), files)
  promote_loaded name (c ∷ capability) reviewer now (ok (skill, prov)) files =
      let approved : DistilledSkill = record skill { capability = some (c ∷ capability) } in
      promoted_as (check tools draft_gate (screened_text approved)) name approved prov
        (record {
          skill_name = name;
          capability = c ∷ capability;
          reviewer = reviewer;
          source_version = skill.version;
          approved_at = some now;
        })
        (safe_name name) files

  -- `promote`
  unfoldable pub promote : Text → Text → Text → ℕ → Exec Exc Files FilePath
  unfolding load_draft check safe_name
  promote name capability reviewer now files =
      promote_loaded name capability reviewer now (load_draft yaml tools root name files) files

  abbrev pub removed : Text → Option Text → Exec Exc Files (Unit {0})
  removed name none files =
      (err (raised "DraftNotFound" "no distilled draft with that name"), files)
  removed name (some template) files =
      (ok tt, rmtree (dir_of yaml tools root (codes "draft") name) files)

  abbrev pub reject_checked : Result Exc Text → Exec Exc Files (Unit {0})
  reject_checked (err e) files = (err e, files)
  reject_checked (ok name) files =
      removed name
        (read (file_of yaml tools root (codes "draft") name (codes "template.yaml")) files) files

  -- `reject`
  unfoldable pub reject : Text → Exec Exc Files (Unit {0})
  unfolding safe_name
  reject name files = reject_checked (safe_name name) files

  abbrev pub decided :
      DistilledSkill → Result Exc PromotionRecord → Result Exc (DistilledSkill × PromotionRecord)
  decided skill (err e) = err e
  decided skill (ok decision) = ok (skill, decision)

  abbrev pub with_decision :
      Option Text → Result Exc DistilledSkill → Result Exc (DistilledSkill × PromotionRecord)
  with_decision decision (err e) = err e
  with_decision none (ok skill) = err (raised "FileNotFoundError" "promotion.yaml")
  with_decision (some text) (ok skill) = decided skill (yaml.validate_promotion text)

  abbrev pub parsed_promoted :
      Option Text → Option Text → Result Exc (DistilledSkill × PromotionRecord)
  parsed_promoted decision none =
      err (raised "DraftNotFound" "no promoted distilled skill with that name")
  parsed_promoted decision (some template) = with_decision decision (yaml.validate_skill template)

  abbrev pub loaded_promoted :
      Files → Result Exc Text → Result Exc (DistilledSkill × PromotionRecord)
  loaded_promoted files (err e) = err e
  loaded_promoted files (ok name) =
      parsed_promoted
        (read (file_of yaml tools root (codes "distilled") name (codes "promotion.yaml")) files)
        (read (file_of yaml tools root (codes "distilled") name (codes "template.yaml")) files)

  -- `load_promoted`
  unfoldable pub load_promoted : Text → Files → Result Exc (DistilledSkill × PromotionRecord)
  unfolding safe_name
  load_promoted name files = loaded_promoted files (safe_name name)

  -- `list_promoted`
  unfoldable pub list_promoted : Files → List Text
  list_promoted files = listed yaml tools root (codes "distilled") files
