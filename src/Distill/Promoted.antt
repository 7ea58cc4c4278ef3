-- ===== src/Distill/Promoted.antt =====
-- distill/store.py: what a promoted skill went through.
use lottie_orchestrator.Prelude.{◌≡◌, none, some, true, is_nonempty}
use lottie_orchestrator.Prelude.Texts.{Text, codes}
use lottie_orchestrator.Exec.{Exc, Result, ok, err}
use lottie_orchestrator.Files.{FilePath, Files, read}
use lottie_orchestrator.Security.Screens.{Tools}
use lottie_orchestrator.Security.Clean.{IsAcceptable, HasNoSecret}
use lottie_orchestrator.Distill.Template.{DistilledSkill}
use lottie_orchestrator.Distill.Store.{DistillProvenance, Yaml, screened_text, file_of, load_draft}

module _ (yaml : Yaml) (tools : Tools) (root : FilePath) where
  -- What stands behind a promoted skill: the draft that was read and the capability that it was given;
  -- the content as it ships has passed the gate; the template is that content, and the draft is gone.
  pub record Promoted (name capability : Text) (files files' : Files) : Type 0 where
    pub skill : DistilledSkill
    pub prov : DistillProvenance
    pub drafted : load_draft yaml tools root name files ≡ ok (skill, prov)
    pub declared : is_nonempty capability ≡ true
    pub acceptable :
        IsAcceptable tools (screened_text skill) × HasNoSecret tools (screened_text skill)
    pub shipped :
        read (file_of yaml tools root (codes "distilled") name (codes "template.yaml")) files'
        ≡ some (yaml.dump_skill (record skill { capability = some capability }))
    pub gone : (f : Text) → read (file_of yaml tools root (codes "draft") name f) files' ≡ none

  -- what the check of a name gives
  data Safe (name : Text) : Result Exc Text → Type 0 where
    safe : Safe name (ok name)
    unsafe : {e : Exc} → Safe name (err e)
