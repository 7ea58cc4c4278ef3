-- ===== src/Memory/Gateway.antt =====
-- memory/agent.py, `MemoryAgent`: the gateway through which learned content enters the store. The
-- client is the in-memory one; the digest of a text is a parameter.
use lottie_orchestrator.Prelude.{
  ℕ, String, Option, none, some, Bool, true, false, ◌&&◌, List, [], ◌∷◌, ◌++◌, any, if◌then◌else◌,
}
use lottie_orchestrator.Prelude.Sort.{sort_by}
use lottie_orchestrator.Prelude.Texts.{Text, text_leb}
use lottie_orchestrator.Prelude.Walks.{text_eq}
use lottie_orchestrator.Exec.{Exc, raised, Result, ok, err, Exec, pure, ◌>>=◌}
use lottie_orchestrator.Governance.Ledger.{Ledger, log}
use lottie_orchestrator.Security.Screens.{Tools, memory_gate, check}
use lottie_orchestrator.Memory.Records.{
  MemoryTier, MemoryOrigin, MemoryStatus, MemoryRecord, MemoryQuery, MemoryPatch,
}
use lottie_orchestrator.Memory.Client
use lottie_orchestrator.Memory.Client.{Client}
use lottie_orchestrator.Memory.Reflection.{DeltaOp, MemoryDelta}

-- what `apply` changes
pub record Store : Type 0 where
  pub client : Client
  pub ledger : Ledger
  pub now : ℕ

-- a short reason, without content: the exception of the gate, or a delta without its target
pub data Reason : Type 0 where
  refused : Exc → Reason
  update_without_target deprecate_without_target : Reason

pub record ApplyResult : Type 0 where
  pub applied_ids : List Text
  pub rejected : List Reason

-- the arguments of `apply` but for the deltas
pub record Provenance : Type 0 where
  pub namespace : Text
  pub source_agent : String
  pub origin : MemoryOrigin
  pub run_id : Option String
  pub tier : MemoryTier

abbrev pub no_patch : MemoryPatch
no_patch = record { content = none; tags = none; status = none; metadata = none }

abbrev pub everything : Text → ℕ → MemoryQuery
everything namespace limit = record {
  text = [];
  namespace = namespace;
  tier = none;
  tags = [];
  limit = limit;
}

abbrev is_active : MemoryStatus → Bool
is_active MemoryStatus.active = true
is_active MemoryStatus.deprecated = false

abbrev pub first_with : Text → List MemoryRecord → Option MemoryRecord
first_with content [] = none
first_with content (r ∷ rs) =
    let rest = first_with content rs in
    if text_eq r.content content && is_active r.status then some r else rest

-- `_find_by_content`
unfoldable pub find_by_content : Text → Text → Client → Option MemoryRecord
find_by_content namespace content c =
    first_with content (Client.recall (everything namespace 1000) c)

-- `sorted(set(a) | set(b))`
abbrev pub without_repeats : List Text → List Text
without_repeats [] = []
without_repeats (t ∷ ts) =
    let rest = without_repeats ts in if any (λ u. text_eq u t) ts then rest else t ∷ rest

unfoldable pub merged_tags : List Text → List Text → List Text
merged_tags a b = sort_by text_leb (without_repeats (a ++ b))

-- `updated.memory_id or target`
abbrev pub id_or : Text → Option Text → Text
id_or target none = target
id_or target (some []) = target
id_or target (some (c ∷ id)) = c ∷ id

abbrev pub not_found : Exc
not_found = raised "MemoryNotFoundError" ""

abbrev pub updated_id : Text → Option MemoryRecord × Client → Result Exc Text × Client
updated_id target (none, c) = (err not_found, c)
updated_id target (some r, c) = (ok (id_or target r.memory_id), c)

-- `self.memory.update(target, patch)`, and the id of what it returns
abbrev pub update_id : Text → MemoryPatch → Client → Result Exc Text × Client
update_id target p c = updated_id target (Client.update target p c)

abbrev pub with_client : Store → Result Exc Text × Client → Result Exc Text × Store
with_client s (r, c) = (r, record s { client = c })

abbrev pub as_record : MemoryDelta → Provenance → MemoryRecord
as_record d p = record {
  content = d.content;
  tier = p.tier;
  namespace = p.namespace;
  tags = d.tags;
  metadata = [];
  memory_id = none;
  origin = p.origin;
  source_agent = some p.source_agent;
  run_id = p.run_id;
  status = MemoryStatus.active;
  created_at = none;
  updated_at = none;
}

abbrev pub remembered : Text × Client → Result Exc Text × Client
remembered (id, c) = (ok id, c)

-- the tags of an old note with the same text; it is a new one if the old one has no id
abbrev pub fold_into :
    MemoryDelta → Provenance → MemoryRecord → Option Text → Client → Result Exc Text × Client
fold_into d p existing none c = remembered (Client.remember (as_record d p) c)
fold_into d p existing (some id) c =
    update_id id (record no_patch { tags = some (merged_tags existing.tags d.tags) }) c

abbrev pub fold_or_remember :
    MemoryDelta → Provenance → Option MemoryRecord → Client → Result Exc Text × Client
fold_or_remember d p none c = remembered (Client.remember (as_record d p) c)
fold_or_remember d p (some existing) c = fold_into d p existing existing.memory_id c

-- what the search for an old note gives, which is left out for an event log
abbrev pub duplicate : MemoryDelta → Provenance → MemoryTier → Client → Option MemoryRecord
duplicate d p MemoryTier.episodic c = none
duplicate d p _ c = find_by_content p.namespace d.content c

-- `_apply_add`
unfoldable pub apply_add : MemoryDelta → Provenance → Client → Result Exc Text × Client
unfolding find_by_content merged_tags
apply_add d p c = fold_or_remember d p (duplicate d p p.tier c) c

-- `delta.content or None` and `delta.tags or None`
abbrev pub or_none {ℓ} : {A : Type ℓ} → List A → Option (List A)
or_none [] = none
or_none (x ∷ xs) = some (x ∷ xs)

module _ (tools : Tools) (sha256 : Text → Text) where
  -- `_write_apply_audit`
  unfoldable pub write_apply_audit : String → Text → String → Option Exc → Store → Store
  write_apply_audit agent content status error s = record s {
    ledger =
        log
          (record {
            ts = s.now;
            agent = agent;
            provider = none;
            status = status;
            root = true;
            input_sha256 = sha256 content;
            output_sha256 = none;
            input_tokens = 0;
            output_tokens = 0;
            cost_usd = 0;
            latency_ms = 0;
            error = error;
          })
          s.ledger;
  }

  abbrev pub applied : Text → ApplyResult → ApplyResult
  applied id r = record r { applied_ids = r.applied_ids ++ id ∷ [] }

  abbrev pub rejected : Reason → ApplyResult → ApplyResult
  rejected reason r = record r { rejected = r.rejected ++ reason ∷ [] }

  -- the audit record and the id, if the client did not raise
  abbrev pub note_applied :
      String
      → Text
      → String
      → ApplyResult
      → Result Exc Text × Store
      → Result Exc ApplyResult × Store
  note_applied agent content status r (err e, s) = (err e, s)
  note_applied agent content status r (ok id, s) =
      (ok (applied id r), write_apply_audit agent content status none s)

  -- an update that has passed the gate
  abbrev pub apply_update :
      MemoryDelta → Provenance → ApplyResult → Option Text → Exec Exc Store ApplyResult
  apply_update d p r none s = (ok (rejected update_without_target r), s)
  apply_update d p r (some target) s =
      let patch = record no_patch { content = or_none d.content; tags = or_none d.tags } in
      note_applied p.source_agent d.content "memory_write" r
        (with_client s (update_id target patch s.client))

  abbrev pub apply_deprecate : Provenance → ApplyResult → Option Text → Exec Exc Store ApplyResult
  apply_deprecate p r none s = (ok (rejected deprecate_without_target r), s)
  apply_deprecate p r (some target) s =
      let patch = record no_patch { status = some MemoryStatus.deprecated } in
      note_applied p.source_agent [] "memory_deprecate" r
        (with_client s (update_id target patch s.client))

  -- the gate of an addition or an update, and what follows it
  abbrev pub gated :
      MemoryDelta
      → Provenance
      → ApplyResult
      → Option Exc
      → Exec Exc Store ApplyResult
      → Exec Exc Store ApplyResult
  gated d p r none next s = next s
  gated d p r (some exc) next s = (
    ok (rejected (refused exc) r),
    write_apply_audit p.source_agent d.content "memory_rejected" (some exc) s,
  )

  -- one round of the loop of `apply`
  unfoldable pub apply_delta :
      MemoryDelta → DeltaOp → Provenance → ApplyResult → Exec Exc Store ApplyResult
  unfolding apply_add write_apply_audit check
  apply_delta d DeltaOp.add p r = gated d p r (check tools memory_gate d.content) (λ s.
      note_applied p.source_agent d.content "memory_write" r
        (with_client s (apply_add d p s.client)))
  apply_delta d DeltaOp.update p r =
      gated d p r (check tools memory_gate d.content) (apply_update d p r d.target_id)
  apply_delta d DeltaOp.deprecate p r = apply_deprecate p r d.target_id

  unfoldable pub apply_from :
      List MemoryDelta → Provenance → ApplyResult → Exec Exc Store ApplyResult
  unfolding apply_delta
  apply_from [] p r = pure r
  apply_from (d ∷ ds) p r = apply_delta d d.op p r >>= apply_from ds p

  -- `apply`
  unfoldable pub apply : List MemoryDelta → Provenance → Exec Exc Store ApplyResult
  unfolding apply_from
  apply deltas p = apply_from deltas p (record { applied_ids = []; rejected = [] })
