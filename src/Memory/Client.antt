-- ===== src/Memory/Client.antt =====
-- memory/mock.py: the deterministic in-memory client. A hit is its record; the score is always 1.
use lottie_orchestrator.Prelude.{
  ℕ, ◌+◌, Option, none, some, Bool, true, false, ◌&&◌, ◌||◌, List, [], ◌∷◌, ◌++◌, keep, any, take,
  if◌then◌else◌,
}
use lottie_orchestrator.Prelude.Texts.{Text}
use lottie_orchestrator.Prelude.Walks.{decimal, text_eq, lower, is_empty}
use lottie_orchestrator.Memory.Records.{MemoryTier, MemoryRecord, MemoryQuery, MemoryPatch}

pub record Client : Type 0 where
  pub records : List MemoryRecord
  pub counter : ℕ

-- `f"{record.namespace}-{self._counter}"`
unfoldable pub format_id : Text → ℕ → Text
unfolding decimal
format_id namespace n = namespace ++ b'-' ∷ decimal n

-- `remember`
unfoldable pub remember : MemoryRecord → Client → Text × Client
unfolding format_id
remember r c =
    let memory_id = format_id r.namespace c.counter in
    (
      memory_id,
      record {
        records = c.records ++ record r { memory_id = some memory_id } ∷ [];
        counter = c.counter + 1;
      },
    )

abbrev same_tier : MemoryTier → MemoryTier → Bool
same_tier MemoryTier.working MemoryTier.working = true
same_tier MemoryTier.episodic MemoryTier.episodic = true
same_tier MemoryTier.semantic MemoryTier.semantic = true
same_tier MemoryTier.procedural MemoryTier.procedural = true
same_tier _ _ = false

abbrev of_tier : Option MemoryTier → MemoryTier → Bool
of_tier none t = true
of_tier (some u) t = same_tier t u

-- match-any, and no tags match all
abbrev of_tags : List Text → List Text → Bool
of_tags [] tags = true
of_tags (t ∷ ts) tags = any (λ w. any (λ x. text_eq x w) tags) (t ∷ ts)

abbrev starts : Text → Text → Bool
starts [] s = true
starts (p ∷ ps) [] = false
starts (p ∷ ps) (c ∷ s) = text_eq (p ∷ []) (c ∷ []) && starts ps s

-- `needle in text`
abbrev occurs : Text → Text → Bool
occurs needle [] = is_empty needle
occurs needle (c ∷ s) = starts needle (c ∷ s) || occurs needle s

-- the four tests of `recall`
unfoldable pub matches : MemoryQuery → MemoryRecord → Bool
matches q r =
    text_eq r.namespace q.namespace
    && (of_tier q.tier r.tier
        && (of_tags q.tags r.tags
            && (is_empty (lower q.text) || occurs (lower q.text) (lower r.content))))

-- `recall`
unfoldable pub recall : MemoryQuery → Client → List MemoryRecord
unfolding matches
recall q c = take q.limit (keep (matches q) c.records)

abbrev pub or_same : {A : Type 0} → A → Option A → A
or_same a none = a
or_same a (some b) = b

-- `model_copy(update=patch.model_dump(exclude_none=True))`
unfoldable pub patched : MemoryPatch → MemoryRecord → MemoryRecord
patched p r = record r {
  content = or_same r.content p.content;
  tags = or_same r.tags p.tags;
  status = or_same r.status p.status;
  metadata = or_same r.metadata p.metadata;
}

abbrev pub has_id : Text → Option Text → Bool
has_id memory_id none = false
has_id memory_id (some m) = text_eq m memory_id

abbrev pub keep_head :
    MemoryRecord
    → Option (MemoryRecord × List MemoryRecord)
    → Option (MemoryRecord × List MemoryRecord)
keep_head r none = none
keep_head r (some (found, rest)) = some (found, r ∷ rest)

-- the loop of `update`: the record that was changed and the list with it, or none
unfoldable pub update_in :
    Text → MemoryPatch → List MemoryRecord → Option (MemoryRecord × List MemoryRecord)
unfolding patched
update_in memory_id p [] = none
update_in memory_id p (r ∷ rs) =
    let rest = keep_head r (update_in memory_id p rs) in
    if has_id memory_id r.memory_id then some (patched p r, patched p r ∷ rs) else rest

abbrev pub stored :
    Client → Option (MemoryRecord × List MemoryRecord) → Option MemoryRecord × Client
stored c none = (none, c)
stored c (some (r, rs)) = (some r, record c { records = rs })

-- `update`; none is its `MemoryNotFoundError`
unfoldable pub update : Text → MemoryPatch → Client → Option MemoryRecord × Client
unfolding update_in
update memory_id p c = stored c (update_in memory_id p c.records)

-- the loop of `forget`
unfoldable pub forget_in : Text → List MemoryRecord → Bool × List MemoryRecord
forget_in memory_id [] = (false, [])
forget_in memory_id (r ∷ rs) =
    let rest = forget_in memory_id rs in
    if has_id memory_id r.memory_id then (true, rs) else (rest.0, r ∷ rest.1)

-- `forget`
unfoldable pub forget : Text → Client → Bool × Client
unfolding forget_in
forget memory_id c =
    let (found, rs) = forget_in memory_id c.records in (found, record c { records = rs })
