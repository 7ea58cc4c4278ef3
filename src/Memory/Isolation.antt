-- ===== src/Memory/Isolation.antt =====
-- memory/mock.py: a namespace sees its own records only, whatever is written to the others.
use lottie_orchestrator.Prelude.{
  ℕ, zero, suc, ◌≡◌, ◌≢◌, refl, ap, ◌∙◌, inl, inr, some, Bool, true, false, ◌&&◌, List, [], ◌∷◌,
  ◌++◌, All, keep, take, keep-append, append_nil, Bool-cases, if◌then◌else◌,
}
use lottie_orchestrator.Prelude.Walks.{text_eq_iff}
use lottie_orchestrator.Memory.Records.{MemoryRecord, MemoryQuery}
use lottie_orchestrator.Memory.Client.{Client, format_id, remember, matches, recall}

-- several records, one after the other
unfoldable pub remember_all : List MemoryRecord → Client → Client
remember_all [] c = c
remember_all (r ∷ rs) c = remember_all rs (remember r c).1

and_left : (a b : Bool) → (a && b) ≡ true → a ≡ true
and_left true b h = refl
and_left false b h = h

take-All {κ} :
    (P : MemoryRecord → Type κ) (n : ℕ) (rs : List MemoryRecord) → All P rs → All P (take n rs)
take-All P zero rs h = tt
take-All P (suc n) [] h = tt
take-All P (suc n) (r ∷ rs) h = (h.0, take-All P n rs h.1)

module _ (q : MemoryQuery) where
  abbrev pub InNamespace : MemoryRecord → Type 0
  InNamespace r = r.namespace ≡ q.namespace

  matches-InNamespace : (r : MemoryRecord) → matches q r ≡ true → InNamespace r
  unfolding matches
  matches-InNamespace r h = (text_eq_iff r.namespace q.namespace).0 (and_left _ _ h)

  keep-InNamespace : (rs : List MemoryRecord) → All InNamespace (keep (matches q) rs)
  keep-InNamespace [] = tt
  keep-InNamespace (r ∷ rs) = elim (Bool-cases (matches q r)) [
    | inl e ↦ rw e (matches-InNamespace r e, keep-InNamespace rs)
    | inr e ↦ rw e (keep-InNamespace rs)
  ]

  other_namespace : (r : MemoryRecord) → r.namespace ≢ q.namespace → matches q r ≡ false
  other_namespace r h = elim (Bool-cases (matches q r)) [
    | inl e ↦ absurd (h (matches-InNamespace r e))
    | inr e ↦ e
  ]

  remember_elsewhere :
      (r : MemoryRecord) (c : Client)
      → r.namespace ≢ q.namespace
      → keep (matches q) (remember r c).1.records ≡ keep (matches q) c.records
  unfolding remember
  remember_elsewhere r c h =
      let stored : MemoryRecord = record r { memory_id = some (format_id r.namespace c.counter) } in
      keep-append (matches q) c.records (stored ∷ [])
      ∙ ap (λ b. keep (matches q) c.records ++ (if b then stored ∷ [] else []))
          (other_namespace stored h)
      ∙ append_nil (keep (matches q) c.records)

  remember_all_elsewhere :
      (rs : List MemoryRecord) (c : Client)
      → All (λ r. r.namespace ≢ q.namespace) rs
      → keep (matches q) (remember_all rs c).records ≡ keep (matches q) c.records
  unfolding remember_all
  remember_all_elsewhere [] c hs = refl
  remember_all_elsewhere (r ∷ rs) c hs =
      remember_all_elsewhere rs (remember r c).1 hs.1 ∙ remember_elsewhere r c hs.0

  -- What a namespace recalls is its own, and records written to other namespaces, however many and
  -- whatever they say, do not change it.
  pub recall_isolated :
      (rs : List MemoryRecord) (c : Client)
      → All (λ r. r.namespace ≢ q.namespace) rs
      → (recall q (remember_all rs c) ≡ recall q c) × All InNamespace (recall q c)
  unfolding recall
  recall_isolated rs c hs = (
    ap (take q.limit) (remember_all_elsewhere rs c hs),
    take-All InNamespace q.limit (keep (matches q) c.records) (keep-InNamespace c.records),
  )
