-- ===== src/Core/Positions.antt =====
-- core/middleware.py: a chain is accepted exactly when no two modules claim one position.
use lottie_orchestrator.Prelude.{
  ℕ, ◌≡◌, ◌≢◌, ◌≤◌, ◌<◌, refl, sym, ◌↔◌, inl, inr, Option, none, some, Bool, List, [], ◌∷◌, ◌==◌,
  All, arith, String, Bool-cases,
}
use lottie_orchestrator.Prelude.Sort.{
  insert_by, insert_by-All, sort_by, sort_by-All, by_key, sort_by-IsSortedBy, IsSortedBy,
}
use lottie_orchestrator.Exec.{Exc}
use lottie_orchestrator.Runtime.Pipeline.{Middleware, sort_chain}
use lottie_orchestrator.Core.Chain.{seen_at, reject_clash, reject_from, reject_order_conflicts}

-- the orders seen so far are not this one
abbrev Unseen : ℕ → List (ℕ × String) → Type 0
Unseen order seen = All (λ p. p.0 ≢ order) seen

seen_at-none :
    (order : ℕ) (seen : List (ℕ × String)) → seen_at order seen ≡ none ↔ Unseen order seen
unfolding seen_at
seen_at-none order [] = (λ _. tt, λ _. refl)
seen_at-none order ((k, name) ∷ seen) = elim (Bool-cases (k == order)) [
  | inl e ↦ rw e (λ h. cc, λ h. absurd (h.0 (ground arith)))
  | inr e ↦
      rw e
        (λ h. (ground arith, (seen_at-none order seen).0 h), λ h. (seen_at-none order seen).1 h.1)
]

module _ {I O U : Type 0} where
  -- No two members of the chain have one order.
  abbrev pub Distinct : List (Middleware I O U) → Type 0
  Distinct [] = Unit
  Distinct (m ∷ ms) = All (λ n. m.order ≢ n.order) ms × Distinct ms

  reject_clash-none :
      (m : Middleware I O U) (o : Option String) (rest : Option Exc)
      → reject_clash m o rest ≡ none ↔ ((o ≡ none) × (rest ≡ none))
  reject_clash-none m none rest = (λ h. (refl, h), λ h. h.1)
  reject_clash-none m (some clash) rest = (λ h. cc, λ h. cc (h.0))

  All-pair :
      (P Q : Middleware I O U → Type 0) (ms : List (Middleware I O U))
      → All (λ m. P m × Q m) ms ↔ (All P ms × All Q ms)
  All-pair P Q [] = (λ h. (tt, tt), λ h. tt)
  All-pair P Q (m ∷ ms) =
      let (to, from) = All-pair P Q ms in
      (λ h. ((h.0.0, (to h.1).0), (h.0.1, (to h.1).1)), λ h. ((h.0.0, h.1.0), from (h.0.1, h.1.1)))

  reject_from-none :
      (seen : List (ℕ × String)) (ms : List (Middleware I O U))
      → reject_from seen ms ≡ none ↔ (All (λ m. Unseen m.order seen) ms × Distinct ms)
  unfolding reject_from
  reject_from-none seen [] = (λ _. (tt, tt), λ _. refl)
  reject_from-none seen (m ∷ ms) =
      let (clash_to, clash_from) =
        reject_clash-none m (seen_at m.order seen) (reject_from ((m.order, m.name) ∷ seen) ms) in
      let (unseen_to, unseen_from) = seen_at-none m.order seen in
      let (rest_to, rest_from) = reject_from-none ((m.order, m.name) ∷ seen) ms in
      let (pair_to, pair_from) = All-pair (λ n. m.order ≢ n.order) (λ n. Unseen n.order seen) ms in
      (
        λ h.
            let (free, rest) = clash_to h in
            let (all, distinct) = rest_to rest in
            let (differ, unseen) = pair_to all in ((unseen_to free, unseen), (differ, distinct)),
        λ h. clash_from (unseen_from h.0.0, rest_from (pair_from (h.1.0, h.0.1), h.1.1)),
      )

  -- A chain is accepted exactly when its members have different orders.
  pub reject_order_conflicts-none :
      (ms : List (Middleware I O U)) → reject_order_conflicts ms ≡ none ↔ Distinct ms
  unfolding reject_order_conflicts
  reject_order_conflicts-none ms =
      let (to, from) = reject_from-none [] ms in (λ h. (to h).1, λ d. from (All-always ms, d))
    where
      All-always : (ns : List (Middleware I O U)) → All (λ m. Unseen m.order []) ns
      All-always [] = tt
      All-always (n ∷ ns) = (tt, All-always ns)

  abbrev by_order : Middleware I O U → Middleware I O U → Bool
  by_order = by_key (λ m. m.order)

  insert_by-Distinct :
      (m : Middleware I O U) (ms : List (Middleware I O U))
      → All (λ n. m.order ≢ n.order) ms
      → Distinct ms
      → Distinct (insert_by by_order m ms)
  unfolding insert_by
  insert_by-Distinct m [] a d = (tt, tt)
  insert_by-Distinct m (n ∷ ms) a d =
      let kept = insert_by-All by_order (λ k. n.order ≢ k.order) m ms (λ e. a.0 (sym e)) d.0 in
      elim (Bool-cases (by_order m n)) [
        | inl e ↦ rw e (a, d)
        | inr e ↦ rw e (kept, insert_by-Distinct m ms a.1 d.1)
      ]

  sort_by-Distinct : (ms : List (Middleware I O U)) → Distinct ms → Distinct (sort_by by_order ms)
  unfolding sort_by
  sort_by-Distinct [] d = tt
  sort_by-Distinct (m ∷ ms) d =
      insert_by-Distinct m (sort_by by_order ms)
        (sort_by-All by_order (λ n. m.order ≢ n.order) ms d.0) (sort_by-Distinct ms d.1)

  -- Every member stands at an earlier position than all behind it.
  abbrev pub IsStrict : List (Middleware I O U) → Type 0
  IsStrict [] = Unit
  IsStrict (m ∷ ms) = All (λ n. m.order < n.order) ms × IsStrict ms

  All-lt :
      (k : ℕ) (ms : List (Middleware I O U))
      → All (λ n. k ≤ n.order) ms
      → All (λ n. k ≢ n.order) ms
      → All (λ n. k < n.order) ms
  All-lt k [] h d = tt
  All-lt k (m ∷ ms) h d = (ground arith, All-lt k ms h.1 d.1)

  sorted-IsStrict :
      (ms : List (Middleware I O U)) → IsSortedBy (λ m. m.order) ms → Distinct ms → IsStrict ms
  sorted-IsStrict [] h d = tt
  sorted-IsStrict (m ∷ ms) h d = (All-lt m.order ms h.0 d.0, sorted-IsStrict ms h.1 d.1)

  -- The chain that a pipeline makes of accepted modules has one module at each position, in strictly
  -- rising order, whatever order they were declared in.
  pub sort_chain-IsStrict :
      (ms : List (Middleware I O U)) → reject_order_conflicts ms ≡ none → IsStrict (sort_chain ms)
  unfolding sort_chain
  sort_chain-IsStrict ms h =
      sorted-IsStrict (sort_by by_order ms) (sort_by-IsSortedBy (λ m. m.order) ms)
        (sort_by-Distinct ms ((reject_order_conflicts-none ms).0 h))
