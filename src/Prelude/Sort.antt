-- ===== src/Prelude/Sort.antt =====
-- `sorted(xs, key=...)`: Python's sort is stable. Here it goes by insertion, with the order of the
-- keys given as a Boolean.
use Prim.Native.Nat.{ℕ, ◌+◌, ◌≤◌}
use mathlib.Core.Path.{◌≡◌, refl, ap, ◌∙◌}
use mathlib.Core.Logic.{inl, inr}
use mathlib.Core.Bool.{Bool, true, false, ◌||◌}
use mathlib.Core.List.{List, [], ◌∷◌}
use native.Mathlib.Omega.{arith}
use lottie_orchestrator.Prelude.Tests.{leb, leb→le, Bool-cases, if◌then◌else◌}
use lottie_orchestrator.Prelude.Lists.{All, any, sum_of}

module _ {ℓ} {A : Type ℓ} (le : A → A → Bool) where
  unfoldable pub insert_by : A → List A → List A
  insert_by x [] = x ∷ []
  insert_by x (y ∷ ys) = let rest = insert_by x ys in if le x y then x ∷ y ∷ ys else y ∷ rest

  unfoldable pub sort_by : List A → List A
  unfolding insert_by
  sort_by [] = []
  sort_by (x ∷ xs) = insert_by x (sort_by xs)

  pub insert_by-All {κ} :
      (P : A → Type κ) (x : A) (xs : List A) → P x → All P xs → All P (insert_by x xs)
  unfolding insert_by
  insert_by-All P x [] h hs = (h, tt)
  insert_by-All P x (y ∷ ys) h hs = go (le x y) (insert_by-All P x ys h hs.1)
    where
      go :
          (b : Bool) → All P (insert_by x ys) → All P (if b then x ∷ y ∷ ys else y ∷ insert_by x ys)
      go true r = (h, hs)
      go false r = (hs.0, r)

  pub sort_by-All {κ} : (P : A → Type κ) (xs : List A) → All P xs → All P (sort_by xs)
  unfolding sort_by
  sort_by-All P [] hs = tt
  sort_by-All P (x ∷ xs) hs = insert_by-All P x (sort_by xs) hs.0 (sort_by-All P xs hs.1)

  All-of-insert_by {κ} :
      (P : A → Type κ) (x : A) (xs : List A) → All P (insert_by x xs) → P x × All P xs
  unfolding insert_by
  All-of-insert_by P x [] hs = hs
  All-of-insert_by P x (y ∷ ys) hs = go (le x y) (All-of-insert_by P x ys) hs
    where
      go :
          (b : Bool)
          → (All P (insert_by x ys) → P x × All P ys)
          → All P (if b then x ∷ y ∷ ys else y ∷ insert_by x ys)
          → P x × All P (y ∷ ys)
      go true f h = h
      go false f h = ((f h.1).0, (h.0, (f h.1).1))

  pub All-of-sort_by {κ} : (P : A → Type κ) (xs : List A) → All P (sort_by xs) → All P xs
  unfolding sort_by
  All-of-sort_by P [] hs = tt
  All-of-sort_by P (x ∷ xs) hs =
      let h = All-of-insert_by P x (sort_by xs) hs in (h.0, All-of-sort_by P xs h.1)

  sum_of-insert_by :
      (f : A → ℕ) (x : A) (xs : List A) → sum_of f (insert_by x xs) ≡ f x + sum_of f xs
  unfolding insert_by
  sum_of-insert_by f x [] = refl
  sum_of-insert_by f x (y ∷ ys) = ground (arith, sum_of-insert_by f x ys)

  -- Sorting keeps every total over the elements, whatever is counted.
  pub sum_of-sort_by : (f : A → ℕ) (xs : List A) → sum_of f (sort_by xs) ≡ sum_of f xs
  unfolding sort_by
  sum_of-sort_by f [] = refl
  sum_of-sort_by f (x ∷ xs) = omega (arith, sum_of-insert_by f x (sort_by xs), sum_of-sort_by f xs)

module _ {ℓ} {A : Type ℓ} (le : A → A → Bool) (p : A → Bool) where
  any-insert_by : (x : A) (xs : List A) → any p (insert_by le x xs) ≡ (p x || any p xs)
  unfolding insert_by
  any-insert_by x [] = refl
  any-insert_by x (y ∷ ys) = ground (arith, any-insert_by x ys)

  -- Sorting keeps whether a test holds of some element.
  pub any-sort_by : (xs : List A) → any p (sort_by le xs) ≡ any p xs
  unfolding sort_by
  any-sort_by [] = refl
  any-sort_by (x ∷ xs) = any-insert_by x (sort_by le xs) ∙ ap (λ t. p x || t) (any-sort_by xs)

module _ {ℓ} {A : Type ℓ} (key : A → ℕ) where
  -- `key=lambda x: key(x)` for a key that is a number
  abbrev pub by_key : A → A → Bool
  by_key x y = leb (key x) (key y)

  -- Every element's key is at most those of all that stand behind it.
  abbrev pub IsSortedBy : List A → Type 0
  IsSortedBy [] = Unit
  IsSortedBy (x ∷ xs) = All (λ y. key x ≤ key y) xs × IsSortedBy xs

  All-le_trans : (m n : ℕ) (xs : List A) → m ≤ n → All (λ y. n ≤ key y) xs → All (λ y. m ≤ key y) xs
  All-le_trans m n [] h hs = tt
  All-le_trans m n (x ∷ xs) h hs = (omega arith, All-le_trans m n xs h hs.1)

  module _ (le : A → A → Bool) (ordered : (x y : A) → le x y ≡ true → key x ≤ key y)
      (inverted : (x y : A) → le x y ≡ false → key y ≤ key x) where
    insert_by-IsSortedBy : (x : A) (xs : List A) → IsSortedBy xs → IsSortedBy (insert_by le x xs)
    unfolding insert_by
    insert_by-IsSortedBy x [] h = (tt, tt)
    insert_by-IsSortedBy x (y ∷ ys) h = elim (Bool-cases (le x y)) [
      | inl e ↦ rw e ((ordered x y e, All-le_trans (key x) (key y) ys (ordered x y e) h.0), h)
      | inr e ↦ rw e (
        insert_by-All le (λ z. key y ≤ key z) x ys (inverted x y e) h.0,
        insert_by-IsSortedBy x ys h.1,
      )
    ]

    -- A sort whose order agrees with the keys sorts by them.
    pub sort_by-IsSortedBy_of : (xs : List A) → IsSortedBy (sort_by le xs)
    unfolding sort_by
    sort_by-IsSortedBy_of [] = tt
    sort_by-IsSortedBy_of (x ∷ xs) =
        insert_by-IsSortedBy x (sort_by le xs) (sort_by-IsSortedBy_of xs)

  pub sort_by-IsSortedBy : (xs : List A) → IsSortedBy (sort_by by_key xs)
  sort_by-IsSortedBy = sort_by-IsSortedBy_of by_key (λ x y h. leb→le _ _ h) (λ x y h. ground arith)
