-- ===== src/Serve/Paging.antt =====
-- serve/pagination.py: a client that asks page by page gets every item once.
use lottie_orchestrator.Prelude.{
  ℕ, zero, suc, ◌+◌, ◌*◌, ◌≤◌, ◌≡◌, refl, sym, ap, ◌∙◌, Option, none, some, List, [], ◌∷◌, ◌++◌,
  length, take, drop, take-append-drop, append_assoc, append_nil, arith, min, max, max,
}
use lottie_orchestrator.Prelude.Texts.{Text}
use lottie_orchestrator.Serve.Pages.{
  ℤ, pos, negsuc, max_limit, clamp_limit, parsed, page_bounds, slice_page,
}

-- the first pages of a limit, one after the other
unfoldable pub pages {ℓ} : {A : Type ℓ} → ℕ → List A → ℕ → ℕ → List A
pages zero items limit offset = []
pages (suc k) items limit offset =
    slice_page items (some limit) offset ++ pages k items limit (offset + limit)

drop_nil {ℓ} : {A : Type ℓ} (n : ℕ) → drop {A = A} n [] ≡ []
drop_nil zero = refl
drop_nil (suc n) = refl

drop-drop {ℓ} : {A : Type ℓ} (m n k : ℕ) (xs : List A) → k ≡ m + n → drop n (drop m xs) ≡ drop k xs
drop-drop zero n k xs h = ap (λ j. drop j xs) (omega arith)
drop-drop (suc m) n k [] h = drop_nil n ∙ sym (drop_nil k)
drop-drop (suc m) n zero (x ∷ xs) h = absurd (omega arith)
drop-drop (suc m) n (suc k) (x ∷ xs) h = drop-drop m n k xs (omega arith)

drop_all {ℓ} : {A : Type ℓ} (n : ℕ) (xs : List A) → length xs ≤ n → drop n xs ≡ []
drop_all n [] h = drop_nil n
drop_all zero (x ∷ xs) h = absurd (omega arith)
drop_all (suc n) (x ∷ xs) h = drop_all n xs (omega arith)

pages-append {ℓ} :
    {A : Type ℓ} (k limit offset : ℕ) (items : List A)
    → pages k items limit offset ++ drop (offset + k * limit) items ≡ drop offset items
unfolding pages slice_page
pages-append zero limit offset items = ap (λ j. drop j items) (omega arith)
pages-append (suc k) limit offset items =
    append_assoc (take limit (drop offset items)) (pages k items limit (offset + limit)) _
    ∙ ap
        (λ j.
          take limit (drop offset items) ++ (pages k items limit (offset + limit) ++ drop j items))
        (omega arith)
    ∙ ap (λ t. take limit (drop offset items) ++ t)
        (pages-append k limit (offset + limit) items
          ∙ sym (drop-drop offset limit (offset + limit) items refl))
    ∙ take-append-drop limit (drop offset items)

clamp_limit-bounds : (i : Option ℤ) (l : ℕ) → clamp_limit i ≡ some l → (1 ≤ l) × (l ≤ max_limit)
clamp_limit-bounds none l h = cc
clamp_limit-bounds (some (pos n)) l h =
    let same : max 1 (min n max_limit) ≡ l = cc in (omega arith, omega arith)
clamp_limit-bounds (some (negsuc n)) l h = let same : 1 ≡ l = cc in (omega arith, omega arith)

-- Where a request asks for a limit, the one that it gets is at least 1 and at most the ceiling, and
-- enough pages of that size, one after the other, are the whole list.
pub pages_complete {ℓ} :
    {A : Type ℓ} (limit offset : Option Text) (l k : ℕ) (items : List A)
    → (page_bounds limit offset).0 ≡ some l
    → length items ≤ k * l
    → (1 ≤ l) × (l ≤ max_limit) × (pages k items l 0 ≡ items)
unfolding page_bounds
pages_complete limit offset l k items h e =
    let (low, high) = clamp_limit-bounds (parsed limit none) l h in
    let all = pages-append k l 0 items in
    (
      low,
      high,
      sym (append_nil (pages k items l 0))
          ∙ ap (λ t. pages k items l 0 ++ t) (sym (drop_all (0 + k * l) items (omega arith)))
          ∙ all,
    )
