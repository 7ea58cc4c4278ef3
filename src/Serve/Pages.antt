-- ===== src/Serve/Pages.antt =====
-- serve/pagination.py: limit and offset of the list endpoints.
use lottie_orchestrator.Prelude.{
  ℕ, ◌+◌, ◌-◌, ◌*◌, min, max, Option, none, some, Bool, true, false, ◌&&◌, List, [], ◌∷◌, ◌==◌, leb,
  take, drop, if◌then◌else◌,
}
use lottie_orchestrator.Prelude.Texts.{Text}
use lottie_orchestrator.Prelude.Walks.{strip}

-- an integer: `pos n`, or `negsuc n` for -(n + 1)
pub data ℤ : Type 0 where
  pos negsuc : ℕ → ℤ

abbrev pub max_limit : ℕ
max_limit = 100

-- what a character is in a numeral
pub data Mark : Type 0 where
  digit : ℕ → Mark
  underscore other : Mark

abbrev pub mark : ℕ → Mark
mark c =
    if leb b'0' c && leb c b'9' then digit (c - b'0') else (if c == b'_' then underscore else other)

-- The digits of a numeral, with single underscores between them; `open` is whether one must follow.
unfoldable pub digits : Bool → ℕ → Text → Option ℕ
digits true acc [] = none
digits false acc [] = some acc
digits must acc (c ∷ s) = elim (mark c) [
  | digit d ↦ digits false (acc * 10 + d) s
  | underscore ↦ elim must [ Bool.true ↦ none | Bool.false ↦ digits true acc s ]
  | other ↦ none
]

abbrev pub negated : Option ℕ → Option ℤ
negated none = none
negated (some n) = some (if n == 0 then pos 0 else negsuc (n - 1))

abbrev pub unsigned : Option ℕ → Option ℤ
unsigned none = none
unsigned (some n) = some (pos n)

abbrev pub signed : Text → Option ℤ
signed [] = none
signed (c ∷ s) =
    if c == b'-'
    then negated (digits true 0 s)
    else (if c == b'+' then unsigned (digits true 0 s) else unsigned (digits true 0 (c ∷ s)))

-- `_int_or`, for a text: `int(raw)`, or the default where that raises
unfoldable pub int_or : Text → Option ℤ → Option ℤ
int_or raw default = elim (signed (strip raw)) [ none ↦ default | some i ↦ some i ]

-- `max(1, min(parsed, MAX_LIMIT))` and `max(0, parsed)`
abbrev pub clamp_limit : Option ℤ → Option ℕ
clamp_limit none = none
clamp_limit (some (pos n)) = some (max 1 (min n max_limit))
clamp_limit (some (negsuc n)) = some 1

abbrev pub clamp_offset : Option ℤ → ℕ
clamp_offset none = 0
clamp_offset (some (pos n)) = n
clamp_offset (some (negsuc n)) = 0

abbrev pub parsed : Option Text → Option ℤ → Option ℤ
parsed none default = default
parsed (some raw) default = int_or raw default

-- `page_bounds`, on the values of `limit` and `offset`
unfoldable pub page_bounds : Option Text → Option Text → Option ℕ × ℕ
unfolding int_or
page_bounds limit offset =
    (clamp_limit (parsed limit none), clamp_offset (parsed offset (some (pos 0))))

-- `slice_page`
unfoldable pub slice_page {ℓ} : {A : Type ℓ} → List A → Option ℕ → ℕ → List A
slice_page items none offset = drop offset items
slice_page items (some limit) offset = take limit (drop offset items)
