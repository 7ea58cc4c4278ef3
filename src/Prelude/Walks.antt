-- ===== src/Prelude/Walks.antt =====
-- What the code does with a text character by character. Case and white space are those of ASCII.
use lottie_orchestrator.Prelude.{
  zero, suc, ◌/◌, ◌%◌, ltb, ℕ, ◌+◌, ◌-◌, ◌≡◌, refl, ◌↔◌, Bool, true, false, ◌&&◌, ◌||◌, List, [],
  ◌∷◌, map, arith, leb, ◌==◌, if◌then◌else◌,
}
use lottie_orchestrator.Prelude.Texts.{Text}

abbrev pub text_eq : Text → Text → Bool
text_eq [] [] = true
text_eq [] (d ∷ t) = false
text_eq (c ∷ s) [] = false
text_eq (c ∷ s) (d ∷ t) = c == d && text_eq s t

pub text_eq_iff : (s t : Text) → (text_eq s t ≡ true) ↔ (s ≡ t)
text_eq_iff [] [] = (λ _. refl, λ _. refl)
text_eq_iff [] (d ∷ t) = (λ h. cc, λ h. cc)
text_eq_iff (c ∷ s) [] = (λ h. cc, λ h. cc)
text_eq_iff (c ∷ s) (d ∷ t) =
    (λ h. ground (arith, text_eq_iff s t), λ h. ground (arith, text_eq_iff s t))

unfoldable pub lower_char : ℕ → ℕ
lower_char c = if leb b'A' c && leb c b'Z' then c + 32 else c

upper_char : ℕ → ℕ
upper_char c = if leb b'a' c && leb c b'z' then c - 32 else c

-- `.lower()` and `.upper()`
unfoldable pub lower : Text → Text
unfolding lower_char
lower s = map lower_char s

unfoldable pub upper : Text → Text
unfolding upper_char
upper s = map upper_char s

abbrev pub is_space : ℕ → Bool
is_space c = c == 32 || (leb 9 c && leb c 13) || (leb 28 c && leb c 31)

abbrev pub is_empty : Text → Bool
is_empty [] = true
is_empty (_ ∷ _) = false

unfoldable pub lstrip : Text → Text
lstrip [] = []
lstrip (c ∷ s) = let rest = lstrip s in if is_space c then rest else c ∷ s

unfoldable pub rstrip : Text → Text
rstrip [] = []
rstrip (c ∷ s) = let rest = rstrip s in if is_space c && is_empty rest then [] else c ∷ rest

-- `.strip()`
unfoldable pub strip : Text → Text
unfolding lstrip rstrip
strip s = rstrip (lstrip s)

abbrev pub push_char : ℕ → List Text → List Text
push_char c [] = (c ∷ []) ∷ []
push_char c (p ∷ ps) = (c ∷ p) ∷ ps

-- `.split(sep)`, for a separator of one character
unfoldable pub split_on : ℕ → Text → List Text
split_on sep [] = [] ∷ []
split_on sep (c ∷ s) = let rest = split_on sep s in if c == sep then [] ∷ rest else push_char c rest

abbrev is_line_end : ℕ → Bool
is_line_end c = leb 10 c && leb c 13 || (leb 28 c && leb c 30) || c == 133 || c == 8232 || c == 8233

-- `.splitlines()`, from a line so far: whether a line is open, and whether a return came just before
abbrev lines_from : Bool → Bool → Text → List Text
lines_from true cr [] = [] ∷ []
lines_from false cr [] = []
lines_from open_line cr (c ∷ s) =
    let after_return = lines_from false true s in
    let after_end = lines_from false false s in
    let inside = lines_from true false s in
    if c == 10 && cr
    then after_end
    else if c == 13
    then [] ∷ after_return
    else if is_line_end c
    then [] ∷ after_end
    else push_char c inside

unfoldable pub splitlines : Text → List Text
splitlines s = lines_from false false s

-- `str(n)`, on fuel: a number has no more digits than its value and one
digits_from : ℕ → ℕ → Text → Text
digits_from zero n acc = acc
digits_from (suc fuel) n acc =
    let acc' = (b'0' + n % 10) ∷ acc in
    let rest = digits_from fuel (n / 10) acc' in if ltb n 10 then acc' else rest

unfoldable pub decimal : ℕ → Text
unfolding digits_from
decimal n = digits_from (suc n) n []
