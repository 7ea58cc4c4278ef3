-- ===== src/Serve/Cuts.antt =====
-- serve/stream_gate.py: a text is cut into its lines, whichever way it comes in.
use lottie_orchestrator.Prelude.{
  all, not, ℕ, ◌≡◌, refl, ap, arith, ◌∙◌, inl, inr, Bool, true, false, List, [], ◌∷◌, ◌++◌, ◌==◌,
  concat, append_assoc, Bool-cases, if◌then◌else◌, subst,
}
use lottie_orchestrator.Prelude.Texts.{Text}
use lottie_orchestrator.Serve.Gate.{push, drain}

-- the complete lines of a cut, before those of another one
abbrev before : List Text → List Text × Text → List Text × Text
before lines cut = (lines ++ cut.0, cut.1)

push-before :
    (c : ℕ) (line : Text) (lines : List Text) (cut : List Text × Text)
    → push c (before (line ∷ lines) cut) ≡ before ((c ∷ line) ∷ lines) cut
push-before c line lines cut = refl

drain-append : (a b : Text) → drain (a ++ b) ≡ before (drain a).0 (drain ((drain a).1 ++ b))
unfolding drain
drain-append [] b = refl
drain-append (c ∷ a) b = go (c == b'\n') refl (drain a) (drain-append a b)
  where
    go :
        (t : Bool)
        → (c == b'\n') ≡ t
        → (cut : List Text × Text) → drain (a ++ b) ≡ before cut.0 (drain (cut.1 ++ b))
        → (if t
            then ((c ∷ []) ∷ (drain (a ++ b)).0, (drain (a ++ b)).1)
            else push c (drain (a ++ b)))
          ≡ before
              (if t then ((c ∷ []) ∷ cut.0, cut.1) else push c cut).0
              (drain ((if t then ((c ∷ []) ∷ cut.0, cut.1) else push c cut).1 ++ b))
    go true e cut h = rw h refl
    go false e ([], rest) h = rw (h, e) refl
    go false e (line ∷ lines, rest) h = rw h refl

-- The pieces of a text: its lines, and an unterminated rest.
abbrev pub tail_of : Text → List Text
tail_of [] = []
tail_of (c ∷ s) = (c ∷ s) ∷ []

pub pieces : Text → List Text
unfolding drain
pieces s = (drain s).0 ++ tail_of (drain s).1

pub pieces-append : (a b : Text) → pieces (a ++ b) ≡ (drain a).0 ++ pieces ((drain a).1 ++ b)
unfolding pieces
pieces-append a b = rw (drain-append a b) (append_assoc (drain a).0 _ _)

-- What is left of a cut has no newline any more.
unfoldable pub IsRest : Text → Type 0
unfolding drain
IsRest s = drain s ≡ ([], s)

pub IsRest-drain : (s : Text) → IsRest (drain s).1
unfolding drain IsRest
IsRest-drain [] = refl
IsRest-drain (c ∷ s) = go (c == b'\n') refl (drain s) (IsRest-drain s)
  where
    go :
        (t : Bool)
        → (c == b'\n') ≡ t
        → (cut : List Text × Text) → IsRest cut.1
        → IsRest (if t then ((c ∷ []) ∷ cut.0, cut.1) else push c cut).1
    go true e cut h = h
    go false e ([], rest) h = rw (e, h) refl
    go false e (line ∷ lines, rest) h = h

pub pieces-rest : (s : Text) → IsRest s → pieces s ≡ tail_of s
unfolding IsRest pieces
pieces-rest s h = rw h refl

-- no newline in a text
abbrev pub is_one_line : Text → Bool
is_one_line s = all (λ c. not (c == b'\n')) s

-- Lines, each up to its newline and with it, and at the end a text without one, if it is not empty.
pub data IsCut : List Text → Type 0 where
  ended : IsCut []
  unterminated : (c : ℕ) (s : Text) → is_one_line (c ∷ s) ≡ true → IsCut ((c ∷ s) ∷ [])
  terminated :
      (s : Text) (lines : List Text)
      → is_one_line s ≡ true
      → IsCut lines
      → IsCut ((s ++ b'\n' ∷ []) ∷ lines)

-- the pieces of a cut of a buffer: its complete lines, then what is left
abbrev pieces_of : List Text × Text → List Text
pieces_of cut = cut.0 ++ tail_of cut.1

extended :
    (c : ℕ) (l : Text) (ls : List Text)
    → (c == b'\n') ≡ false
    → IsCut (l ∷ ls)
    → IsCut ((c ∷ l) ∷ ls)
extended c _ _ e (unterminated d s o) = unterminated c (d ∷ s) (ground (arith, e, o))
extended c _ _ e (terminated s lines o h) = terminated (c ∷ s) lines (ground (arith, e, o)) h

-- a cut whose rest has no newline
abbrev IsLined : List Text × Text → Type 0
IsLined cut = IsCut (pieces_of cut) × (is_one_line cut.1 ≡ true)

push-IsLined :
    (c : ℕ) (cut : List Text × Text) → (c == b'\n') ≡ false → IsLined cut → IsLined (push c cut)
push-IsLined c ([], rest) e h =
    let r : is_one_line (c ∷ rest) ≡ true = ground (arith, e, h.1) in (unterminated c rest r, r)
push-IsLined c (l ∷ lines, rest) e h = (extended c l (lines ++ tail_of rest) e h.0, h.1)

drain-IsLined : (s : Text) → IsLined (drain s)
unfolding drain
drain-IsLined [] = (ended, refl)
drain-IsLined (c ∷ s) = elim (Bool-cases (c == b'\n')) [
  | inl e ↦
      let newline : b'\n' ≡ c = ground (arith, e) in
      let (lines, rest) = drain-IsLined s in
      rw e (
        subst (λ d. IsCut ((d ∷ []) ∷ pieces_of (drain s))) newline
            (terminated [] (pieces_of (drain s)) refl lines),
        rest,
      )
  | inr e ↦ rw e (push-IsLined c (drain s) e (drain-IsLined s))
]

concat-push :
    (c : ℕ) (cut : List Text × Text) → concat (pieces_of (push c cut)) ≡ c ∷ concat (pieces_of cut)
concat-push c ([], []) = refl
concat-push c ([], d ∷ rest) = refl
concat-push c (l ∷ lines, rest) = refl

concat-drain : (s : Text) → concat (pieces_of (drain s)) ≡ s
unfolding drain
concat-drain [] = refl
concat-drain (c ∷ s) = elim (Bool-cases (c == b'\n')) [
  | inl e ↦ rw e (ap (λ t. c ∷ t) (concat-drain s))
  | inr e ↦ rw e (concat-push c (drain s) ∙ ap (λ t. c ∷ t) (concat-drain s))
]

pub pieces-IsCut : (s : Text) → IsCut (pieces s)
unfolding pieces
pieces-IsCut s = (drain-IsLined s).0

pub concat-pieces : (s : Text) → concat (pieces s) ≡ s
unfolding pieces
concat-pieces s = concat-drain s
