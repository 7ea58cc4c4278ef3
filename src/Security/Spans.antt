-- ===== src/Security/Spans.antt =====
-- security/injection_scanner.py: merged spans, and the characters of a text outside them.
use lottie_orchestrator.Prelude.{
  ℕ, zero, suc, ◌+◌, ◌-◌, ◌≤◌, ◌<◌, max, ◌≡◌, refl, sym, ap, ◌∙◌, Bool, true, false, ◌&&◌, ◌||◌,
  List, [], ◌∷◌, ◌++◌, ltb, leb, take, drop, concat, any, All, arith, Bool-cases, inl, inr,
  if◌then◌else◌, append_nil,
}
use lottie_orchestrator.Prelude.Sort.{IsSortedBy}
use lottie_orchestrator.Prelude.Texts.{Text}
use lottie_orchestrator.Security.Injection.{Span, redact_marker, slice, merge_from, redact_from}

abbrev pub within : ℕ → Span → Bool
within i s = leb s.start i && ltb i s.end

-- whether one of the spans has the position
abbrev pub covered : List Span → ℕ → Bool
covered spans i = any (within i) spans

-- The characters at positions where the test fails, from a position on.
abbrev pub outside : (ℕ → Bool) → ℕ → Text → Text
outside p i [] = []
outside p i (c ∷ cs) = let rest = outside p (i + 1) cs in if p i then rest else c ∷ rest

abbrev pub IsForward : Span → Type 0
IsForward s = s.start ≤ s.end

-- spans in order and apart, from a position on
abbrev pub Spaced : ℕ → List Span → Type 0
Spaced c [] = Unit
Spaced c (s ∷ spans) = (c ≤ s.start) × (s.start ≤ s.end) × Spaced s.end spans

abbrev StartsInOrder : List Span → Type 0
StartsInOrder = IsSortedBy (λ s. s.start)

pub merge_from-Spaced :
    (c : ℕ) (last : Span) (spans : List Span)
    → c ≤ last.start
    → IsForward last
    → All IsForward spans
    → StartsInOrder (last ∷ spans)
    → Spaced c (merge_from last spans)
unfolding merge_from
merge_from-Spaced c last [] h f fs o = (h, f, tt)
merge_from-Spaced c last (s ∷ spans) h f fs o = elim (Bool-cases (leb s.start last.end)) [
  | inl e ↦
      let joined : Span = record { start = last.start; «end» = max last.end s.end } in
      rw e (merge_from-Spaced c joined spans h (omega arith) fs.1 (o.0.1, o.1.1))
  | inr e ↦ rw e (h, f, merge_from-Spaced last.end s spans (ground arith) fs.0 fs.1 o.1)
]

pub covered-merge_from :
    (i : ℕ) (last : Span) (spans : List Span)
    → IsForward last
    → All IsForward spans
    → StartsInOrder (last ∷ spans)
    → covered (merge_from last spans) i ≡ covered (last ∷ spans) i
unfolding merge_from
covered-merge_from i last [] f fs o = refl
covered-merge_from i last (s ∷ spans) f fs o = elim (Bool-cases (leb s.start last.end)) [
  | inl e ↦
      let joined : Span = record { start = last.start; «end» = max last.end s.end } in
      let rec = covered-merge_from i joined spans (omega arith) fs.1 (o.0.1, o.1.1) in
      let ordered : last.start ≤ s.start = o.0.0 in rw e (rec ∙ ground arith)
  | inr e ↦
      let rec = covered-merge_from i s spans fs.0 fs.1 o.1 in
      rw e (ap (λ t. within i last || t) rec)
]

-- the pieces of a text outside the spans: the first one, and the others
abbrev pub first_piece : ℕ → List Span → Text → Text
first_piece c [] content = drop c content
first_piece c (s ∷ spans) content = slice c s.start content

abbrev pub more_pieces : List Span → Text → List Text
more_pieces [] content = []
more_pieces (s ∷ spans) content = first_piece s.end spans content ∷ more_pieces spans content

-- pieces with a marker between each two
abbrev pub join_marked : Text → List Text → Text
join_marked p [] = p
join_marked p (q ∷ qs) = p ++ (redact_marker ++ join_marked q qs)

pub redact_from-join_marked :
    (c : ℕ) (spans : List Span) (content : Text)
    → concat (redact_from c spans content)
      ≡ join_marked (first_piece c spans content) (more_pieces spans content)
unfolding redact_from
redact_from-join_marked c [] content = append_nil (drop c content)
redact_from-join_marked c (s ∷ spans) content =
    ap (λ t. slice c s.start content ++ (redact_marker ++ t))
      (redact_from-join_marked s.end spans content)

module _ (p : ℕ → Bool) where
  outside_clear : (i : ℕ) (t : Text) → ((j : ℕ) → i ≤ j → p j ≡ false) → outside p i t ≡ t
  outside_clear i [] h = refl
  outside_clear i (c ∷ t) h =
      rw (h i (omega arith)) (ap (λ u. c ∷ u) (outside_clear (i + 1) t (λ j le. h j (omega arith))))

  outside_skip :
      (k i : ℕ) (t : Text)
      → ((j : ℕ) → i ≤ j → j < i + k → p j ≡ false)
      → outside p i t ≡ take k t ++ outside p (i + k) (drop k t)
  outside_skip zero i t h = ap (λ j. outside p j t) (omega arith)
  outside_skip (suc k) i [] h = refl
  outside_skip (suc k) i (c ∷ t) h =
      let rec = outside_skip k (i + 1) t (λ j le lt. h j (omega arith) (omega arith)) in
      let later : i + 1 + k ≡ i + suc k = omega arith in
      rw (h i (omega arith) (omega arith))
        (ap (λ u. c ∷ u) (rec ∙ ap (λ j. take k t ++ outside p j (drop k t)) later))

  outside_hide :
      (k i : ℕ) (t : Text)
      → ((j : ℕ) → i ≤ j → j < i + k → p j ≡ true)
      → outside p i t ≡ outside p (i + k) (drop k t)
  outside_hide zero i t h = ap (λ j. outside p j t) (omega arith)
  outside_hide (suc k) i [] h = refl
  outside_hide (suc k) i (c ∷ t) h =
      let rec = outside_hide k (i + 1) t (λ j le lt. h j (omega arith) (omega arith)) in
      let later : i + 1 + k ≡ i + suc k = omega arith in
      rw (h i (omega arith) (omega arith)) (rec ∙ ap (λ j. outside p j (drop k t)) later)

pub outside_agree :
    (p q : ℕ → Bool) (i : ℕ) (t : Text)
    → ((j : ℕ) → i ≤ j → p j ≡ q j)
    → outside p i t ≡ outside q i t
outside_agree p q i [] h = refl
outside_agree p q i (c ∷ t) h =
    let rec = outside_agree p q (i + 1) t (λ j le. h j (omega arith)) in
    rw (h i (omega arith), rec) refl

covered_before :
    (c : ℕ) (spans : List Span) (j : ℕ) → Spaced c spans → j < c → covered spans j ≡ false
covered_before c [] j h lt = refl
covered_before c (s ∷ spans) j h lt =
    let rec = covered_before s.end spans j h.2 (omega (arith, h.0, h.1)) in ground (arith, h.0, rec)

plus_one : (a b : ℕ) → suc a + b ≡ suc (a + b)
plus_one a b = omega arith

drop-drop : (a b : ℕ) (t : Text) → drop b (drop a t) ≡ drop (a + b) t
drop-drop zero b t = ap (λ n. drop n t) (omega arith)
drop-drop (suc a) zero [] = rw (plus_one a 0) refl
drop-drop (suc a) (suc b) [] = rw (plus_one a (suc b)) refl
drop-drop (suc a) b (c ∷ t) = rw (plus_one a b) (drop-drop a b t)

drop_to : (a b : ℕ) (t : Text) → a ≤ b → drop (b - a) (drop a t) ≡ drop b t
drop_to a b t h = drop-drop a (b - a) t ∙ ap (λ n. drop n t) (omega arith)

pub pieces-outside :
    (c : ℕ) (spans : List Span) (content : Text)
    → Spaced c spans
    → first_piece c spans content ++ concat (more_pieces spans content)
      ≡ outside (covered spans) c (drop c content)
pieces-outside c [] content h =
    append_nil (drop c content) ∙ sym (outside_clear (λ j. false) c (drop c content) (λ j le. refl))
pieces-outside c (s ∷ spans) content h =
    let p = covered (s ∷ spans) in
    let t = drop c content in
    let skip =
      outside_skip p (s.start - c) c t
        (λ j le lt. ground (arith, h.0, h.1, covered_before s.end spans j h.2)) in
    let at_start : c + (s.start - c) ≡ s.start = omega (arith, h.0) in
    let at_end : s.start + (s.end - s.start) ≡ s.end = omega (arith, h.1) in
    let hide =
      outside_hide p (s.end - s.start) s.start (drop s.start content)
        (λ j le lt. ground (arith, at_end)) in
    let agree = outside_agree p (covered spans) s.end (drop s.end content) (λ j le. ground arith) in
    let tail = rw (at_end, drop_to s.start s.end content h.1) at hide in
    let rest = pieces-outside s.end spans content h.2 in
    let skip' = rw (at_start, drop_to c s.start content h.0) at skip in
    ap (λ u. slice c s.start content ++ u) (rest ∙ sym agree ∙ sym tail) ∙ sym skip'
