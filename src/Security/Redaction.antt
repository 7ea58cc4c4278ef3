-- ===== src/Security/Redaction.antt =====
-- security/injection_scanner.py: what redaction leaves of a text.
use lottie_orchestrator.Prelude.{
  ℕ, max, ◌≡◌, refl, sym, ap, ◌∙◌, String, Bool, true, ◌||◌, List, [], ◌∷◌, ◌++◌, map, concat, any,
  All, All-append, any-append, is_nonempty, is_nonempty-append, arith,
}
use lottie_orchestrator.Prelude.Sort.{
  sort_by, sort_by-All, any-sort_by, IsSortedBy, sort_by-IsSortedBy_of,
}
use lottie_orchestrator.Prelude.Texts.{Text}
use lottie_orchestrator.Security.Markers.{Rule, rules}
use lottie_orchestrator.Security.Injection.{
  Span, span_leb, merge_from, merge, redact, raw_hits, raw_spans, scan, Hit, hit,
}
use lottie_orchestrator.Security.Spans.{
  within, covered, outside, IsForward, Spaced, merge_from-Spaced, covered-merge_from, first_piece,
  more_pieces, join_marked, redact_from-join_marked, outside_agree, pieces-outside,
}

pub is_nonempty-map :
    {A B : Type 0} (f : A → B) (xs : List A) → is_nonempty (map f xs) ≡ is_nonempty xs
is_nonempty-map f [] = refl
is_nonempty-map f (x ∷ xs) = refl

is_nonempty-any : {A : Type 0} (xs : List A) → is_nonempty xs ≡ any (λ _. true) xs
is_nonempty-any [] = refl
is_nonempty-any (x ∷ xs) = refl

is_nonempty-sort_by :
    {A : Type 0} (le : A → A → Bool) (xs : List A) → is_nonempty (sort_by le xs) ≡ is_nonempty xs
is_nonempty-sort_by le xs =
    is_nonempty-any (sort_by le xs) ∙ any-sort_by le (λ _. true) xs ∙ sym (is_nonempty-any xs)

is_nonempty-more :
    (spans : List Span) (content : Text)
    → is_nonempty (more_pieces spans content) ≡ is_nonempty spans
is_nonempty-more [] content = refl
is_nonempty-more (s ∷ spans) content = refl

is_nonempty-merge_from : (s : Span) (spans : List Span) → is_nonempty (merge_from s spans) ≡ true
unfolding merge_from
is_nonempty-merge_from s [] = refl
is_nonempty-merge_from s (x ∷ spans) =
    ground
      (arith, is_nonempty-merge_from (record { start = s.start; «end» = max s.end x.end }) spans)

is_nonempty-merge : (spans : List Span) → is_nonempty (merge spans) ≡ is_nonempty spans
unfolding merge
is_nonempty-merge [] = refl
is_nonempty-merge (s ∷ spans) = is_nonempty-merge_from s spans

merge-Spaced :
    (spans : List Span)
    → All IsForward spans
    → IsSortedBy (λ s. s.start) spans
    → Spaced 0 (merge spans)
unfolding merge
merge-Spaced [] f o = tt
merge-Spaced (s ∷ spans) f o = merge_from-Spaced 0 s spans (omega arith) f.0 f.1 o

covered-merge :
    (spans : List Span) (i : ℕ)
    → All IsForward spans
    → IsSortedBy (λ s. s.start) spans
    → covered (merge spans) i ≡ covered spans i
unfolding merge
covered-merge [] i f o = refl
covered-merge (s ∷ spans) i f o = covered-merge_from i s spans f.0 f.1 o

span_leb-starts : (spans : List Span) → IsSortedBy (λ s. s.start) (sort_by span_leb spans)
unfolding span_leb
span_leb-starts =
    sort_by-IsSortedBy_of (λ s. s.start) span_leb (λ x y h. ground arith) (λ x y h. ground arith)

redact-join_marked :
    (spans : List Span) (content : Text)
    → redact spans content ≡ join_marked (first_piece 0 spans content) (more_pieces spans content)
unfolding redact
redact-join_marked [] content = refl
redact-join_marked (s ∷ spans) content = redact_from-join_marked 0 (s ∷ spans) content

-- What the scan says of a text, by the matches of the rules alone.
pub record Redacted (finditer : Rule → Text → List Span) (content : Text) (flagged : Bool)
    (sanitized : Text) : Type 0 where
  pub first : Text
  pub others : List Text
  pub joined : sanitized ≡ join_marked first others
  pub kept :
      first ++ concat others
      ≡ outside (λ i. any (λ r. any (within i) (finditer r content)) rules) 0 content
  pub marked : is_nonempty others ≡ flagged
  pub found : flagged ≡ any (λ r. is_nonempty (finditer r content)) rules

module _ (finditer : Rule → Text → List Span) (content : Text) where
  raw_spans-IsForward :
      (rs : List Rule)
      → ((r : Rule) → All IsForward (finditer r content))
      → All IsForward (raw_spans finditer rs content)
  unfolding raw_spans
  raw_spans-IsForward [] h = tt
  raw_spans-IsForward (r ∷ rs) h =
      All-append IsForward (finditer r content) _ (h r) (raw_spans-IsForward rs h)

  any-raw_spans :
      (i : ℕ) (rs : List Rule)
      → any (within i) (raw_spans finditer rs content)
        ≡ any (λ r. any (within i) (finditer r content)) rs
  unfolding raw_spans
  any-raw_spans i [] = refl
  any-raw_spans i (r ∷ rs) =
      any-append (within i) (finditer r content) _
      ∙ ap (λ t. any (within i) (finditer r content) || t) (any-raw_spans i rs)

  is_nonempty-raw_spans :
      (rs : List Rule)
      → is_nonempty (raw_spans finditer rs content) ≡ any (λ r. is_nonempty (finditer r content)) rs
  unfolding raw_spans
  is_nonempty-raw_spans [] = refl
  is_nonempty-raw_spans (r ∷ rs) =
      is_nonempty-append (finditer r content) _
      ∙ ap (λ t. is_nonempty (finditer r content) || t) (is_nonempty-raw_spans rs)

  is_nonempty-raw_hits :
      (rs : List Rule)
      → is_nonempty (raw_hits finditer rs content) ≡ any (λ r. is_nonempty (finditer r content)) rs
  unfolding raw_hits
  is_nonempty-raw_hits [] = refl
  is_nonempty-raw_hits (r ∷ rs) =
      is_nonempty-append (map (hit finditer content r) (finditer r content))
        (raw_hits finditer rs content)
      ∙ (λ k.
          is_nonempty-map (hit finditer content r) (finditer r content) k
          || is_nonempty-raw_hits rs k)

  -- whether a text is flagged
  pub scan-found :
      (source : String)
      → (scan finditer content source).flagged ≡ any (λ r. is_nonempty (finditer r content)) rules
  unfolding scan
  scan-found source =
      is_nonempty-map {A = Hit} _ _ ∙ is_nonempty-sort_by _ _ ∙ is_nonempty-raw_hits rules

  -- The scan flags a text exactly if some rule matches it. The sanitized text is made of pieces
  -- with one marker between each two; the pieces, joined, are the characters of the text that no
  -- match has; and there is a marker exactly if the text is flagged. A match ends no earlier than
  -- it starts.
  pub scan-Redacted :
      (source : String)
      → ((r : Rule) → All IsForward (finditer r content))
      → Redacted finditer content
          (scan finditer content source).flagged
          (scan finditer content source).sanitized
  unfolding scan
  scan-Redacted source forward =
      let raw = raw_spans finditer rules content in
      let spans = sort_by span_leb raw in
      let f = sort_by-All span_leb IsForward raw (raw_spans-IsForward rules forward) in
      let o = span_leb-starts raw in
      let merged = merge spans in
      let flags = scan-found source in
      let filled =
        is_nonempty-more merged content
        ∙ is_nonempty-merge spans
        ∙ is_nonempty-sort_by span_leb raw
        ∙ is_nonempty-raw_spans rules in
      record {
        first = first_piece 0 merged content;
        others = more_pieces merged content;
        joined = redact-join_marked merged content;
        kept =
            pieces-outside 0 merged content (merge-Spaced spans f o)
            ∙ outside_agree (covered merged) _ 0 content (λ i le.
              covered-merge spans i f o
              ∙ any-sort_by span_leb (within i) raw
              ∙ any-raw_spans i rules);
        marked = filled ∙ sym flags;
        found = flags;
      }
