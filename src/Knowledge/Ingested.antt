-- ===== src/Knowledge/Ingested.antt =====
-- knowledge/ingest.py with knowledge/frontmatter.py: what is read of a draft that was written.
use lottie_orchestrator.Prelude.{
  ◌≢◌, ℕ, ◌≡◌, refl, sym, ap, ◌∙◌, Option, some, Bool, true, false, not, ◌&&◌, List, [], ◌∷◌, ◌++◌,
  ◌==◌, all, All, arith, Bool-cases, inl, inr,
}
use lottie_orchestrator.Prelude.Texts.{Text, codes}
use lottie_orchestrator.Prelude.Walks.{text_eq, split_on, push_char}
use lottie_orchestrator.Session.Store.{join_lines}
use lottie_orchestrator.Knowledge.Frontmatter.{
  KnowledgeLayer, layer_value, unix, rstrip_return, fence, split_at_close, after_opener,
  remove_newline, or_empty, parsed, opened, parse_frontmatter,
}

-- the lines of `_write_draft` between the fences, on the day's date
abbrev pub draft_lines : Text → KnowledgeLayer → Text → List Text
draft_lines draft_id target_layer today =
    (codes "id: " ++ draft_id)
    ∷ codes "layer: draft"
    ∷ codes "scope: draft"
    ∷ codes "status: draft"
    ∷ (codes "target_layer: " ++ layer_value target_layer)
    ∷ codes "tags: []"
    ∷ codes "depends_on: []"
    ∷ (codes "last_verified: " ++ today)
    ∷ []

abbrev pub with_ends : List Text → Text → Text
with_ends [] s = s
with_ends (line ∷ lines) s = line ++ 10 ∷ with_ends lines s

-- what `_write_draft` writes
unfoldable pub draft_text : Text → KnowledgeLayer → Text → Text → Text
unfolding layer_value
draft_text draft_id target_layer today text =
    codes "---\n"
    ++ with_ends (draft_lines draft_id target_layer today) (codes "---\n" ++ (10 ∷ text))

abbrev pub is_plain : Text → Bool
is_plain s = all (λ c. not (c == 10) && not (c == 13)) s

split_on-line : (l s : Text) → is_plain l ≡ true → split_on 10 (l ++ 10 ∷ s) ≡ l ∷ split_on 10 s
unfolding split_on
split_on-line [] s h = refl
split_on-line (c ∷ l) s h =
    let other : (c == 10) ≡ false = ground arith in
    let rest : is_plain l ≡ true = ground arith in simp (other, split_on-line l s rest)

unix-line : (l s : Text) → is_plain l ≡ true → unix (l ++ 10 ∷ s) ≡ l ++ 10 ∷ unix s
unfolding unix
unix-line [] s h = refl
unix-line (c ∷ l) s h =
    let other : (c == 13) ≡ false = ground arith in
    let rest : is_plain l ≡ true = ground arith in simp (other, unix-line l s rest)

join_lines-push_char :
    (c : ℕ) (ps : List Text) → ps ≢ [] → join_lines (push_char c ps) ≡ c ∷ join_lines ps
join_lines-push_char c [] h = refl
join_lines-push_char c (p ∷ []) h = refl
join_lines-push_char c (p ∷ q ∷ ps) h = refl

join_lines-empty : (ps : List Text) → ps ≢ [] → join_lines ([] ∷ ps) ≡ 10 ∷ join_lines ps
join_lines-empty [] h = elim (h refl) [ ]
join_lines-empty (p ∷ ps) h = refl

push_char-filled : (c : ℕ) (ps : List Text) → push_char c ps ≢ []
push_char-filled c [] = λ h. cc
push_char-filled c (p ∷ ps) = λ h. cc

split_on-filled : (s : Text) → split_on 10 s ≢ []
unfolding split_on
split_on-filled [] = λ h. cc
split_on-filled (c ∷ s) = elim (Bool-cases (c == 10)) [
  | inl e ↦ rw e (λ h. cc)
  | inr e ↦ rw e (push_char-filled c (split_on 10 s))
]

join_lines-split_on : (s : Text) → join_lines (split_on 10 s) ≡ s
unfolding split_on
join_lines-split_on [] = refl
join_lines-split_on (c ∷ s) = elim (Bool-cases (c == 10)) [
  | inl e ↦
      let same : c ≡ 10 = ground arith in
      rw e (
        join_lines-empty (split_on 10 s) (split_on-filled s)
        ∙ ap (λ t. 10 ∷ t) (join_lines-split_on s)
        ∙ ap (λ d. d ∷ s) (sym same))
  | inr e ↦ rw e (
      join_lines-push_char c (split_on 10 s) (split_on-filled s)
      ∙ ap (λ t. c ∷ t) (join_lines-split_on s))
]

-- a line of metadata: it has no line end, and is not the fence
abbrev pub IsMeta : Text → Type 0
IsMeta l = (is_plain l ≡ true) × (text_eq l fence ≡ false)

rstrip_return-plain : (l : Text) → is_plain l ≡ true → rstrip_return l ≡ l
unfolding rstrip_return
rstrip_return-plain [] h = refl
rstrip_return-plain (c ∷ l) h =
    let other : (c == 13) ≡ false = ground arith in
    let rest : is_plain l ≡ true = ground arith in simp (other, rstrip_return-plain l rest)

unix-with_ends :
    (lines : List Text) (s : Text)
    → All IsMeta lines
    → unix (with_ends lines s) ≡ with_ends lines (unix s)
unix-with_ends [] s h = refl
unix-with_ends (l ∷ lines) s h =
    unix-line l (with_ends lines s) h.0.0 ∙ ap (λ t. l ++ 10 ∷ t) (unix-with_ends lines s h.1)

split_on-with_ends :
    (lines : List Text) (s : Text)
    → All IsMeta lines
    → split_on 10 (with_ends lines s) ≡ lines ++ split_on 10 s
split_on-with_ends [] s h = refl
split_on-with_ends (l ∷ lines) s h =
    split_on-line l (with_ends lines s) h.0.0 ∙ ap (λ t. l ∷ t) (split_on-with_ends lines s h.1)

split_at_close-fence :
    (lines after : List Text)
    → All IsMeta lines
    → split_at_close (lines ++ fence ∷ after) ≡ some (lines, after)
unfolding split_at_close rstrip_return
split_at_close-fence [] after h = refl
split_at_close-fence (l ∷ lines) after h =
    let kept = rstrip_return-plain l h.0.0 in
    let apart = h.0.1 in simp (kept, apart, split_at_close-fence lines after h.1)

layer_value-plain : (l : KnowledgeLayer) → is_plain (layer_value l) ≡ true
unfolding layer_value
layer_value-plain KnowledgeLayer.global = refl
layer_value-plain KnowledgeLayer.platform = refl
layer_value-plain KnowledgeLayer.project = refl
layer_value-plain KnowledgeLayer.memory = refl
layer_value-plain KnowledgeLayer.draft = refl

draft_lines-IsMeta :
    (draft_id : Text) (target_layer : KnowledgeLayer) (today : Text)
    → is_plain draft_id ≡ true
    → is_plain today ≡ true
    → All IsMeta (draft_lines draft_id target_layer today)
draft_lines-IsMeta draft_id target_layer today i t = (
  (i, refl),
  (
    (refl, refl),
    (
      (refl, refl),
      (
        (refl, refl),
        ((layer_value-plain target_layer, refl), ((refl, refl), ((refl, refl), ((t, refl), tt)))),
      ),
    ),
  ),
)

module _ {V : Type 0} (load : Text → Option (List (Text × V))) where
  opened-framed :
      (lines : List Text) (text u : Text)
      → All IsMeta lines
      → opened load text (some (with_ends lines (codes "---\n" ++ 10 ∷ u)))
        ≡ (or_empty load (load (join_lines lines)), u)
  unfolding split_on split_at_close remove_newline
  opened-framed lines text u h =
      ap (λ ps. parsed load text (split_at_close ps))
        (split_on-with_ends lines (codes "---\n" ++ 10 ∷ u) h)
      ∙ ap (parsed load text) (split_at_close-fence lines ([] ∷ split_on 10 u) h)
      ∙ ap (λ b. (or_empty load (load (join_lines lines)), remove_newline b))
          (join_lines-empty (split_on 10 u) (split_on-filled u)
            ∙ ap (λ b. 10 ∷ b) (join_lines-split_on u))

  -- A draft that the ingest wrote is parsed to the metadata of its eight lines and to the text, with
  -- Windows line ends replaced, whatever the text is: one that starts with a fence of its own does
  -- not change the metadata. The id and the date have no line ends.
  pub parse_frontmatter-draft_text :
      (draft_id : Text) (target_layer : KnowledgeLayer) (today text : Text)
      → is_plain draft_id ≡ true
      → is_plain today ≡ true
      → parse_frontmatter load (draft_text draft_id target_layer today text)
        ≡ (or_empty load (load (join_lines (draft_lines draft_id target_layer today))), unix text)
  unfolding parse_frontmatter draft_text unix after_opener
  parse_frontmatter-draft_text draft_id target_layer today text i t =
      let lines = draft_lines draft_id target_layer today in
      let meta = draft_lines-IsMeta draft_id target_layer today i t in
      let whole = codes "---\n" ++ with_ends lines (codes "---\n" ++ 10 ∷ unix text) in
      let same : unix (draft_text draft_id target_layer today text) ≡ whole =
        ap (λ s. codes "---\n" ++ s) (unix-with_ends lines (codes "---\n" ++ 10 ∷ text) meta) in
      ap (λ s. opened load s (after_opener s)) same ∙ opened-framed lines whole (unix text) meta
