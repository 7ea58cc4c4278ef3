-- ===== src/Security/Injection.antt =====
-- security/injection_scanner.py, `PromptInjectionScanSkill`. The engine of regular expressions is a
-- parameter: `finditer` gives the spans of the matches of a rule.
use lottie_orchestrator.Prelude.{
  ℕ, zero, suc, ◌+◌, ◌-◌, max, String, Bool, true, false, List, [], ◌∷◌, ◌++◌, map, ◌==◌, ltb, leb,
  take, drop, concat, is_nonempty, if◌then◌else◌,
}
use lottie_orchestrator.Prelude.Sort.{sort_by, by_key}
use lottie_orchestrator.Prelude.Texts.{Text, codes}
use lottie_orchestrator.Security.Schema.{SecurityFinding, InjectionScanOutput}
use lottie_orchestrator.Security.Markers.{Rule, rules}

-- `m.start()` and `m.end()`
pub record Span : Type 0 where
  pub start : ℕ
  pub «end» : ℕ

-- one of `raw_hits`
pub record Hit : Type 0 where
  pub span : Span
  pub label : String
  pub matched : Text

abbrev pub redact_marker : Text
redact_marker = codes "[REDACTED:INJECTION]"

-- `content[a:b]`
abbrev pub slice : ℕ → ℕ → Text → Text
slice a b content = take (b - a) (drop a content)

-- `content.count("\n", 0, start) + 1`
unfoldable pub line_at : ℕ → Text → ℕ
line_at zero content = 1
line_at (suc n) [] = 1
line_at (suc n) (c ∷ content) =
    let rest = line_at n content in if c == b'\n' then rest + 1 else rest

-- the order of pairs, in which `spans.sort()` sorts
unfoldable pub span_leb : Span → Span → Bool
span_leb x y =
    if ltb x.start y.start then true else if x.start == y.start then leb x.end y.end else false

-- The greedy merge, from the last merged span on.
unfoldable pub merge_from : Span → List Span → List Span
merge_from last [] = last ∷ []
merge_from last (s ∷ spans) =
    let joined = merge_from (record { start = last.start; «end» = max last.end s.end }) spans in
    let apart = last ∷ merge_from s spans in if leb s.start last.end then joined else apart

unfoldable pub merge : List Span → List Span
unfolding merge_from
merge [] = []
merge (s ∷ spans) = merge_from s spans

-- the walk over the merged spans, from the cursor on: `parts`
unfoldable pub redact_from : ℕ → List Span → Text → List Text
redact_from cursor [] content = drop cursor content ∷ []
redact_from cursor (s ∷ spans) content =
    slice cursor s.start content ∷ redact_marker ∷ redact_from s.end spans content

-- `sanitized`
unfoldable pub redact : List Span → Text → Text
unfolding redact_from
redact [] content = content
redact (s ∷ spans) content = concat (redact_from 0 (s ∷ spans) content)

module _ (finditer : Rule → Text → List Span) where
  abbrev pub hit : Text → Rule → Span → Hit
  hit content r s = record { span = s; label = r.label; matched = slice s.start s.end content }

  -- `raw_hits`, before it is sorted
  unfoldable pub raw_hits : List Rule → Text → List Hit
  raw_hits rs content = concat (map (λ r. map (hit content r) (finditer r content)) rs)

  -- `spans`, before it is sorted
  unfoldable pub raw_spans : List Rule → Text → List Span
  raw_spans rs content = concat (map (λ r. finditer r content) rs)

  finding : String → Text → Hit → SecurityFinding
  unfolding line_at
  finding source content h = record {
    file = source;
    line = line_at h.span.start content;
    kind = h.label;
    message =
        codes "Prompt-injection marker '"
        ++ (h.matched ++ (codes "' detected in " ++ codes source));
  }

  -- `_execute`
  unfoldable pub scan : Text → String → InjectionScanOutput
  unfolding raw_hits raw_spans finding redact merge
  scan content source =
      let hits = sort_by (by_key (λ h. h.span.start)) (raw_hits rules content) in
      let findings = map (finding source content) hits in
      let merged = merge (sort_by span_leb (raw_spans rules content)) in
      record {
        flagged = is_nonempty findings;
        findings = findings;
        sanitized = redact merged content;
      }
