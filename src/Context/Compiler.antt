-- ===== src/Context/Compiler.antt =====
-- context/compiler.py: sources in their order, under a budget across all of them. A source is a
-- `StaticSource`; the summariser is a parameter that may raise and touches `W`.
use lottie_orchestrator.Prelude.{
  ℕ, String, Option, none, some, Bool, true, false, not, ◌||◌, List, [], ◌∷◌, ◌++◌, map, ltb, leb,
  length, str_eq, sum_of, keep, concat, if◌then◌else◌,
}
use lottie_orchestrator.Prelude.Sort.{sort_by, by_key}
use lottie_orchestrator.Prelude.Texts.{Text, codes, contains}
use lottie_orchestrator.Exec.{Exc, Result, ok, err, Exec}
use lottie_orchestrator.Context.Compaction.{Message, estimate_tokens, compact}

-- `StaticSource`, with what its `emit` returns
pub record Source : Type 0 where
  pub name : String
  pub order : ℕ
  pub pinned : Bool
  pub messages : List Message

pub record SourceContribution : Type 0 where
  pub name : String
  pub tokens : ℕ
  pub messages : ℕ
  pub pinned : Bool
  pub dropped : Bool
  pub summarised : Bool

pub record CompileResult : Type 0 where
  pub messages : List Message
  pub contributions : List SourceContribution

-- `CompileResult.dropped` and `CompileResult.total_tokens`
unfoldable pub dropped_names : CompileResult → List String
dropped_names r = map (λ c. c.name) (keep (λ c. c.dropped) r.contributions)

unfoldable pub total_tokens : CompileResult → ℕ
total_tokens r = sum_of (λ c. c.tokens) (keep (λ c. not c.dropped) r.contributions)

unfoldable pub contribution : Source → SourceContribution
unfolding estimate_tokens
contribution s = record {
  name = s.name;
  tokens = estimate_tokens s.messages;
  messages = length s.messages;
  pinned = s.pinned;
  dropped = false;
  summarised = false;
}

-- `_assemble`
unfoldable pub assemble : List String → List Source → List Message
assemble dropped emitted =
    concat (map (λ s. if contains dropped s.name then [] else s.messages) emitted)

-- `by_name[name]` changed: the last contribution of that name, as in the dict
unfoldable pub change_last :
    String
    → (SourceContribution → SourceContribution)
    → List SourceContribution
    → List SourceContribution
change_last name f [] = []
change_last name f (c ∷ cs) =
    let rest = c ∷ change_last name f cs in
    if contains (map (λ d. d.name) cs) name
    then rest
    else if str_eq c.name name
    then f c ∷ cs
    else rest

-- the sets and contributions that the loop of `compile_context` changes
pub record Draft : Type 0 where
  pub dropped : List String
  pub contributions : List SourceContribution

abbrev pub has_messages : List Message → Bool
has_messages [] = false
has_messages (_ ∷ _) = true

-- `[compacted {source.name}] {summary}`
abbrev pub compacted_message : String → Text → Message
compacted_message name summary = record {
  role = "system";
  content = codes "[compacted " ++ (codes name ++ (codes "] " ++ summary));
}

abbrev pub with_summary : Source → Text → Source
with_summary s summary = record s { messages = compacted_message s.name summary ∷ [] }

abbrev pub is_system : Message → Bool
is_system m = str_eq m.role "system"

abbrev pub Summarizer : Type 0 → Type 0
Summarizer W = List Message → Exec Exc W Text

-- what `compile_context` has after the loop: `emitted`, and the rest
abbrev pub Looped : Type 0 → Type 0
Looped W = Result Exc (List Source × Draft) × W

module _ {W : Type 0} where
  abbrev pub condense : Source → Draft → Result Exc Text × W → Result Exc (Source × Draft) × W
  condense s d (err exc, w) = (err exc, w)
  condense s d (ok summary, w) = (
    ok (
      with_summary s summary,
      record d {
        contributions = change_last s.name (λ c. record c { summarised = true }) d.contributions;
      },
    ),
    w,
  )

  -- the turn of a source that may go: the source as it stays in `emitted`
  unfoldable pub give_up : Option (Summarizer W) → Source → Draft → Exec Exc W (Source × Draft)
  unfolding change_last
  give_up none s d w = (
    ok (
      s,
      record {
        dropped = s.name ∷ d.dropped;
        contributions = change_last s.name (λ c. record c { dropped = true }) d.contributions;
      },
    ),
    w,
  )
  give_up (some summarize) s d w = condense s d (summarize s.messages w)

  -- `if estimate_tokens(...) <= max_tokens: break`, else the sources behind this one
  abbrev pub break_or_go_on :
      ℕ
      → List Source
      → List Source
      → (List Source → Draft → Exec Exc W (List Source × Draft))
      → Result Exc (Source × Draft) × W
      → Looped W
  break_or_go_on max_tokens before after next (err exc, w) = (err exc, w)
  break_or_go_on max_tokens before after next (ok (s, d), w) =
      if leb (estimate_tokens (assemble d.dropped (before ++ s ∷ after))) max_tokens
      then (ok (before ++ s ∷ after, d), w)
      else next (before ++ s ∷ []) d w

  -- the loop, from the sources that are behind it and those that are ahead
  unfoldable pub shrink :
      ℕ
      → Option (Summarizer W)
      → List Source
      → List Source
      → Draft
      → Exec Exc W (List Source × Draft)
  unfolding give_up assemble estimate_tokens
  shrink max_tokens summarize [] before d w = (ok (before, d), w)
  shrink max_tokens summarize (s ∷ after) before d w =
      let skipped = shrink max_tokens summarize after (before ++ s ∷ []) d w in
      let turn =
        break_or_go_on max_tokens before after (shrink max_tokens summarize after)
          (give_up summarize s d w) in
      if s.pinned || not (has_messages s.messages) then skipped else turn

  abbrev pub with_messages :
      List SourceContribution → Result Exc (List Message) × W → Result Exc CompileResult × W
  with_messages cs (err exc, w) = (err exc, w)
  with_messages cs (ok messages, w) = (ok (record { messages = messages; contributions = cs }), w)

  -- the last step: the messages of what is left are compacted, if it is still too much
  abbrev pub compact_left : ℕ → Option (Summarizer W) → ℕ → List Message → Exec Exc W (List Message)
  compact_left max_tokens none keep_recent assembled w = (ok assembled, w)
  compact_left max_tokens (some summarize) keep_recent assembled w =
      if ltb max_tokens (estimate_tokens assembled)
      then compact is_system summarize max_tokens keep_recent assembled w
      else (ok assembled, w)

  abbrev pub after_shrink : ℕ → Option (Summarizer W) → ℕ → Looped W → Result Exc CompileResult × W
  after_shrink max_tokens summarize keep_recent (err exc, w) = (err exc, w)
  after_shrink max_tokens summarize keep_recent (ok (emitted, d), w) =
      with_messages d.contributions
        (compact_left max_tokens summarize keep_recent (assemble d.dropped emitted) w)

  -- under a ceiling, from the ordered sources
  abbrev pub compile_under :
      Option ℕ → Option (Summarizer W) → ℕ → List Source → Exec Exc W CompileResult
  compile_under none summarize keep_recent emitted w =
      (ok (record { messages = assemble [] emitted; contributions = map contribution emitted }), w)
  compile_under (some max_tokens) summarize keep_recent emitted w =
      let contributions = map contribution emitted in
      let all = assemble [] emitted in
      if leb (estimate_tokens all) max_tokens
      then (ok (record { messages = all; contributions = contributions }), w)
      else after_shrink max_tokens summarize keep_recent (
          shrink max_tokens summarize emitted []
            (record { dropped = []; contributions = contributions }) w)

  -- `compile_context`
  unfoldable pub compile_context :
      List Source → Option ℕ → Option (Summarizer W) → ℕ → Exec Exc W CompileResult
  unfolding contribution assemble estimate_tokens shrink compact
  compile_context sources max_tokens summarize keep_recent =
      compile_under max_tokens summarize keep_recent (sort_by (by_key (λ s. s.order)) sources)
