-- ===== src/Core/Keeping.antt =====
-- core/base_agent.py with context/compiler.py: what a summary keeps, the assembly of a prompt keeps,
-- unless a budget stop ends it.
use lottie_orchestrator.Prelude.{
  ℕ, ◌≡◌, refl, Option, none, some, Bool, true, false, not, ◌||◌, List, [], ◌∷◌, ◌++◌, ltb, leb,
  Bool-cases, inl, inr,
}
use lottie_orchestrator.Prelude.Texts.{Text}
use lottie_orchestrator.Exec.{Exc, Result, ok, err, Exec}
use lottie_orchestrator.Context.Compaction.{
  Message, estimate_tokens, recent_from, summarised, summarise_droppable, compact,
}
use lottie_orchestrator.Context.Compiler.{
  SourceContribution, Source, CompileResult, Draft, Summarizer, Looped, is_system, assemble,
  has_messages, condense, give_up, break_or_go_on, shrink, with_messages, compact_left,
  after_shrink, compile_under, compile_context,
}
use lottie_orchestrator.Core.Assembly.{Assembly, is_budget_stop, when, assembled, compile_prompt}

abbrev pub is_stop : {A : Type 0} → Result Exc A → Bool
is_stop (ok a) = false
is_stop (err exc) = is_budget_stop exc

module _ {W : Type 0} (P : W → Type 0) where
  -- `P` holds after a call that no budget stop has ended
  abbrev pub Kept : {A : Type 0} → Result Exc A × W → Type 0
  Kept x = is_stop x.0 ≡ false → P x.1

  abbrev pub KeptBy : Option (Summarizer W) → Type 0
  KeptBy none = Unit
  KeptBy (some summarize) = (ms : List Message) (w : W) → P w → Kept (summarize ms w)

  condense-Kept :
      (s : Source) (d : Draft) (x : Result Exc Text × W) → Kept x → Kept (condense s d x)
  condense-Kept s d (err exc, w) h = h
  condense-Kept s d (ok summary, w) h = h

  give_up-Kept :
      (o : Option (Summarizer W)) (s : Source) (d : Draft) (w : W)
      → KeptBy o
      → P w
      → Kept (give_up o s d w)
  unfolding give_up
  give_up-Kept none s d w k p = λ _. p
  give_up-Kept (some summarize) s d w k p =
      condense-Kept s d (summarize s.messages w) (k s.messages w p)

  break_or_go_on-Kept :
      (max_tokens : ℕ) (before after : List Source)
      (next : List Source → Draft → Exec Exc W (List Source × Draft))
      (x : Result Exc (Source × Draft) × W)
      → ((b : List Source) (d : Draft) (w : W) → P w → Kept (next b d w))
      → Kept x
      → Kept (break_or_go_on max_tokens before after next x)
  break_or_go_on-Kept max_tokens before after next (err exc, w) n h = h
  break_or_go_on-Kept max_tokens before after next (ok (s, d), w) n h =
      elim (Bool-cases
        (leb (estimate_tokens (assemble d.dropped (before ++ s ∷ after))) max_tokens)) [
          | inl e ↦ rw e (λ _. h refl)
          | inr e ↦ rw e (n (before ++ s ∷ []) d w (h refl))
        ]

  shrink-Kept :
      (max_tokens : ℕ) (o : Option (Summarizer W)) (after before : List Source) (d : Draft) (w : W)
      → KeptBy o
      → P w
      → Kept (shrink max_tokens o after before d w)
  unfolding shrink
  shrink-Kept max_tokens o [] before d w k p = λ _. p
  shrink-Kept max_tokens o (s ∷ after) before d w k p =
      elim (Bool-cases (s.pinned || not (has_messages s.messages))) [
        | inl e ↦ rw e (shrink-Kept max_tokens o after (before ++ s ∷ []) d w k p)
        | inr e ↦ rw e (
            break_or_go_on-Kept max_tokens before after (shrink max_tokens o after)
              (give_up o s d w) (λ b c v q. shrink-Kept max_tokens o after b c v k q)
              (give_up-Kept o s d w k p))
      ]

  with_messages-Kept :
      (cs : List SourceContribution) (x : Result Exc (List Message) × W)
      → Kept x
      → Kept (with_messages cs x)
  with_messages-Kept cs (err exc, w) h = h
  with_messages-Kept cs (ok messages, w) h = h

  summarised-Kept :
      (summarize : Summarizer W) (recent : ℕ) (ms : List Message) (x : Result Exc Text × W)
      → Kept x
      → Kept (summarised is_system summarize recent ms x)
  summarised-Kept summarize recent ms (err exc, w) h = h
  summarised-Kept summarize recent ms (ok summary, w) h = h

  summarise_droppable-Kept :
      (summarize : Summarizer W) (recent : ℕ) (ms ds : List Message) (w : W)
      → KeptBy (some summarize)
      → P w
      → Kept (summarise_droppable is_system summarize recent ms ds w)
  summarise_droppable-Kept summarize recent ms [] w k p = λ _. p
  summarise_droppable-Kept summarize recent ms (d ∷ ds) w k p =
      summarised-Kept summarize recent ms (summarize (d ∷ ds) w) (k (d ∷ ds) w p)

  compact-Kept :
      (summarize : Summarizer W) (max_tokens keep_recent : ℕ) (ms : List Message) (w : W)
      → KeptBy (some summarize)
      → P w
      → Kept (compact is_system summarize max_tokens keep_recent ms w)
  unfolding compact
  compact-Kept summarize max_tokens keep_recent ms w k p =
      elim (Bool-cases (leb (estimate_tokens ms) max_tokens)) [
        | inl e ↦ rw e (λ _. p)
        | inr e ↦ rw e (summarise_droppable-Kept summarize (recent_from _ keep_recent) ms _ w k p)
      ]

  compact_left-Kept :
      (max_tokens : ℕ) (o : Option (Summarizer W)) (keep_recent : ℕ) (ms : List Message) (w : W)
      → KeptBy o
      → P w
      → Kept (compact_left max_tokens o keep_recent ms w)
  compact_left-Kept max_tokens none keep_recent ms w k p = λ _. p
  compact_left-Kept max_tokens (some summarize) keep_recent ms w k p =
      elim (Bool-cases (ltb max_tokens (estimate_tokens ms))) [
        | inl e ↦ rw e (compact-Kept summarize max_tokens keep_recent ms w k p)
        | inr e ↦ rw e (λ _. p)
      ]

  after_shrink-Kept :
      (max_tokens : ℕ) (o : Option (Summarizer W)) (keep_recent : ℕ) (x : Looped W)
      → KeptBy o
      → Kept x
      → Kept (after_shrink max_tokens o keep_recent x)
  after_shrink-Kept max_tokens o keep_recent (err exc, w) k h = h
  after_shrink-Kept max_tokens o keep_recent (ok (emitted, d), w) k h =
      with_messages-Kept d.contributions
        (compact_left max_tokens o keep_recent (assemble d.dropped emitted) w)
        (compact_left-Kept max_tokens o keep_recent (assemble d.dropped emitted) w k (h refl))

  compile_under-Kept :
      (max_tokens : Option ℕ) (o : Option (Summarizer W)) (keep_recent : ℕ) (O : List Source)
      (w : W)
      → KeptBy o
      → P w
      → Kept (compile_under max_tokens o keep_recent O w)
  compile_under-Kept none o keep_recent O w k p = λ _. p
  compile_under-Kept (some max_tokens) o keep_recent O w k p =
      elim (Bool-cases (leb (estimate_tokens (assemble [] O)) max_tokens)) [
        | inl e ↦ rw e (λ _. p)
        | inr e ↦
            rw e (
              after_shrink-Kept max_tokens o keep_recent _ k
                (shrink-Kept max_tokens o O [] _ w k p))
      ]

  assembled-Kept :
      (warn : Exc → W → W) (messages : List Message) (x : Result Exc CompileResult × W)
      → ((exc : Exc) (w : W) → P w → P (warn exc w))
      → Kept x
      → Kept (assembled warn messages x)
  assembled-Kept warn messages (ok r, w) q h = h
  assembled-Kept warn messages (err exc, w) q h = elim (Bool-cases (is_budget_stop exc)) [
    | inl e ↦ rw e h
    | inr e ↦ rw e (λ _. q exc w (h e))
  ]

  when-KeptBy :
      (b : Bool) (summarize : Summarizer W) → KeptBy (some summarize) → KeptBy (when b summarize)
  when-KeptBy true summarize k = k
  when-KeptBy false summarize k = tt

  pub compile_prompt-Kept :
      (warn : Exc → W → W) (summarize : Summarizer W) (a : Assembly) (messages : List Message)
      (extra : List Source) (w : W)
      → ((exc : Exc) (v : W) → P v → P (warn exc v))
      → KeptBy (some summarize)
      → P w
      → Kept (compile_prompt warn summarize a messages extra w)
  unfolding compile_prompt compile_context
  compile_prompt-Kept warn summarize a messages extra w q k p = assembled-Kept warn messages _ q (
      compile_under-Kept (when a.compaction_enabled a.max_context_tokens)
        (when a.compaction_enabled summarize) a.keep_recent _ w
        (when-KeptBy a.compaction_enabled summarize k) p)
