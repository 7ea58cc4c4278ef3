-- ===== src/Context/Compiled.antt =====
-- context/compiler.py: a compiled context is made of its sources in order, the pinned ones whole.
use lottie_orchestrator.Prelude.{
  ℕ, ◌≡◌, refl, subst, Option, none, some, List, [], ◌∷◌, ltb, leb, All, Bool-cases, inl, inr,
}
use lottie_orchestrator.Prelude.Sort.{sort_by, by_key, sort_by-All}
use lottie_orchestrator.Exec.{Exc, Result, ok, err}
use lottie_orchestrator.Context.Compaction.{Message, estimate_tokens}
use lottie_orchestrator.Context.Survivors.{Compacted, unchanged, compact-Compacted}
use lottie_orchestrator.Context.Compiler.{
  SourceContribution, Source, CompileResult, Summarizer, Looped, is_system, assemble, with_messages,
  compact_left, after_shrink, compile_under, compile_context,
}
use lottie_orchestrator.Context.Pinned.{
  done, Assembled, Rewrites-refl, assemble-Assembled, Spares-nil, IsApart, Loop, shrink-Loop,
}

unchanged_by :
    {W : Type 0} (keep_recent : ℕ) (ms out : List Message) (w w' : W)
    → ◌≡◌ {A = Result Exc (List Message) × W} (ok ms, w) (ok out, w')
    → Compacted is_system keep_recent ms out
unchanged_by keep_recent ms out w w' h =
    let same : ms ≡ out = cc in subst (Compacted is_system keep_recent ms) same unchanged

compact_left-Compacted :
    {W : Type 0} (max_tokens keep_recent : ℕ) (summarize : Option (Summarizer W))
    (parts out : List Message) (w w' : W)
    → compact_left max_tokens summarize keep_recent parts w ≡ (ok out, w')
    → Compacted is_system keep_recent parts out
compact_left-Compacted max_tokens keep_recent none parts out w w' h =
    unchanged_by keep_recent parts out w w' h
compact_left-Compacted max_tokens keep_recent (some summarize) parts out w w' h =
    elim (Bool-cases (ltb max_tokens (estimate_tokens parts))) [
      | inl e ↦
          compact-Compacted is_system summarize max_tokens keep_recent parts out w w' (rw e at h)
      | inr e ↦ unchanged_by keep_recent parts out w w' (rw e at h)
    ]

-- What is compiled of ordered sources: their contributions in order, then compacted or as they are.
pub record Compiled (O : List Source) (keep_recent : ℕ) (messages : List Message) : Type 0 where
  pub parts : List Message
  pub assembled : Assembled O parts
  pub compacted : Compacted is_system keep_recent parts messages

module _ {W : Type 0} (O : List Source) (keep_recent : ℕ) where
  with_messages-Compiled :
      (cs : List SourceContribution) (parts : List Message) (x : Result Exc (List Message) × W)
      (r : CompileResult) (w' : W)
      → Assembled O parts
      → ((out : List Message) (v : W) → x ≡ (ok out, v) → Compacted is_system keep_recent parts out)
      → with_messages cs x ≡ (ok r, w')
      → Compiled O keep_recent r.messages
  with_messages-Compiled cs parts (err exc, w) r w' a c h = cc
  with_messages-Compiled cs parts (ok out, w) r w' a c h =
      let same : out ≡ r.messages = messages_of out r w w' cs h in
      record {
        parts = parts;
        assembled = a;
        compacted = subst (Compacted is_system keep_recent parts) same (c out w refl);
      }
    where
      messages_of :
          (out : List Message) (r : CompileResult) (w w' : W) (cs : List SourceContribution)
          → ◌≡◌ {A = Result Exc CompileResult × W}
              (ok (record { messages = out; contributions = cs }), w)
              (ok r, w')
          → out ≡ r.messages
      messages_of out r w w' cs h = cc

  after_shrink-Compiled :
      (max_tokens : ℕ) (summarize : Option (Summarizer W)) (x : Looped W) (r : CompileResult)
      (w' : W)
      → Loop O x
      → after_shrink max_tokens summarize keep_recent x ≡ (ok r, w')
      → Compiled O keep_recent r.messages
  after_shrink-Compiled max_tokens summarize (err exc, w) r w' l h = cc
  after_shrink-Compiled max_tokens summarize (ok (emitted, d), w) r w' l h =
      let parts = assemble d.dropped emitted in
      with_messages-Compiled d.contributions parts
        (compact_left max_tokens summarize keep_recent parts w) r w'
        (assemble-Assembled d.dropped l.0 l.1)
        (λ out v e. compact_left-Compacted max_tokens keep_recent summarize parts out w v e) h

  untouched :
      (cs : List SourceContribution) (w w' : W) (r : CompileResult)
      → ◌≡◌ {A = Result Exc CompileResult × W}
          (ok (record { messages = assemble [] O; contributions = cs }), w)
          (ok r, w')
      → Compiled O keep_recent r.messages
  untouched cs w w' r h =
      let same : assemble [] O ≡ r.messages = cc in
      record {
        parts = assemble [] O;
        assembled = assemble-Assembled [] (Rewrites-refl O) (Spares-nil O);
        compacted = subst (Compacted is_system keep_recent (assemble [] O)) same unchanged;
      }

  compile_under-Compiled :
      (max_tokens : Option ℕ) (summarize : Option (Summarizer W)) (w w' : W) (r : CompileResult)
      → All (IsApart O) O
      → compile_under max_tokens summarize keep_recent O w ≡ (ok r, w')
      → Compiled O keep_recent r.messages
  compile_under-Compiled none summarize w w' r apart h = untouched _ w w' r h
  compile_under-Compiled (some max_tokens) summarize w w' r apart h =
      elim (Bool-cases (leb (estimate_tokens (assemble [] O)) max_tokens)) [
        | inl e ↦ untouched _ w w' r (rw e at h)
        | inr e ↦
            after_shrink-Compiled max_tokens summarize _ r w'
              (shrink-Loop O max_tokens summarize [] [] O _ w done refl apart (Spares-nil O))
              (rw e at h)
      ]

in_order : List Source → List Source
in_order sources = sort_by (by_key (λ s. s.order)) sources

IsApart-in_order :
    (sources ts : List Source) → All (IsApart sources) ts → All (IsApart (in_order sources)) ts
unfolding in_order
IsApart-in_order sources [] h = tt
IsApart-in_order sources (t ∷ ts) h =
    (λ p. sort_by-All (by_key (λ s. s.order)) _ sources (h.0 p), IsApart-in_order sources ts h.1)

-- What `compile_context` returns is made of the contributions of the sources in their declared
-- order, where a pinned source contributes all its messages, and another one its messages, one
-- summary or nothing; these messages are returned as they are, or compacted so that all system
-- messages and the most recent ones stay. No unpinned source has the name of a pinned one.
pub compile_context-Compiled :
    {W : Type 0} (sources : List Source) (max_tokens : Option ℕ) (summarize : Option (Summarizer W))
    (keep_recent : ℕ) (w w' : W) (r : CompileResult)
    → All (IsApart sources) sources
    → compile_context sources max_tokens summarize keep_recent w ≡ (ok r, w')
    → Compiled (sort_by (by_key (λ s. s.order)) sources) keep_recent r.messages
unfolding compile_context in_order
compile_context-Compiled sources max_tokens summarize keep_recent w w' r apart h =
    let O = in_order sources in
    compile_under-Compiled O keep_recent max_tokens summarize w w' r
      (sort_by-All (by_key (λ s. s.order)) (IsApart O) sources
        (IsApart-in_order sources sources apart))
      h
