-- ===== src/Context/Kept.antt =====
-- context/compiler.py: a system message of a pinned source is in what is compiled.
use lottie_orchestrator.Prelude.{
  ℕ, ◌≡◌, refl, sym, ap, ◌∙◌, Bool, true, ◌&&◌, List, [], ◌∷◌, ◌++◌, any, keep, any-append, arith,
  Bool-cases, inl, inr,
}
use lottie_orchestrator.Context.Compaction.{Message, summary_message}
use lottie_orchestrator.Context.Survivors.{Compacted, unchanged, condensed}
use lottie_orchestrator.Context.Compiler.{Source, is_system}
use lottie_orchestrator.Context.Pinned.{Shown, whole, gone, Assembled, nothing, next}
use lottie_orchestrator.Context.Compiled.{Compiled}

module _ (p : Message → Bool) (system : (m : Message) → p m ≡ true → is_system m ≡ true) where
  -- a pinned source with such a message
  abbrev pub holds : Source → Bool
  holds s = s.pinned && any p s.messages

  Shown-any : (s : Source) (ms : List Message) → holds s ≡ true → Shown s ms → any p ms ≡ true
  Shown-any s _ h whole = ground (arith, h)
  Shown-any s _ h (Shown.condensed summary f) = ground (arith, h, f)
  Shown-any s _ h (gone f) = ground (arith, h, f)

  Assembled-any :
      (ss : List Source) (ms : List Message)
      → any holds ss ≡ true
      → Assembled ss ms
      → any p ms ≡ true
  Assembled-any _ _ h nothing = cc
  Assembled-any _ _ h (next {s} {ss} {ms} {out} shown rest) = elim (Bool-cases (holds s)) [
    | inl e ↦
        let here = Shown-any s ms e shown in
        let both = any-append p ms out in ground (arith, here, both)
    | inr e ↦
        let later : any holds ss ≡ true = ground (arith, h, e) in
        let there = Assembled-any ss out later rest in
        let both = any-append p ms out in ground (arith, there, both)
  ]

  any-keep : (ms : List Message) → any p (keep is_system ms) ≡ any p ms
  any-keep [] = refl
  any-keep (m ∷ ms) = let s = system m in ground (arith, s, any-keep ms)

  Compacted-any :
      (k : ℕ) (ms out : List Message)
      → any p ms ≡ true
      → Compacted is_system k ms out
      → any p out ≡ true
  Compacted-any k ms _ h unchanged = h
  Compacted-any k ms _ h (condensed before after front summary kept ends) =
      let same : any p (before ++ after) ≡ any p ms =
        sym (any-keep (before ++ after)) ∙ ap (any p) kept ∙ any-keep ms in
      let parts = any-append p before after in
      let spread = any-append p before (summary_message summary ∷ after) in
      ground (arith, h, same, parts, spread)

  pub Compiled-any :
      (O : List Source) (k : ℕ) (out : List Message)
      → any holds O ≡ true
      → Compiled O k out
      → any p out ≡ true
  Compiled-any O k out h c =
      Compacted-any k c.parts out (Assembled-any O c.parts h c.assembled) c.compacted
