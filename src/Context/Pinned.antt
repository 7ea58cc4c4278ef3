-- ===== src/Context/Pinned.antt =====
-- context/compiler.py: what becomes of each source in a compiled context.
use lottie_orchestrator.Prelude.{
  ℕ, ◌≡◌, refl, sym, ap, subst, ◌∙◌, String, Option, none, some, Bool, true, false, not, ◌||◌, List,
  [], ◌∷◌, ◌++◌, append_assoc, append_nil, leb, str_eq, All, Bool-cases, inl, inr, arith,
  if◌then◌else◌,
}
use lottie_orchestrator.Prelude.Texts.{Text, contains}
use lottie_orchestrator.Exec.{Exc, Result, ok, err, Exec}
use lottie_orchestrator.Context.Compaction.{Message, estimate_tokens}
use lottie_orchestrator.Context.Compiler.{
  Source, Draft, Summarizer, Looped, compacted_message, assemble, has_messages, condense, give_up,
  break_or_go_on, shrink,
}

-- what a source contributes: its messages, or if it is not pinned, one summary or nothing
pub data Shown (s : Source) : List Message → Type 0 where
  whole : Shown s s.messages
  condensed : (summary : Text) → s.pinned ≡ false → Shown s (compacted_message s.name summary ∷ [])
  gone : s.pinned ≡ false → Shown s []

-- the contributions of sources, in their order
pub data Assembled : List Source → List Message → Type 0 where
  nothing : Assembled [] []
  next :
      {s : Source} {ss : List Source} {ms out : List Message}
      → Shown s ms
      → Assembled ss out
      → Assembled (s ∷ ss) (ms ++ out)

pub record Rewritten (s e : Source) : Type 0 where
  pub named : e.name ≡ s.name
  pub shown : Shown s e.messages

pub data Rewrites : List Source → List Source → Type 0 where
  done : Rewrites [] []
  also :
      {s e : Source} {ss es : List Source}
      → Rewritten s e
      → Rewrites ss es
      → Rewrites (s ∷ ss) (e ∷ es)

pub Rewrites-refl : (ss : List Source) → Rewrites ss ss
Rewrites-refl [] = done
Rewrites-refl (s ∷ ss) = also (record { named = refl; shown = whole }) (Rewrites-refl ss)

Rewrites-append : {a b c d : List Source} → Rewrites a b → Rewrites c d → Rewrites (a ++ c) (b ++ d)
Rewrites-append done r = r
Rewrites-append (also h hs) r = also h (Rewrites-append hs r)

-- no pinned source has a dropped name
abbrev pub Spares : List String → List Source → Type 0
Spares dropped = All (λ s. s.pinned ≡ true → contains dropped s.name ≡ false)

-- the name of an unpinned source is not that of a pinned one
abbrev pub IsApart : List Source → Source → Type 0
IsApart ss t = t.pinned ≡ false → All (λ s. s.pinned ≡ true → str_eq t.name s.name ≡ false) ss

Spares-cons :
    (name : String) (dropped : List String) (ss : List Source)
    → All (λ s. s.pinned ≡ true → str_eq name s.name ≡ false) ss
    → Spares dropped ss
    → Spares (name ∷ dropped) ss
Spares-cons name dropped [] h k = tt
Spares-cons name dropped (s ∷ ss) h k =
    (λ p. let a = h.0 p in let b = k.0 p in ground arith, Spares-cons name dropped ss h.1 k.1)

pub Spares-nil : (ss : List Source) → Spares [] ss
Spares-nil [] = tt
Spares-nil (s ∷ ss) = (λ p. refl, Spares-nil ss)

pub assemble-Assembled :
    (dropped : List String) {ss es : List Source}
    → Rewrites ss es
    → Spares dropped ss
    → Assembled ss (assemble dropped es)
unfolding assemble
assemble-Assembled dropped done h = nothing
assemble-Assembled dropped (also {s} {e} r rs) h =
    let rest = assemble-Assembled dropped rs h.1 in
    elim (Bool-cases (contains dropped e.name)) [
      | inl c ↦
          let loose : s.pinned ≡ false = elim (Bool-cases s.pinned) [
            | inl p ↦ cc (ap (contains dropped) r.named ∙ h.0 p)
            | inr p ↦ p
          ] in
          rw c (next (gone loose) rest)
      | inr c ↦ rw c (next r.shown rest)
    ]

module _ {W : Type 0} (O : List Source) where
  -- what holds after the loop
  abbrev pub Loop : Looped W → Type 0
  Loop (err exc, w) = Unit
  Loop (ok (emitted, d), w) = Rewrites O emitted × Spares d.dropped O

  -- what holds of a source after its turn
  Turn : Source → Result Exc (Source × Draft) × W → Type 0
  Turn s (err exc, w) = Unit
  Turn s (ok (e, d), w) = Rewritten s e × Spares d.dropped O

  condense-Turn :
      (s : Source) (d : Draft) (x : Result Exc Text × W)
      → s.pinned ≡ false
      → Spares d.dropped O
      → Turn s (condense s d x)
  unfolding Turn
  condense-Turn s d (err exc, w) p h = tt
  condense-Turn s d (ok summary, w) p h = (record { named = refl; shown = condensed summary p }, h)

  give_up-Turn :
      (summarize : Option (Summarizer W)) (s : Source) (d : Draft) (w : W)
      → s.pinned ≡ false
      → IsApart O s
      → Spares d.dropped O
      → Turn s (give_up summarize s d w)
  unfolding Turn give_up
  give_up-Turn none s d w p apart h =
      (record { named = refl; shown = whole }, Spares-cons s.name d.dropped O (apart p) h)
  give_up-Turn (some summarize) s d w p apart h = condense-Turn s d (summarize s.messages w) p h

  module _ (max_tokens : ℕ) where
    break_or_go_on-Loop :
        (first before after : List Source) (s : Source)
        (again : List Source → Draft → Exec Exc W (List Source × Draft))
        (x : Result Exc (Source × Draft) × W)
        → Rewrites first before
        → first ++ s ∷ after ≡ O
        → Turn s x
        → ((e : Source) (d : Draft) (w : W)
            → Rewritten s e
            → Spares d.dropped O
            → Loop (again (before ++ e ∷ []) d w))
        → Loop (break_or_go_on max_tokens before after again x)
    unfolding Turn
    break_or_go_on-Loop first before after s again (err exc, w) r same t go = tt
    break_or_go_on-Loop first before after s again (ok (e, d), w) r same t go =
        elim (Bool-cases
          (leb (estimate_tokens (assemble d.dropped (before ++ e ∷ after))) max_tokens)) [
            | inl c ↦ rw c (
              subst (λ o. Rewrites o (before ++ e ∷ after)) same
                  (Rewrites-append r (also t.0 (Rewrites-refl after))),
              t.1,
            )
            | inr c ↦ rw c (go e d w t.0 t.1)
          ]

    ended :
        {emitted : List Source} (d : Draft) (w : W)
        → Rewrites O emitted
        → Spares d.dropped O
        → Loop (ok (emitted, d), w)
    ended d w r h = (r, h)

    Loop-if :
        (b : Bool) (x y : Looped W) → Loop x → (b ≡ false → Loop y) → Loop (if b then x else y)
    Loop-if true x y h k = h
    Loop-if false x y h k = k refl

    pub shrink-Loop :
        (summarize : Option (Summarizer W)) (first before after : List Source) (d : Draft) (w : W)
        → Rewrites first before
        → first ++ after ≡ O
        → All (IsApart O) after
        → Spares d.dropped O
        → Loop (shrink max_tokens summarize after before d w)
    unfolding shrink
    shrink-Loop summarize first before [] d w r same aparts h =
        ended d w (subst (λ o. Rewrites o before) (sym (append_nil first) ∙ same) r) h
    shrink-Loop summarize first before (s ∷ after) d w r same aparts h =
        let regroup = append_assoc first (s ∷ []) after ∙ same in
        let onward : (e : Source) (d' : Draft) (w' : W)
            → Rewritten s e
            → Spares d'.dropped O
            → Loop (shrink max_tokens summarize after (before ++ e ∷ []) d' w') =
          λ e d' w' t h'.
            shrink-Loop summarize (first ++ s ∷ []) (before ++ e ∷ []) after d' w'
              (Rewrites-append r (also t done)) regroup aparts.1 h' in
        Loop-if (s.pinned || not (has_messages s.messages)) _ _
          (onward s d w (record { named = refl; shown = whole }) h)
          (λ p.
            break_or_go_on-Loop first before after s (shrink max_tokens summarize after)
              (give_up summarize s d w) r same
              (give_up-Turn summarize s d w (ground arith) aparts.0 h) onward)
