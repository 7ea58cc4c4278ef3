-- ===== src/Serve/Lines.antt =====
-- serve/stream_gate.py: however a text is cut into deltas, the gate emits the lines of the text.
use lottie_orchestrator.Prelude.{
  all, ◌≡◌, refl, sym, ap, ◌∙◌, inl, inr, Bool, true, false, List, [], ◌∷◌, ◌++◌, ltb, length,
  concat, All, All-append, append_assoc, append_nil, Bool-cases, if◌then◌else◌, subst,
}
use lottie_orchestrator.Prelude.Texts.{Text}
use lottie_orchestrator.Serve.Cuts.{
  tail_of, pieces, pieces-append, IsRest, IsRest-drain, pieces-rest, IsCut, pieces-IsCut,
  concat-pieces,
}
use lottie_orchestrator.Serve.Gate.{
  max_line, GateEnd, finished, secret_detected, line_too_long, drain, emit_lines, flush,
  after_lines, scan_stream,
}

module _ (scan_text : Text → Bool) where
  abbrev pub IsClean : Text → Type 0
  IsClean s = scan_text s ≡ false

  -- What a consumer got of a text, from its pieces and how the stream ended.
  pub data Gated (all : List Text) : List Text × GateEnd → Type 0 where
    passed : (out : List Text) → All IsClean out → out ≡ all → Gated all (out, finished)
    stopped :
        (out : List Text) (bad : Text) (rest : List Text)
        → All IsClean out
        → scan_text bad ≡ true
        → out ++ bad ∷ rest ≡ all
        → Gated all (out, secret_detected)
    withheld :
        (out rest : List Text)
        → All IsClean out
        → out ++ rest ≡ all
        → Gated all (out, line_too_long)

  -- What a consumer got of a text, by a cut of the text into lines.
  pub record GatedLines (text : Text) (got : List Text × GateEnd) : Type 0 where
    pub cut : List Text
    pub lines : IsCut cut
    pub joined : concat cut ≡ text
    pub gated : Gated cut got

  -- The same for the lines of one delta.
  data Emitted (lines : List Text) : List Text × Bool → Type 0 where
    every : All IsClean lines → Emitted lines (lines, true)
    until :
        (out : List Text) (bad : Text) (rest : List Text)
        → All IsClean out
        → scan_text bad ≡ true
        → out ++ bad ∷ rest ≡ lines
        → Emitted lines (out, false)

  emit_lines-Emitted : (lines : List Text) → Emitted lines (emit_lines scan_text lines)
  unfolding emit_lines
  emit_lines-Emitted [] = every tt
  emit_lines-Emitted (line ∷ lines) =
      go (scan_text line) refl (emit_lines scan_text lines) (emit_lines-Emitted lines)
    where
      go :
          (t : Bool)
          → scan_text line ≡ t
          → (r : List Text × Bool) → Emitted lines r
          → Emitted (line ∷ lines) (if t then ([], false) else (line ∷ r.0, r.1))
      go true e r h = until [] line lines tt e refl
      go false e r (every c) = every (e, c)
      go false e r (until out bad rest c b p) =
          until (line ∷ out) bad rest (e, c) b (ap (λ t. line ∷ t) p)

  flush-Gated : (s : Text) → Gated (tail_of s) (flush scan_text s)
  unfolding flush
  flush-Gated [] = passed [] tt refl
  flush-Gated (c ∷ s) = elim (Bool-cases (scan_text (c ∷ s))) [
    | inl e ↦ rw e (stopped [] (c ∷ s) [] tt e refl)
    | inr e ↦ rw e (passed ((c ∷ s) ∷ []) (e, tt) refl)
  ]

  -- The pieces of earlier lines go before those that follow.
  prepend-Gated :
      (lines all : List Text) (r : List Text × GateEnd)
      → All IsClean lines
      → Gated all r
      → Gated (lines ++ all) (lines ++ r.0, r.1)
  prepend-Gated lines all r h (passed out c p) =
      passed (lines ++ out) (All-append IsClean lines out h c) (ap (λ t. lines ++ t) p)
  prepend-Gated lines all r h (stopped out bad rest c b p) =
      stopped (lines ++ out) bad rest (All-append IsClean lines out h c) b
        (append_assoc lines out (bad ∷ rest) ∙ ap (λ t. lines ++ t) p)
  prepend-Gated lines all r h (withheld out rest c p) =
      withheld (lines ++ out) rest (All-append IsClean lines out h c)
        (append_assoc lines out rest ∙ ap (λ t. lines ++ t) p)

  after_lines-Gated :
      (lines all : List Text) (emitted : List Text × Bool) (rest : Text)
      (again : List Text × GateEnd)
      → Emitted lines emitted
      → Gated all again
      → Gated (lines ++ all) (after_lines scan_text emitted rest again)
  after_lines-Gated lines all emitted rest again (until out bad more c b p) g =
      stopped out bad (more ++ all) c b
        (sym (append_assoc out (bad ∷ more) all) ∙ ap (λ t. t ++ all) p)
  after_lines-Gated lines all emitted rest again (every c) g =
      elim (Bool-cases (ltb max_line (length rest))) [
        | inl e ↦ rw e (withheld lines all c refl)
        | inr e ↦ rw e (prepend-Gated lines all again c g)
      ]

  scan_from-Gated :
      (buffer : Text) (deltas : List Text)
      → IsRest buffer
      → Gated (pieces (buffer ++ concat deltas)) (scan_stream scan_text buffer deltas)
  unfolding scan_stream
  scan_from-Gated buffer [] h = rw (append_nil buffer, pieces-rest buffer h) (flush-Gated buffer)
  scan_from-Gated buffer (delta ∷ deltas) h =
      let cut = drain (buffer ++ delta) in
      subst (λ all. Gated all (scan_stream scan_text buffer (delta ∷ deltas)))
        (sym (pieces-append (buffer ++ delta) (concat deltas))
          ∙ ap pieces (append_assoc buffer delta (concat deltas)))
        (after_lines-Gated cut.0 (pieces (cut.1 ++ concat deltas)) (emit_lines scan_text cut.0)
          cut.1 (scan_stream scan_text cut.1 deltas) (emit_lines-Emitted cut.0)
          (scan_from-Gated cut.1 deltas (IsRest-drain (buffer ++ delta))))

  -- However a text is cut into deltas, it can be cut into whole lines and its
  -- unterminated end, if any, so that joined they are the text, and a consumer gets pieces of that
  -- cut that the scanner has passed: all of them if the stream is exhausted, so that none is a
  -- secret; those before the first secret one if a secret ended it; some first ones if an overlong
  -- line ended it.
  pub scan_stream_gates :
      (deltas : List Text) → GatedLines (concat deltas) (scan_stream scan_text [] deltas)
  scan_stream_gates deltas = record {
    cut = pieces (concat deltas);
    lines = pieces-IsCut (concat deltas);
    joined = concat-pieces (concat deltas);
    gated = scan_from-Gated [] deltas (unfold IsRest drain in refl);
  }
