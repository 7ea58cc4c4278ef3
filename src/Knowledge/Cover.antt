-- ===== src/Knowledge/Cover.antt =====
-- knowledge/chunking.py: the chunks of a document cover it, in order and without gaps.
use lottie_orchestrator.Prelude.{
  ℕ, zero, suc, ◌+◌, ◌-◌, ◌≤◌, ◌<◌, ◌≡◌, refl, subst, inl, inr, Option, none, some, Bool, true,
  false, min, max, List, [], ◌∷◌, leb, ltb, length, take, drop, length-take, length-drop, arith,
  Bool-cases,
}
use lottie_orchestrator.Prelude.Texts.{Text}
use lottie_orchestrator.Knowledge.Chunking.{
  ChunkConfig, validate_window, Chunk, starts_with, shifted, rfind, or_next, boundary_in, offset_by,
  find_boundary, snap, window_end, chunk_at, chunks_from, chunk_document,
}

starts_with-le : (p s : Text) → starts_with p s ≡ true → length p ≤ length s
unfolding starts_with
starts_with-le [] s h = omega arith
starts_with-le (c ∷ p) [] h = cc
starts_with-le (c ∷ p) (d ∷ s) h = ground (arith, starts_with-le p s)

-- where a match ends lies within the text
abbrev EndsIn : ℕ → ℕ → Option ℕ → Type 0
EndsIn after n none = Unit
EndsIn after n (some i) = i + after ≤ n

rfind-EndsIn : (sep s : Text) → EndsIn (length sep) (length s) (rfind sep s)
unfolding rfind
rfind-EndsIn sep [] = tt
rfind-EndsIn sep (c ∷ s) = go (rfind sep s) (rfind-EndsIn sep s) _ refl
  where
    go :
        (o : Option ℕ)
        → EndsIn (length sep) (length s) o
        → (here : Bool) → starts_with sep (c ∷ s) ≡ here
        → EndsIn (length sep) (suc (length s)) (shifted o here)
    go (some i) h here e = omega arith
    go none h true e = omega (arith, starts_with-le sep (c ∷ s) e)
    go none h false e = tt

boundary_in-EndsIn : (seps : List Text) (s : Text) → EndsIn 0 (length s) (boundary_in seps s)
unfolding boundary_in
boundary_in-EndsIn [] s = tt
boundary_in-EndsIn ([] ∷ seps) s = boundary_in-EndsIn seps s
boundary_in-EndsIn ((c ∷ sep) ∷ seps) s =
    go (rfind (c ∷ sep) s) (rfind-EndsIn (c ∷ sep) s) (boundary_in seps s)
      (boundary_in-EndsIn seps s)
  where
    go :
        (o : Option ℕ)
        → EndsIn (length (c ∷ sep)) (length s) o
        → (next : Option ℕ) → EndsIn 0 (length s) next
        → EndsIn 0 (length s) (or_next (length (c ∷ sep)) o next)
    go (some i) h next k = omega arith
    go none h next k = k

module _ (doc_id text : Text) (cfg : ChunkConfig) where
  -- the window's end is behind its start, within the size and the text
  snap-bounds :
      (start stop : ℕ) (o : Option ℕ)
      → start < stop
      → EndsIn 0 (stop - start) o
      → (start < snap cfg start stop (offset_by start o))
        × (snap cfg start stop (offset_by start o) ≤ stop)
  snap-bounds start stop none h k = (h, omega arith)
  snap-bounds start stop (some i) h k = ground arith

  window_end-bounds :
      (start : ℕ)
      → 1 ≤ cfg.size
      → start < length text
      → (start < window_end doc_id text cfg start)
        × (window_end doc_id text cfg start ≤ min (start + cfg.size) (length text))
  unfolding window_end find_boundary
  window_end-bounds start v h =
      let stop = min (start + cfg.size) (length text) in
      let window = take (stop - start) (drop start text) in
      let whole : length window ≡ stop - start =
        omega (arith, length-take (stop - start) (drop start text), length-drop start text) in
      let found =
        subst (λ n. EndsIn 0 n (boundary_in cfg.separators window)) whole
          (boundary_in-EndsIn cfg.separators window) in
      elim (Bool-cases (ltb stop (length text))) [
        | inl e ↦
            rw e (snap-bounds start stop (boundary_in cfg.separators window) (omega arith) found)
        | inr e ↦ rw e (omega arith, omega arith)
      ]

  -- A chunk is a part of the text that is not empty and no longer than the size.
  pub record IsPart (c : Chunk) : Type 0 where
    pub cut : c.text ≡ take (c.stop - c.start) (drop c.start text)
    pub filled : c.start < c.stop
    pub bounded : c.stop ≤ c.start + cfg.size
    pub inside : c.stop ≤ length text

  -- Chunks that cover the text from a position on: each starts behind the start of the one before
  -- it, no later than that one ends, and shares at most the overlap with it; the last one ends with
  -- the text.
  pub data Covers : ℕ → List Chunk → Type 0 where
    at_end : (c : Chunk) → IsPart c → c.stop ≡ length text → Covers c.start (c ∷ [])
    onward :
        (c : Chunk) (next : ℕ) (rest : List Chunk)
        → IsPart c
        → c.start < next
        → next ≤ c.stop
        → (c.stop ≤ next + cfg.overlap)
        → Covers next rest
        → Covers c.start (c ∷ rest)

  chunk_at-IsPart :
      (start idx : ℕ)
      → 1 ≤ cfg.size
      → start < length text
      → IsPart (chunk_at doc_id text cfg start idx)
  unfolding chunk_at
  chunk_at-IsPart start idx v h =
      let (front, back) = window_end-bounds start v h in
      record { cut = refl; filled = front; bounded = omega arith; inside = omega arith }

  chunks_from-Covers :
      (fuel start idx : ℕ)
      → 1 ≤ cfg.size
      → start < length text
      → length text ≤ start + fuel
      → Covers start (chunks_from doc_id text cfg fuel start idx)
  unfolding chunks_from
  chunks_from-Covers zero start idx v h k = absurd (omega arith)
  chunks_from-Covers (suc fuel) start idx v h k =
      let part = chunk_at-IsPart start idx v h in
      let stop = window_end doc_id text cfg start in
      let (front, back) = window_end-bounds start v h in
      let inside : ltb start (length text) ≡ true = ground arith in
      elim (Bool-cases (leb (length text) stop)) [
        | inl e ↦ rw (inside, e) (at_end (chunk_at doc_id text cfg start idx) part (ground arith))
        | inr e ↦
            let next = max (stop - cfg.overlap) (start + 1) in
            rw (inside, e)
              (onward (chunk_at doc_id text cfg start idx) next _ part (omega arith) (omega arith)
                (omega arith)
                (chunks_from-Covers fuel next (idx + 1) v (ground arith) (omega arith)))
      ]

  -- The chunks of a document that is not empty cover it in order and without gaps: each is a part of
  -- the text of at most the size, starts behind the one before it and within it or right after it,
  -- shares at most the overlap with it, and the last one ends with the text. So the loop ends. The
  -- configuration is one that the validator accepts.
  pub chunk_document-Covers :
      validate_window cfg ≡ true → 0 < length text → Covers 0 (chunk_document doc_id text cfg)
  unfolding chunk_document validate_window
  chunk_document-Covers v h = chunks_from-Covers (length text) 0 0 (ground arith) h (omega arith)
