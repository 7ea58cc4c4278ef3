-- ===== src/Context/Survivors.antt =====
-- context/compaction.py: what compaction never drops.
use lottie_orchestrator.Prelude.{
  ℕ, zero, suc, ◌+◌, ◌≤◌, ◌≡◌, refl, sym, ap, subst, ◌∙◌, inl, inr, Bool, true, false, List, [],
  ◌∷◌, ◌++◌, leb, ltb, length, keep, drop, arith, Bool-cases, if◌then◌else◌,
}
use lottie_orchestrator.Prelude.Texts.{Text}
use lottie_orchestrator.Exec.{Exc, Result, ok, err, Exec}
use lottie_orchestrator.Context.Compaction.{
  Message, estimate_tokens, summary_message, recent_from, is_droppable, droppable, rebuild,
  summarised, summarise_droppable, compact,
}

module _ (pinned : Message → Bool) (recent : ℕ) where
  -- the messages that are not dropped, from an index on
  survivors : ℕ → List Message → List Message
  survivors i [] = []
  survivors i (m ∷ ms) =
      let rest = survivors (i + 1) ms in if is_droppable pinned recent i m then rest else m ∷ rest

  rebuild_placed :
      (s : Message) (i : ℕ) (ms : List Message) → rebuild pinned recent s true i ms ≡ survivors i ms
  unfolding rebuild survivors
  rebuild_placed s i [] = refl
  rebuild_placed s i (m ∷ ms) = elim (Bool-cases (is_droppable pinned recent i m)) [
    | inl e ↦ rw e (rebuild_placed s (i + 1) ms)
    | inr e ↦ rw e (ap (λ t. m ∷ t) (rebuild_placed s (i + 1) ms))
  ]

  -- the survivors, parted where the summary stands
  record Parted (s : Message) (i : ℕ) (ms : List Message) : Type 0 where
    before : List Message
    after : List Message
    built : rebuild pinned recent s false i ms ≡ before ++ s ∷ after
    kept : before ++ after ≡ survivors i ms

  rebuild-Parted :
      (s : Message) (i : ℕ) (ms : List Message) (d : Message) (ds : List Message)
      → droppable pinned recent i ms ≡ d ∷ ds
      → Parted s i ms
  unfolding rebuild survivors droppable
  rebuild-Parted s i [] d ds h = cc
  rebuild-Parted s i (m ∷ ms) d ds h = elim (Bool-cases (is_droppable pinned recent i m)) [
    | inl e ↦ record {
      before = [];
      after = survivors (i + 1) ms;
      built = rw e (ap (λ t. s ∷ t) (rebuild_placed s (i + 1) ms));
      kept = rw e refl;
    }
    | inr e ↦
        let p = rebuild-Parted s (i + 1) ms d ds (rw e at h) in
        record {
          before = m ∷ p.before;
          after = p.after;
          built = rw e (ap (λ t. m ∷ t) p.built);
          kept = rw e (ap (λ t. m ∷ t) p.kept);
        }
  ]

  survivors-pinned : (i : ℕ) (ms : List Message) → keep pinned (survivors i ms) ≡ keep pinned ms
  unfolding survivors
  survivors-pinned i [] = refl
  survivors-pinned i (m ∷ ms) = ground (arith, survivors-pinned (i + 1) ms)

  -- the messages from `recent` on are all among the survivors, at their end
  survivors_late : (i : ℕ) (ms : List Message) → recent ≤ i → survivors i ms ≡ ms
  unfolding survivors
  survivors_late i [] h = refl
  survivors_late i (m ∷ ms) h =
      let late : ltb i recent ≡ false = ground arith in
      rw late (ap (λ t. m ∷ t) (survivors_late (i + 1) ms (omega arith)))

  survivors-end :
      (i k : ℕ) (ms : List Message)
      → recent ≡ i + k
      → (front : List Message) × (survivors i ms ≡ front ++ drop k ms)
  unfolding survivors
  survivors-end i zero ms h = ([], survivors_late i ms (omega arith))
  survivors-end i (suc k) [] h = ([], refl)
  survivors-end i (suc k) (m ∷ ms) h =
      let (front, e) = survivors-end (i + 1) k ms (omega arith) in
      elim (Bool-cases (is_droppable pinned recent i m)) [
        | inl d ↦ rw d (front, e)
        | inr d ↦ rw d (m ∷ front, ap (λ t. m ∷ t) e)
      ]

-- What `compact` makes of messages: the same ones, or some of them with one summary among them. All
-- pinned messages are kept, and so are the most recent ones, at the end.
pub data Compacted (pinned : Message → Bool) (keep_recent : ℕ) (ms : List Message)
    : List Message → Type 0 where
  unchanged : Compacted pinned keep_recent ms ms
  condensed :
      (before after front : List Message) (summary : Text)
      → keep pinned (before ++ after) ≡ keep pinned ms
      → before ++ after ≡ front ++ drop (recent_from (length ms) keep_recent) ms
      → Compacted pinned keep_recent ms (before ++ summary_message summary ∷ after)

module _ {W : Type 0} (pinned : Message → Bool) (summarize : List Message → Exec Exc W Text) where
  summarised-Compacted :
      (keep_recent : ℕ) (ms out : List Message) (d : Message) (ds : List Message) (w' : W)
      (r : Result Exc Text × W)
      → droppable pinned (recent_from (length ms) keep_recent) 0 ms ≡ d ∷ ds
      → summarised pinned summarize (recent_from (length ms) keep_recent) ms r ≡ (ok out, w')
      → Compacted pinned keep_recent ms out
  summarised-Compacted keep_recent ms out d ds w' (err exc, w) e h = cc
  summarised-Compacted keep_recent ms out d ds w' (ok summary, w) e h =
      let recent = recent_from (length ms) keep_recent in
      let p = rebuild-Parted pinned recent (summary_message summary) 0 ms d ds e in
      let (front, ends) = survivors-end pinned recent 0 recent ms (omega arith) in
      let same : rebuild pinned recent (summary_message summary) false 0 ms ≡ out =
        ok-injective _ out (ap (λ x. x.0) h) in
      subst (Compacted pinned keep_recent ms) (sym p.built ∙ same) (
        condensed p.before p.after front summary
          (ap (keep pinned) p.kept ∙ survivors-pinned pinned recent 0 ms) (p.kept ∙ ends))
    where
      ok-injective :
          (a b : List Message) → ◌≡◌ {A = Result Exc (List Message)} (ok a) (ok b) → a ≡ b
      ok-injective a b h = cc

  unchanged_by :
      (keep_recent : ℕ) (ms out : List Message) (w w' : W)
      → ◌≡◌ {A = Result Exc (List Message) × W} (ok ms, w) (ok out, w')
      → Compacted pinned keep_recent ms out
  unchanged_by keep_recent ms out w w' h =
      let same : ms ≡ out = cc in subst (Compacted pinned keep_recent ms) same unchanged

  droppable-Compacted :
      (keep_recent : ℕ) (ms out ds : List Message) (w w' : W)
      → droppable pinned (recent_from (length ms) keep_recent) 0 ms ≡ ds
      → summarise_droppable pinned summarize (recent_from (length ms) keep_recent) ms ds w
        ≡ (ok out, w')
      → Compacted pinned keep_recent ms out
  droppable-Compacted keep_recent ms out [] w w' e h = unchanged_by keep_recent ms out w w' h
  droppable-Compacted keep_recent ms out (d ∷ ds) w w' e h =
      summarised-Compacted keep_recent ms out d ds w' (summarize (d ∷ ds) w) e h

  -- Compaction gives back the messages as they are, or all pinned ones and the most recent ones, in
  -- their order, with some others and one summary among them, whatever the summariser says.
  pub compact-Compacted :
      (max_tokens keep_recent : ℕ) (ms out : List Message) (w w' : W)
      → compact pinned summarize max_tokens keep_recent ms w ≡ (ok out, w')
      → Compacted pinned keep_recent ms out
  unfolding compact
  compact-Compacted max_tokens keep_recent ms out w w' h =
      elim (Bool-cases (leb (estimate_tokens ms) max_tokens)) [
        | inl e ↦ unchanged_by keep_recent ms out w w' (rw e at h)
        | inr e ↦ droppable-Compacted keep_recent ms out _ w w' refl (rw e at h)
      ]
