-- ===== src/Context/Compaction.antt =====
-- context/compaction.py: older turns are replaced by one summary. The summariser is a parameter that
-- may raise and touches `W`.
use lottie_orchestrator.Prelude.{
  ℕ, ◌+◌, ◌-◌, ◌/◌, String, Bool, true, false, not, ◌&&◌, List, [], ◌∷◌, ◌++◌, ltb, leb, length,
  sum_of, if◌then◌else◌,
}
use lottie_orchestrator.Prelude.Texts.{Text, codes}
use lottie_orchestrator.Exec.{Exc, Result, ok, err, Exec}

pub record Message : Type 0 where
  pub role : String
  pub content : Text

-- `estimate_tokens`
unfoldable pub estimate_tokens : List Message → ℕ
estimate_tokens messages = sum_of (λ m. length m.content) messages / 4

-- the message that takes the place of the dropped ones
unfoldable pub summary_message : Text → Message
summary_message summary = record {
  role = "system";
  content = codes "[compacted history] " ++ summary;
}

-- `recent_from`, of a number of messages
unfoldable pub recent_from : ℕ → ℕ → ℕ
recent_from total keep_recent = if ltb 0 keep_recent then total - keep_recent else total

module _ (pinned : Message → Bool) (recent : ℕ) where
  -- whether the index of a message is in `droppable`
  abbrev pub is_droppable : ℕ → Message → Bool
  is_droppable i m = ltb i recent && not (pinned m)

  -- the messages at the indices of `droppable`, from an index on
  unfoldable pub droppable : ℕ → List Message → List Message
  droppable i [] = []
  droppable i (m ∷ ms) =
      let rest = droppable (i + 1) ms in if is_droppable i m then m ∷ rest else rest

  -- the last loop, from an index on; `placed` is whether the summary is out already
  unfoldable pub rebuild : Message → Bool → ℕ → List Message → List Message
  rebuild summary placed i [] = []
  rebuild summary placed i (m ∷ ms) =
      let dropped = rebuild summary true (i + 1) ms in
      let kept = rebuild summary placed (i + 1) ms in
      if is_droppable i m then (if placed then dropped else summary ∷ dropped) else m ∷ kept

module _ {W : Type 0} (pinned : Message → Bool) (summarize : List Message → Exec Exc W Text) where
  -- what follows the summary
  abbrev pub summarised : ℕ → List Message → Result Exc Text × W → Result Exc (List Message) × W
  summarised recent messages (err exc, w) = (err exc, w)
  summarised recent messages (ok summary, w) =
      (ok (rebuild pinned recent (summary_message summary) false 0 messages), w)

  abbrev pub summarise_droppable : ℕ → List Message → List Message → Exec Exc W (List Message)
  summarise_droppable recent messages [] w = (ok messages, w)
  summarise_droppable recent messages (d ∷ ds) w = summarised recent messages (summarize (d ∷ ds) w)

  -- `compact`
  unfoldable pub compact : ℕ → ℕ → List Message → Exec Exc W (List Message)
  unfolding estimate_tokens summary_message recent_from droppable rebuild
  compact max_tokens keep_recent messages w =
      let recent = recent_from (length messages) keep_recent in
      if leb (estimate_tokens messages) max_tokens
      then (ok messages, w)
      else summarise_droppable recent messages (droppable pinned recent 0 messages) w
