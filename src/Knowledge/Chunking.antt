-- ===== src/Knowledge/Chunking.antt =====
-- knowledge/chunking.py: a sliding window over a document, whose end snaps to a separator. The
-- metadata of a chunk is left out.
use lottie_orchestrator.Prelude.{
  ℕ, zero, suc, ◌+◌, ◌-◌, ◌/◌, min, max, Option, none, some, Bool, true, false, ◌&&◌, List, [], ◌∷◌,
  ◌==◌, ltb, leb, length, take, drop, if◌then◌else◌,
}
use lottie_orchestrator.Prelude.Texts.{Text}

pub record ChunkConfig : Type 0 where
  pub size : ℕ
  pub overlap : ℕ
  pub separators : List Text

-- `_validate_window`: whether it raises nothing
unfoldable pub validate_window : ChunkConfig → Bool
validate_window cfg = leb 1 cfg.size && ltb cfg.overlap cfg.size

pub record Chunk : Type 0 where
  pub doc_id : Text
  pub index : ℕ
  pub text : Text
  pub start : ℕ
  pub stop : ℕ

-- `.startswith(prefix)`
unfoldable pub starts_with : Text → Text → Bool
starts_with [] s = true
starts_with (p ∷ ps) [] = false
starts_with (p ∷ ps) (c ∷ s) = c == p && starts_with ps s

abbrev pub shifted : Option ℕ → Bool → Option ℕ
shifted (some i) here = some (suc i)
shifted none true = some 0
shifted none false = none

-- `.rfind(sep)`, for a separator that is not empty
unfoldable pub rfind : Text → Text → Option ℕ
unfolding starts_with
rfind sep [] = none
rfind sep (c ∷ s) = shifted (rfind sep s) (starts_with sep (c ∷ s))

abbrev pub or_next : ℕ → Option ℕ → Option ℕ → Option ℕ
or_next after (some i) next = some (i + after)
or_next after none next = next

-- the loop of `_find_boundary`, on the window: where it ends, counted from the window's start
unfoldable pub boundary_in : List Text → Text → Option ℕ
unfolding rfind
boundary_in [] window = none
boundary_in ([] ∷ seps) window = boundary_in seps window
boundary_in ((c ∷ sep) ∷ seps) window =
    or_next (length (c ∷ sep)) (rfind (c ∷ sep) window) (boundary_in seps window)

abbrev pub offset_by : ℕ → Option ℕ → Option ℕ
offset_by start none = none
offset_by start (some i) = some (start + i)

-- `_find_boundary`
unfoldable pub find_boundary : Text → ℕ → ℕ → List Text → Option ℕ
unfolding boundary_in
find_boundary text start stop separators =
    offset_by start (boundary_in separators (take (stop - start) (drop start text)))

-- the end of a window, once it has been looked for a boundary
abbrev pub snap : ChunkConfig → ℕ → ℕ → Option ℕ → ℕ
snap cfg start stop none = stop
snap cfg start stop (some snapped) =
    if leb (max 1 (cfg.size / 4)) (snapped - start) then snapped else stop

module _ (doc_id text : Text) (cfg : ChunkConfig) where
  unfoldable pub window_end : ℕ → ℕ
  unfolding find_boundary
  window_end start =
      let stop = min (start + cfg.size) (length text) in
      if ltb stop (length text)
      then snap cfg start stop (find_boundary text start stop cfg.separators)
      else stop

  unfoldable pub chunk_at : ℕ → ℕ → Chunk
  unfolding window_end
  chunk_at start idx =
      let stop = window_end start in
      record {
        doc_id = doc_id;
        index = idx;
        text = take (stop - start) (drop start text);
        start = start;
        stop = stop;
      }

  -- the loop, on fuel
  unfoldable pub chunks_from : ℕ → ℕ → ℕ → List Chunk
  unfolding window_end chunk_at
  chunks_from zero start idx = []
  chunks_from (suc fuel) start idx =
      let stop = window_end start in
      let rest = chunks_from fuel (max (stop - cfg.overlap) (start + 1)) (idx + 1) in
      if ltb start (length text)
      then (if leb (length text) stop then chunk_at start idx ∷ [] else chunk_at start idx ∷ rest)
      else []

  -- `chunk_document`: the start grows in each round, so one round for each character is enough
  unfoldable pub chunk_document : List Chunk
  unfolding chunks_from
  chunk_document = chunks_from (length text) 0 0
