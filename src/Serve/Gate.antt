-- ===== src/Serve/Gate.antt =====
-- serve/stream_gate.py: only whole lines that were scanned leave a stream. The secret scanner, which
-- calls a third-party one, is a parameter.
use lottie_orchestrator.Prelude.{
  ℕ, Bool, true, false, List, [], ◌∷◌, ◌++◌, ◌==◌, ltb, length, if◌then◌else◌,
}
use lottie_orchestrator.Prelude.Texts.{Text}

abbrev pub max_line : ℕ
max_line = 65536

-- how the generator ended: exhausted, or by one of the two `OutputSecurityViolation`s
pub data GateEnd : Type 0 where
  finished secret_detected line_too_long : GateEnd

abbrev pub push : ℕ → List Text × Text → List Text × Text
push c ([], rest) = ([], c ∷ rest)
push c (line ∷ lines, rest) = ((c ∷ line) ∷ lines, rest)

-- The `while` loop on the buffer: its complete lines, with their newlines, and what is left.
unfoldable pub drain : Text → List Text × Text
drain [] = ([], [])
drain (c ∷ s) = let cut = drain s in if c == b'\n' then ((c ∷ []) ∷ cut.0, cut.1) else push c cut

module _ (scan_text : Text → Bool) where
  -- `_raise_if_secret(line)` and `yield line`, line by line: what was yielded, and whether all was
  unfoldable pub emit_lines : List Text → List Text × Bool
  emit_lines [] = ([], true)
  emit_lines (line ∷ lines) =
      let rest = emit_lines lines in if scan_text line then ([], false) else (line ∷ rest.0, rest.1)

  -- the flush after the loop
  unfoldable pub flush : Text → List Text × GateEnd
  flush [] = ([], finished)
  flush (c ∷ buffer) =
      if scan_text (c ∷ buffer) then ([], secret_detected) else ((c ∷ buffer) ∷ [], finished)

  -- what follows the lines of one delta; `rest` is the buffer then, and `again` the next deltas
  abbrev pub after_lines : List Text × Bool → Text → List Text × GateEnd → List Text × GateEnd
  after_lines (out, false) rest again = (out, secret_detected)
  after_lines (out, true) rest again =
      if ltb max_line (length rest) then (out, line_too_long) else (out ++ again.0, again.1)

  -- `scan_stream`, from a buffer: what a consumer that drains it gets, and how it ends
  unfoldable pub scan_stream : Text → List Text → List Text × GateEnd
  unfolding flush
  scan_stream buffer [] = flush buffer
  scan_stream buffer (delta ∷ deltas) =
      let cut = drain (buffer ++ delta) in
      after_lines (emit_lines cut.0) cut.1 (scan_stream cut.1 deltas)
