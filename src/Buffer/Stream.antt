-- ===== src/Buffer/Stream.antt =====
-- What a Buffer promises: it shows a cursor's view of the TCP stream that was written to it.
-- Abstractly a stream is the cells written so far and the cursor, which may run ahead of them.
use memsniff.Common.{
  ℕ, ◌+◌, ◌-◌, ◌≤◌, ◌≡◌, ◌⊎◌, List, [], ◌++◌, map, none, some, arith, length, drop, replicate,
  length-append, length-map, length-replicate, ℤ, pos, pos_part,
}
use memsniff.Buffer.{Buffer, total_len, total_data}
use memsniff.Buffer.Cells.{Cell, cells}

-- The blocks account for exactly the bytes held, `len` for the cells; nothing is held while bytes
-- are still to be dropped on arrival.
pub record IsValid (b : Buffer) : Type 0 where
  pub held : total_data b.blocks ≡ length b.buf
  pub counted : b.len ≡ total_len b.blocks
  pub bounded : length b.buf ≤ b.cap
  pub idle : (b.to_discard ≡ pos 0) ⊎ (b.blocks ≡ [])

abbrev pub view : Buffer → List Cell
view b = cells b.blocks b.buf

pub record Stream : Type 0 where
  pub sent : List Cell
  pub cursor : ℕ

-- A segment arrives behind `skip` lost bytes; a negative skip marks the start of a capture.
abbrev pub segment : ℤ → List ℕ → List Cell
segment skip bytes = replicate (pos_part skip) none ++ map some bytes

pub length-segment :
    (skip : ℤ) (bytes : List ℕ) → length (segment skip bytes) ≡ pos_part skip + length bytes
length-segment skip bytes = omega (
  arith,
  length-append {0} (replicate (pos_part skip) none) (map some_cell bytes),
  length-map bytes some_cell,
  length-replicate {0} {A = Cell} (pos_part skip) none,
)
  where
    some_cell : ℕ → Cell
    some_cell x = some x

unfoldable pub arrive : Stream → ℤ → List ℕ → Stream
arrive s skip bytes = record s {
  sent = s.sent ++ (replicate (pos_part skip) none ++ map some bytes);
}

unfoldable pub advance : Stream → ℕ → Stream
advance s n = record s { cursor = s.cursor + n }

-- `b` shows the stream from the cursor on, and knows how far the cursor is ahead.
pub record Shows (b : Buffer) (s : Stream) : Type 0 where
  pub shown : view b ≡ drop s.cursor s.sent
  pub ahead : b.to_discard ≡ pos (s.cursor - length s.sent)
