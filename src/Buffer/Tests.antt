-- ===== src/Buffer/Tests.antt =====
-- Runs of assembly/reader/buffer.go on a concrete buffer: "a\n", three lost bytes, then "b".
use memsniff.Word.{wrap}
use memsniff.Common.{
  ◌-ℤ◌, ℕ, ◌≡◌, ◌≢◌, ◌<◌, ◌≤◌, ◌+◌, ◌++◌, refl, inl, [], ◌∷◌, none, some, arith, drop, replicate,
  pos, negsuc,
}
use memsniff.Error.{short_write}
use memsniff.Buffer.{Buffer, total_data, total_len, write, discard, read_n, read_line}
use memsniff.Buffer.Cells.{cells}
use memsniff.Buffer.Stream.{IsValid, view, Stream, Shows, arrive, advance}
use memsniff.Buffer.Discarding.{discard_refines}
use memsniff.Buffer.Writing.{Accepted, kept, write_refines}
use memsniff.Buffer.Reading.{Reads, read_n_refines}
use memsniff.Buffer.Lines.{ReadsLine, read_line_refines}
use memsniff.Buffer.Negative.{discard_negative_gap}

abbrev gapped : Buffer
gapped = record {
  buf = b'a' ∷ b'\n' ∷ b'b' ∷ [];
  len = 6;
  cap = 8;
  blocks = record { gap = 0; data_len = 2 } ∷ record { gap = 3; data_len = 1 } ∷ [];
  to_discard = pos 0;
}

abbrev sent_stream : Stream
sent_stream = record {
  sent = some b'x' ∷ some b'a' ∷ some b'\n' ∷ none ∷ none ∷ none ∷ some b'b' ∷ [];
  cursor = 1;
}

gapped-IsValid : IsValid gapped
unfolding total_data total_len
gapped-IsValid = record { held = refl; counted = refl; bounded = omega arith; idle = inl refl }

gapped-Shows : Shows gapped sent_stream
unfolding cells
gapped-Shows = record { shown = refl; ahead = refl }

-- Two bytes lost, then "cd".
write_refines_example :
    (3 + kept sent_stream (pos 2) (b'c' ∷ b'd' ∷ []) ≤ 8
      → Accepted
          (write gapped (pos 2) (b'c' ∷ b'd' ∷ []))
          (arrive sent_stream (pos 2) (b'c' ∷ b'd' ∷ [])))
    × (8 < 3 + kept sent_stream (pos 2) (b'c' ∷ b'd' ∷ [])
        → write gapped (pos 2) (b'c' ∷ b'd' ∷ []) ≡ (gapped, some short_write))
write_refines_example =
    write_refines gapped sent_stream (pos 2) (b'c' ∷ b'd' ∷ []) gapped-IsValid gapped-Shows

-- Past the end of what has arrived.
discard_refines_example :
    IsValid (discard gapped (pos 9)) × Shows (discard gapped (pos 9)) (advance sent_stream 9)
discard_refines_example = discard_refines gapped sent_stream 9 gapped-IsValid gapped-Shows

-- The data before the gap, and the gap.
read_n_refines_example :
    (used : ℕ) × Reads gapped.blocks
      (drop 1 sent_stream.sent)
      4
      (read_n gapped 4).1
      (read_n gapped 4).2
      used
    × IsValid (read_n gapped 4).0
    × Shows (read_n gapped 4).0 (advance sent_stream used)
read_n_refines_example = read_n_refines gapped sent_stream 4 gapped-IsValid gapped-Shows

read_line_refines_example :
    (used : ℕ) × ReadsLine gapped.blocks
      (drop 1 sent_stream.sent)
      (read_line gapped).1
      (read_line gapped).2
      used
    × IsValid (read_line gapped).0
    × Shows (read_line gapped).0 (advance sent_stream used)
read_line_refines_example = read_line_refines gapped sent_stream gapped-IsValid gapped-Shows

some_blocks : gapped.blocks ≢ []
some_blocks e = cc

discard_negative_gap_example :
    IsValid (discard gapped (negsuc 4))
    × (wrap (pos 6 -ℤ negsuc 4) ≡ pos (discard gapped (negsuc 4)).len)
    × (view (discard gapped (negsuc 4)) ≡ replicate 5 none ++ view gapped)
discard_negative_gap_example =
    discard_negative_gap gapped 4 gapped-IsValid some_blocks (omega arith)
