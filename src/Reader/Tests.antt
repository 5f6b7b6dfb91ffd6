-- ===== src/Reader/Tests.antt =====
-- Runs of assembly/reader/reader.go: a reader with room for four bytes gets five.
use memsniff.Buffer.{Buffer, total_data, total_len}
use memsniff.Buffer.Cells.{cells}
use memsniff.Buffer.Stream.{IsValid, Stream, Shows}
use memsniff.Reader.{Reader, Reassembly, reassembled}
use memsniff.Reader.Taking.{Takes, reassembled-Takes}
use memsniff.Common.{refl, inl, false, List, [], ◌∷◌, none, arith, pos}

abbrev small : Buffer
small = record { buf = []; len = 0; cap = 4; blocks = []; to_discard = pos 0 }

abbrev fresh : Reader
fresh = record { buffer = small; closed = false; at_eof = false; failed = none }

abbrev nothing_sent : Stream
nothing_sent = record { sent = []; cursor = 0 }

abbrev segments : List Reassembly
segments =
    record { skip = pos 2; bytes = b'a' ∷ b'\n' ∷ [] }
    ∷ record { skip = pos 0; bytes = b'b' ∷ b'c' ∷ b'd' ∷ [] }
    ∷ []

small-IsValid : IsValid small
unfolding total_data total_len
small-IsValid = record { held = refl; counted = refl; bounded = omega arith; idle = inl refl }

small-Shows : Shows small nothing_sent
unfolding cells
small-Shows = record { shown = refl; ahead = refl }

-- The second segment does not fit.
reassembled-Takes_example : Takes fresh nothing_sent segments (reassembled fresh segments)
reassembled-Takes_example =
    reassembled-Takes fresh nothing_sent segments refl refl small-IsValid small-Shows
