-- ===== src/Source.antt =====
-- model.ConsumerSource: a Reader, or the DummySource of protocol/model/dummy.go, which takes the
-- place of a reader that has gone back to the pool and is always at its end.
pub mod Laws
pub mod Plain
use memsniff.Error.{Error, eof}
use memsniff.Reader
use memsniff.Reader.{Reader, Reassembly}
use memsniff.Common.{ℕ, Bool, length, List, [], Option, none, some, ℤ}

pub data Source : Type 0 where
  eof_source : Source
  reader : Reader → Source

unfoldable pub reassembled : Source → List Reassembly → Source
reassembled eof_source xs = eof_source
reassembled (reader r) xs = reader (Reader.reassembled r xs)

unfoldable pub reassembly_complete : Source → Source
reassembly_complete eof_source = eof_source
reassembly_complete (reader r) = reader (Reader.reassembly_complete r)

unfoldable pub discard : Source → ℤ → Source × Option Error
discard eof_source n = (eof_source, none)
discard (reader r) n = let (r', e) = Reader.discard r n in (reader r', e)

unfoldable pub read_n : Source → ℕ → Source × List ℕ × Option Error
read_n eof_source n = (eof_source, [], some eof)
read_n (reader r) n = let (r', out, e) = Reader.read_n r n in (reader r', out, e)

unfoldable pub index_any : Source → List ℕ → Option ℕ × Option Error
index_any eof_source chars = (none, some eof)
index_any (reader r) chars = Reader.index_any r chars

unfoldable pub peek_n : Source → ℕ → List ℕ × Option Error
peek_n eof_source n = ([], some eof)
peek_n (reader r) n = Reader.peek_n r n

unfoldable pub read_line : Source → Source × List ℕ × Option Error
read_line eof_source = (eof_source, [], some eof)
read_line (reader r) = let (r', out, e) = Reader.read_line r in (reader r', out, e)

-- DummySource.Read, and Reader.Read, into a slice of `n` bytes.
unfoldable pub read : Source → ℕ → Source × List ℕ × Option Error
read eof_source n = (eof_source, [], some eof)
read (reader r) n = let (r', out, e) = Reader.read r n in (reader r', out, e)

unfoldable pub close : Source → Source
close eof_source = eof_source
close (reader r) = reader (Reader.close r)

unfoldable pub reset : Source → Source
reset eof_source = eof_source
reset (reader r) = reader (Reader.reset r)

unfoldable pub truncate : Source → Source
truncate eof_source = eof_source
truncate (reader r) = reader (Reader.truncate r)

-- The number of data bytes that a source holds.
abbrev pub data_len : Source → ℕ
data_len eof_source = 0
data_len (reader r) = length r.buffer.buf
