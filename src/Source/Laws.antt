-- ===== src/Source/Laws.antt =====
-- What the operations of a Source keep, and the data that they use up.
use memsniff.Error.{Error, AllReturned}
use memsniff.Buffer
use memsniff.Buffer.Stream.{IsValid}
use memsniff.Buffer.Data.{
  reset-IsValid, write-IsValid, discard-IsValid, read_n-IsValid, read_line-IsValid, read_n_used,
  read_line_used, length-discard-le,
}
use memsniff.Buffer.Reading.{peek_n-read_n}
use memsniff.Reader
use memsniff.Reader.{Reader, Reassembly}
use memsniff.Source.{
  Source, eof_source, reader, data_len, reassembled, reassembly_complete, discard, read_n,
  index_any, peek_n, read_line, close, reset, truncate,
}
use memsniff.Common.{
  ℕ, ◌+◌, ◌≤◌, ◌<◌, ◌≡◌, ◌≢◌, Bool, List, [], ◌∷◌, Option, none, arith, length, ℤ, inl, inr,
  Option-cases, pos,
}

-- A reader over a valid buffer; what made it fail is an error of Go code.
pub record ReaderIsValid (r : Reader) : Type 0 where
  pub buffer_valid : IsValid r.buffer
  pub failure : AllReturned r.failed

abbrev pub SourceIsValid : Source → Type 0
SourceIsValid eof_source = Unit
SourceIsValid (reader r) = ReaderIsValid r

write_error :
    (b : Buffer.Buffer) (skip : ℤ) (bytes : List ℕ) → AllReturned (Buffer.write b skip bytes).1
unfolding Buffer.write Buffer.append_data
write_error b skip bytes = ground arith

write_all-IsValid :
    (xs : List Reassembly) (r : Reader) → ReaderIsValid r → ReaderIsValid (Reader.write_all r xs)
unfolding Reader.write_all
write_all-IsValid [] r v = v
write_all-IsValid (x ∷ xs) r v = ground (
  arith,
  write-IsValid r.buffer x.skip x.bytes v.buffer_valid,
  write_error r.buffer x.skip x.bytes,
  write_all-IsValid xs (record r { buffer = (Buffer.write r.buffer x.skip x.bytes).0 }),
)

pub reassembled-IsValid :
    (s : Source) (xs : List Reassembly) → SourceIsValid s → SourceIsValid (reassembled s xs)
unfolding reassembled Reader.reassembled
reassembled-IsValid eof_source xs v = tt
reassembled-IsValid (reader r) xs v = ground (arith, write_all-IsValid xs r v)

pub complete-IsValid : (s : Source) → SourceIsValid s → SourceIsValid (reassembly_complete s)
unfolding reassembly_complete Reader.reassembly_complete
complete-IsValid eof_source v = tt
complete-IsValid (reader r) v = record { buffer_valid = v.buffer_valid; failure = v.failure }

pub reset-SourceIsValid : (s : Source) → SourceIsValid s → SourceIsValid (reset s)
unfolding reset Reader.reset
reset-SourceIsValid eof_source v = tt
reset-SourceIsValid (reader r) v = record { buffer_valid = reset-IsValid r.buffer; failure = tt }

pub truncate-IsValid : (s : Source) → SourceIsValid s → SourceIsValid (truncate s)
unfolding truncate Reader.truncate
truncate-IsValid eof_source v = tt
truncate-IsValid (reader r) v = record {
  buffer_valid = reset-IsValid r.buffer;
  failure = v.failure;
}

pub close-IsValid : (s : Source) → SourceIsValid s → SourceIsValid (close s)
unfolding close Reader.close
close-IsValid eof_source v = tt
close-IsValid (reader r) v = record { buffer_valid = reset-IsValid r.buffer; failure = v.failure }

-- What a read of a source promises: the source stays valid, the error is one that Go code returns,
-- and no data is added.
pub record Kept (s s' : Source) (e : Option Error) : Type 0 where
  pub valid : SourceIsValid s'
  pub returned : AllReturned e
  pub not_more : data_len s' ≤ data_len s

pub discard-Kept : (s : Source) (n : ℤ) → SourceIsValid s → Kept s (discard s n).0 (discard s n).1
unfolding discard Reader.discard
discard-Kept eof_source n v = record { valid = tt; returned = tt; not_more = omega arith }
discard-Kept (reader r) n v =
    ground (
      arith,
      discard-IsValid r.buffer n v.buffer_valid,
      length-discard-le r.buffer n v.buffer_valid,
    )

pub peek_n_returned : (s : Source) (n : ℕ) → SourceIsValid s → AllReturned (peek_n s n).1
unfolding peek_n Reader.peek_n Reader.end_error Buffer.peek_n
peek_n_returned eof_source n v = tt
peek_n_returned (reader r) n v = ground arith

pub index_any_returned :
    (s : Source) (chars : List ℕ) → SourceIsValid s → AllReturned (index_any s chars).1
unfolding index_any Reader.index_any Reader.end_error Buffer.index_any Buffer.not_found
index_any_returned eof_source chars v = tt
index_any_returned (reader r) chars v = ground arith

end_error-none : (at_eof : Bool) (e : Option Error) → Reader.end_error at_eof e ≡ none → e ≡ none
unfolding Reader.end_error
end_error-none at_eof e h = ground arith

end_error_returned :
    (at_eof : Bool) (e : Option Error) → AllReturned e → AllReturned (Reader.end_error at_eof e)
unfolding Reader.end_error
end_error_returned at_eof e h = ground arith

-- What the buffer's own reads promise.
read_n_buffer :
    (b : Buffer.Buffer) (n : ℕ)
    → IsValid b
    → AllReturned (Buffer.read_n b n).2 × (length (Buffer.read_n b n).0.buf ≤ length b.buf)
unfolding Buffer.read_n
read_n_buffer b n v =
    let (avail, gap) = Buffer.contiguous_available b in
    ground (arith, length-discard-le b (pos (avail + gap)) v, length-discard-le b (pos n) v)

read_line_buffer :
    (b : Buffer.Buffer)
    → IsValid b
    → AllReturned (Buffer.read_line b).2 × (length (Buffer.read_line b).0.buf ≤ length b.buf)
unfolding Buffer.read_line
read_line_buffer b v = elim (Option-cases (Buffer.find_any b (b'\n' ∷ []))) [
  | inl missing ↦
      let (avail, gap) = Buffer.contiguous_available b in
      ground (arith, length-discard-le b (pos (avail + gap)) v)
  | inr (i, found) ↦ ground (arith, length-discard-le b (pos (i + 1)) v)
]

pub read_n-Kept :
    (s : Source) (n : ℕ)
    → SourceIsValid s
    → Kept s (read_n s n).0 (read_n s n).2
      × ((read_n s n).2 ≡ none
          → (length (read_n s n).1 ≡ n) × (data_len (read_n s n).0 + n ≡ data_len s))
unfolding read_n Reader.read_n
read_n-Kept eof_source n v =
    (record { valid = tt; returned = tt; not_more = omega arith }, λ e. absurd (ground arith))
read_n-Kept (reader r) n v = ground (
  arith,
  read_n-IsValid r.buffer n v.buffer_valid,
  read_n_buffer r.buffer n v.buffer_valid,
  read_n_used r.buffer n v.buffer_valid,
  end_error-none r.at_eof (Buffer.read_n r.buffer n).2,
  end_error_returned r.at_eof (Buffer.read_n r.buffer n).2,
)

pub read_line-Kept :
    (s : Source)
    → SourceIsValid s
    → Kept s (read_line s).0 (read_line s).2
      × ((read_line s).2 ≡ none → data_len (read_line s).0 < data_len s)
unfolding read_line Reader.read_line
read_line-Kept eof_source v =
    (record { valid = tt; returned = tt; not_more = omega arith }, λ e. absurd (ground arith))
read_line-Kept (reader r) v = ground (
  arith,
  read_line-IsValid r.buffer v.buffer_valid,
  read_line_buffer r.buffer v.buffer_valid,
  read_line_used r.buffer v.buffer_valid,
  end_error-none r.at_eof (Buffer.read_line r.buffer).2,
  end_error_returned r.at_eof (Buffer.read_line r.buffer).2,
)

-- A peek without an error shows as many bytes as were asked for.
pub length-peek_n :
    (s : Source) (n : ℕ) → SourceIsValid s → (peek_n s n).1 ≡ none → length (peek_n s n).0 ≡ n
unfolding peek_n Reader.peek_n
length-peek_n eof_source n v e = absurd (ground arith)
length-peek_n (reader r) n v e = ground (
  arith,
  peek_n-read_n r.buffer n,
  read_n_used r.buffer n v.buffer_valid,
  end_error-none r.at_eof (Buffer.peek_n r.buffer n).1,
)

-- An index without an error is a position.
pub index_any_found :
    (s : Source) (chars : List ℕ) → (index_any s chars).1 ≡ none → (index_any s chars).0 ≢ none
unfolding index_any Reader.index_any Reader.end_error Buffer.index_any
index_any_found eof_source chars e = absurd (ground arith)
index_any_found (reader r) chars e = ground arith
