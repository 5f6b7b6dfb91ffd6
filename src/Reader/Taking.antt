-- ===== src/Reader/Taking.antt =====
-- Reassembled of assembly/reader/reader.go against the stream that its buffer shows.
use native.Mathlib.Decide.{dec_le}
use memsniff.Error.{Error, short_write}
use memsniff.Buffer
use memsniff.Buffer.Stream.{IsValid, Stream, Shows, arrive}
use memsniff.Buffer.Writing.{kept, write_refines}
use memsniff.Reader.{Reader, Reassembly, reassembled, write_all}
use memsniff.Common.{
  ◌+◌, ◌<◌, ◌≡◌, refl, ap, false, List, [], ◌∷◌, ◌++◌, Option, none, some, arith, length, ◌⊎◌, inl,
  inr,
}

-- Segments arrive one after the other.
unfoldable pub arrive_all : Stream → List Reassembly → Stream
arrive_all s [] = s
arrive_all s (x ∷ xs) = arrive_all (arrive s x.skip x.bytes) xs

-- What a call of Reassembled makes of a reader whose buffer shows `s`: the segments up to the first
-- that does not fit have arrived, and the reader has failed if there is one.
pub record Takes (r : Reader) (s : Stream) (xs : List Reassembly) (r' : Reader) : Type 0 where
  pub taken : List Reassembly
  pub refused : List Reassembly
  pub split : xs ≡ taken ++ refused
  pub valid : IsValid r'.buffer
  pub shows : Shows r'.buffer (arrive_all s taken)
  pub others : r' ≡ record r { buffer = r'.buffer; failed = r'.failed }
  pub ends :
      ((refused ≡ []) × (r'.failed ≡ none))
      ⊎ ((x : Reassembly) × (after : List Reassembly) × (refused ≡ x ∷ after)
          × (r'.failed ≡ some short_write)
          × (r'.buffer.cap < length r'.buffer.buf + kept (arrive_all s taken) x.skip x.bytes))

write_all_fits :
    (r : Reader) (x : Reassembly) (xs : List Reassembly)
    → (Buffer.write r.buffer x.skip x.bytes).1 ≡ none
    → write_all r (x ∷ xs)
      ≡ write_all (record r { buffer = (Buffer.write r.buffer x.skip x.bytes).0 }) xs
unfolding write_all
write_all_fits r x xs e = rw (e, write_all) refl

write_all_full :
    (r : Reader) (x : Reassembly) (xs : List Reassembly)
    → Buffer.write r.buffer x.skip x.bytes ≡ (r.buffer, some short_write)
    → write_all r (x ∷ xs) ≡ record r { failed = some short_write }
unfolding write_all
write_all_full r x xs e =
    rw (ap (λ (w : Buffer.Buffer × Option Error). w.1) e, write_all)
      (ap
        (λ (w : Buffer.Buffer × Option Error). record r { buffer = w.0; failed = some short_write })
        e)

first_taken :
    (r : Reader) (b : Buffer.Buffer) (s : Stream) (x : Reassembly) (xs : List Reassembly)
    (r' : Reader)
    → Takes (record r { buffer = b }) (arrive s x.skip x.bytes) xs r'
    → Takes r s (x ∷ xs) r'
unfolding arrive_all
first_taken r b s x xs r' t = record {
  taken = x ∷ t.taken;
  refused = t.refused;
  split = ap (λ ys. x ∷ ys) t.split;
  valid = t.valid;
  shows = t.shows;
  others = t.others;
  ends = t.ends;
}

write_all-Takes :
    (xs : List Reassembly) (r : Reader) (s : Stream)
    → r.failed ≡ none
    → IsValid r.buffer
    → Shows r.buffer s
    → Takes r s xs (write_all r xs)
write_all-Takes [] r s ok v w =
    unfold write_all arrive_all in
    record {
      taken = [];
      refused = [];
      split = refl;
      valid = v;
      shows = w;
      others = refl;
      ends = inl (refl, ok);
    }
write_all-Takes (x ∷ xs) r s ok v w =
    let p = write_refines r.buffer s x.skip x.bytes v w in
    elim (dec_le (length r.buffer.buf + kept s x.skip x.bytes) r.buffer.cap) [
      | yes fits ↦
          let (e, v1, w1) = p.0 fits in
          let b = (Buffer.write r.buffer x.skip x.bytes).0 in
          rw (write_all_fits r x xs e) (
            first_taken r b s x xs _
              (write_all-Takes xs (record r { buffer = b }) (arrive s x.skip x.bytes) ok v1 w1))
      | no full ↦
          let lt : r.buffer.cap < length r.buffer.buf + kept s x.skip x.bytes = omega arith in
          rw (write_all_full r x xs (p.1 lt)) (
            unfold arrive_all in
            record {
              taken = [];
              refused = x ∷ xs;
              split = refl;
              valid = v;
              shows = w;
              others = refl;
              ends = inr (x, xs, refl, refl, lt);
            })
    ]

reassembled_open :
    (r : Reader) (xs : List Reassembly)
    → r.closed ≡ false
    → r.failed ≡ none
    → reassembled r xs ≡ write_all r xs
unfolding reassembled
reassembled_open r xs c ok = ground (arith, c, ok)

-- Reassembled on a reader that is neither closed nor failed, and whose valid buffer shows a
-- stream: the segments up to the first that does not fit arrive in the stream, in order, and
-- the buffer shows it and stays valid; if one does not fit, the reader fails with
-- io.ErrShortWrite, and nothing of that segment or of those behind it arrives; otherwise the
-- reader has not failed.
pub reassembled-Takes :
    (r : Reader) (s : Stream) (xs : List Reassembly)
    → r.closed ≡ false
    → r.failed ≡ none
    → IsValid r.buffer
    → Shows r.buffer s
    → Takes r s xs (reassembled r xs)
reassembled-Takes r s xs c ok v w = rw (reassembled_open r xs c ok) (write_all-Takes xs r s ok v w)
