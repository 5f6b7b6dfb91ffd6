-- ===== src/Buffer/Writing.antt =====
-- Write of assembly/reader/buffer.go: what it adds to the stream that a buffer shows.
use native.Mathlib.Decide.{dec_le}
use memsniff.Common.{
  ℕ, ◌+◌, ◌-◌, ◌≤◌, ◌<◌, ◌≡◌, refl, sym, ap, ap₂, ◌∙◌, inl, List, [], ◌++◌, map, append-nil, Option,
  none, some, arith, lt→ltb, le→ltb_false, length, drop, replicate, length-append, length-drop,
  drop-append, drop_all, drop-map, ℤ, pos, pos_part,
}
use memsniff.Error.{Error, short_write}
use memsniff.Buffer.{Buffer, append_data, write}
use memsniff.Buffer.Cells.{Cell, cells-add_block, total_data-add_block, total_len-add_block}
use memsniff.Buffer.Discard.{drop-gap, drop_past_gap}
use memsniff.Buffer.Stream.{IsValid, Stream, segment, length-segment, arrive, Shows}

-- The three ways through Write.
write_dropped :
    (b : Buffer) (skip : ℤ) (bytes : List ℕ) (d : ℕ)
    → b.to_discard ≡ pos d
    → pos_part skip + length bytes ≤ d
    → write b skip bytes
      ≡ (record b { to_discard = pos (d - (pos_part skip + length bytes)) }, none)
unfolding write
write_dropped b skip bytes d e h = ground arith

write_behind_gap :
    (b : Buffer) (skip : ℤ) (bytes : List ℕ) (d : ℕ)
    → b.to_discard ≡ pos d
    → d < pos_part skip + length bytes
    → d ≤ pos_part skip
    → write b skip bytes ≡ append_data b (pos_part skip - d) bytes
unfolding write
write_behind_gap b skip bytes d e h g = ground arith

write_cut :
    (b : Buffer) (skip : ℤ) (bytes : List ℕ) (d : ℕ)
    → b.to_discard ≡ pos d
    → d < pos_part skip + length bytes
    → pos_part skip < d
    → write b skip bytes ≡ append_data b 0 (drop (d - pos_part skip) bytes)
unfolding write
write_cut b skip bytes d e h g = ground arith

-- What is left of a segment of `s` lost cells and `bytes` once `d` cells are dropped.
segment_left :
    (d s : ℕ) (bytes : List ℕ)
    → (s + length bytes ≤ d → drop d (replicate s none ++ map {B = Cell} some bytes) ≡ [])
      × (d ≤ s
          → drop d (replicate s none ++ map {B = Cell} some bytes)
            ≡ replicate (s - d) none ++ map some bytes)
      × (s < d
          → drop d (replicate s none ++ map {B = Cell} some bytes) ≡ map some (drop (d - s) bytes))
segment_left d s bytes = (
  (λ h.
      drop_past_gap d s (map some bytes) (omega arith)
      ∙ drop-map (d - s) bytes some
      ∙ ap (map some) (drop_all (d - s) bytes (omega arith))),
  (λ h. drop-gap d s (map some bytes) h),
  (λ h. drop_past_gap d s (map some bytes) (omega arith) ∙ drop-map (d - s) bytes some),
)

-- Appending what is left of a segment, when it fits, moves on to the stream with the segment.
append_data-Shows :
    (b : Buffer) (s : Stream) (skip : ℤ) (bytes rest : List ℕ) (gap : ℕ)
    → IsValid b
    → Shows b s
    → drop (s.cursor - length s.sent) (replicate (pos_part skip) none ++ map some bytes)
      ≡ replicate gap none ++ map some rest
    → s.cursor - length s.sent ≤ pos_part skip + length bytes
    → length b.buf + length rest ≤ b.cap
    → (append_data b gap rest).1 ≡ none
      × IsValid (append_data b gap rest).0
      × Shows (append_data b gap rest).0 (arrive s skip bytes)
unfolding append_data arrive
append_data-Shows b s skip bytes rest gap v w e reached fits =
    rw (le→ltb_false b.cap (length b.buf + length rest) fits) (
      refl,
      record {
        held = omega (
          arith,
          total_data-add_block gap (length rest) b.blocks,
          length-append b.buf rest,
          v.held,
        );
        counted = omega (arith, total_len-add_block gap (length rest) b.blocks, v.counted);
        bounded = omega (arith, length-append b.buf rest);
        idle = inl refl;
      },
      record {
        shown =
            cells-add_block gap rest b.blocks b.buf v.held
            ∙ ap₂ ◌++◌ w.shown (sym e)
            ∙ sym (drop-append s.cursor s.sent (segment skip bytes));
        ahead = ap pos caught_up;
      },
    )
  where
    caught_up : 0 ≡ s.cursor - length (s.sent ++ segment skip bytes)
    caught_up = omega (arith, length-append s.sent (segment skip bytes), length-segment skip bytes)

-- The data bytes of a segment that are not dropped on arrival.
abbrev pub kept : Stream → ℤ → List ℕ → ℕ
kept s skip bytes = length bytes - (s.cursor - length s.sent - pos_part skip)

dropped-Shows :
    (b : Buffer) (s : Stream) (skip : ℤ) (bytes : List ℕ)
    → IsValid b
    → Shows b s
    → pos_part skip + length bytes ≤ s.cursor - length s.sent
    → let d = s.cursor - length s.sent - (pos_part skip + length bytes) in
      IsValid (record b { to_discard = pos d })
      × Shows (record b { to_discard = pos d }) (arrive s skip bytes)
unfolding arrive
dropped-Shows b s skip bytes v w h = (
  record { held = v.held; counted = v.counted; bounded = v.bounded; idle = ground arith },
  record {
    shown =
        w.shown
        ∙ sym (append-nil (drop s.cursor s.sent))
        ∙ ap (◌++◌ (drop s.cursor s.sent))
            (sym ((segment_left (s.cursor - length s.sent) (pos_part skip) bytes).0 h))
        ∙ sym (drop-append s.cursor s.sent (segment skip bytes));
    ahead = ap pos still_ahead;
  },
)
  where
    still_ahead :
        s.cursor - length s.sent - (pos_part skip + length bytes)
        ≡ s.cursor - length (s.sent ++ segment skip bytes)
    still_ahead =
        omega (arith, length-append s.sent (segment skip bytes), length-segment skip bytes)

append_data_full :
    (b : Buffer) (gap : ℕ) (rest : List ℕ)
    → b.cap < length b.buf + length rest
    → append_data b gap rest ≡ (b, some short_write)
unfolding append_data
append_data_full b gap rest h = rw (lt→ltb b.cap (length b.buf + length rest) h)

abbrev pub Accepted : Buffer × Option Error → Stream → Type 0
Accepted r s = (r.1 ≡ none) × IsValid r.0 × Shows r.0 s

-- Write of a segment behind a gap, to a valid buffer that shows a stream from its cursor on: if
-- the bytes that are not dropped on arrival fit, it returns nil and the valid buffer shows the
-- stream with the gap and the segment appended; if they do not fit, it returns io.ErrShortWrite
-- and changes nothing.
pub write_refines :
    (b : Buffer) (s : Stream) (skip : ℤ) (bytes : List ℕ)
    → IsValid b
    → Shows b s
    → (length b.buf + kept s skip bytes ≤ b.cap
        → Accepted (write b skip bytes) (arrive s skip bytes))
      × (b.cap < length b.buf + kept s skip bytes → write b skip bytes ≡ (b, some short_write))
write_refines b s skip bytes v w = elim (dec_le (pos_part skip + length bytes) d) [
  | yes h ↦ rw (write_dropped b skip bytes d w.ahead h) (
    (λ _. let p = dropped-Shows b s skip bytes v w h in (refl, p.0, p.1)),
    (λ full. absurd (omega (arith, v.bounded))),
  )
  | no h ↦ elim (dec_le d (pos_part skip)) [
    | yes g ↦ rw (write_behind_gap b skip bytes d w.ahead (omega arith) g) (
      (λ fits.
          append_data-Shows b s skip bytes bytes (pos_part skip - d) v w
            ((segment_left d (pos_part skip) bytes).1 g) (omega arith) (omega arith)),
      (λ full. append_data_full b (pos_part skip - d) bytes (omega arith)),
    )
    | no g ↦ rw (write_cut b skip bytes d w.ahead (omega arith) (omega arith)) (
      (λ fits.
          append_data-Shows b s skip bytes (drop (d - pos_part skip) bytes) 0 v w
            ((segment_left d (pos_part skip) bytes).2 (omega arith)) (omega arith)
            (omega (arith, length-drop (d - pos_part skip) bytes))),
      (λ full.
          append_data_full b 0 (drop (d - pos_part skip) bytes)
            (omega (arith, length-drop (d - pos_part skip) bytes))),
    )
  ]
]
  where
    d : ℕ
    d = s.cursor - length s.sent
