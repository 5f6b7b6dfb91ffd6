-- ===== src/Buffer/Discarding.antt =====
-- Discard of assembly/reader/buffer.go: how it moves the cursor of what a buffer shows.
use memsniff.Common.{
  ℕ, ◌+◌, ◌-◌, ◌≡◌, ap, ◌∙◌, [], arith, length, drop, length-drop, drop-drop, pos, ◌+ℤ◌,
}
use memsniff.Buffer.{Buffer, total_len, total_data, discard}
use memsniff.Buffer.Cells.{length-cells}
use memsniff.Buffer.Dropping.{Leaves, discard_loop-Leaves}
use memsniff.Buffer.Stream.{IsValid, Stream, advance, Shows}

+ℤ-pos : (a b : ℕ) → pos a +ℤ pos b ≡ pos (a + b)
+ℤ-pos a b = ground arith

pub discard-Leaves : (b : Buffer) (n : ℕ) → IsValid b → Leaves b [] b.blocks n (discard b (pos n))
unfolding discard total_data total_len
discard-Leaves b n v =
    discard_loop-Leaves b b.blocks [] n (omega (arith, v.held)) (omega (arith, v.counted))

pub discard_pos-IsValid : (b : Buffer) (n : ℕ) → IsValid b → IsValid (discard b (pos n))
discard_pos-IsValid b n v = record {
  held = after.held;
  counted = after.counted;
  bounded = omega (arith, after.shorter, ap (λ (m : ℕ). m) after.same_cap);
  idle = ground (arith, after.idle);
}
  where
    after : Leaves b [] b.blocks n (discard b (pos n))
    after = discard-Leaves b n v

-- Discard of a count that is not negative, on a valid buffer that shows a stream, moves the
-- cursor by that count, past the end of what has arrived if need be, and keeps the buffer
-- valid.
pub discard_refines :
    (b : Buffer) (s : Stream) (n : ℕ)
    → IsValid b
    → Shows b s
    → IsValid (discard b (pos n)) × Shows (discard b (pos n)) (advance s n)
unfolding discard total_data total_len advance
discard_refines b s n v w = (
  discard_pos-IsValid b n v,
  record {
    shown = after.left ∙ ap (drop n) w.shown ∙ drop-drop n s.cursor s.sent;
    ahead = pending;
  },
)
  where
    after : Leaves b [] b.blocks n (discard b (pos n))
    after = discard-Leaves b n v

    pending : (discard b (pos n)).to_discard ≡ pos (s.cursor + n - length s.sent)
    pending =
        after.pending
        ∙ ap (λ a. a +ℤ pos (n - total_len b.blocks)) w.ahead
        ∙ +ℤ-pos (s.cursor - length s.sent) (n - total_len b.blocks)
        ∙ ap pos (
            omega (
              arith,
              length-cells b.blocks b.buf (omega arith),
              ap length w.shown,
              length-drop s.cursor s.sent,
            ))
