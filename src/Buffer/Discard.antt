-- ===== src/Buffer/Discard.antt =====
-- (*Buffer).Discard of assembly/reader/buffer.go: which cells are left, and what stays pending.
use memsniff.Common.{
  ℕ, ◌+◌, ◌-◌, ◌≤◌, ◌<◌, ◌≡◌, sym, ap, ap₂, ◌∙◌, inl, inr, List, [], ◌∷◌, ◌++◌, map, none, some,
  arith, ltb, Bool-cases, ltb→lt, ltb_false→le, le→ltb_false, length, take, drop, replicate,
  length-take, length-map, length-replicate, drop-append_le, drop-append_ge, drop-drop, drop-map,
  drop-take, drop-replicate, ℤ, pos, ◌-ℤ◌, ◌+ℤ◌, if◌then◌else◌,
}
use memsniff.Buffer.{Block, Buffer, block_len, block_discard, drop_blocks, discard_loop}
use memsniff.Buffer.Cells.{Cell, cells}

abbrev some_cell : ℕ → Cell
some_cell x = some x

-- The cells of one block over its bytes, then `rest`; dropping fewer than the block covers.
pub drop-gap :
    (n g : ℕ) (rest : List Cell)
    → n ≤ g
    → drop n (replicate g none ++ rest) ≡ replicate (g - n) none ++ rest
drop-gap n g rest h =
    drop-append_le n (replicate g none) rest (omega (arith, length-replicate {0} {A = Cell} g none))
    ∙ ap (λ t. t ++ rest) (drop-replicate n g none)

pub drop_past_gap :
    (n g : ℕ) (rest : List Cell) → g ≤ n → drop n (replicate g none ++ rest) ≡ drop (n - g) rest
drop_past_gap n g rest h =
    drop-append_ge n (replicate g none) rest (omega (arith, length-replicate {0} {A = Cell} g none))
    ∙ ap (λ k. drop (n - k) rest) (length-replicate g none)

-- Dropping `m` of the `d` bytes of a block.
drop-bytes :
    (m d : ℕ) (bytes : List ℕ) (ks : List Block)
    → m ≤ d
    → d ≤ length bytes
    → drop m (map some (take d bytes) ++ cells ks (drop d bytes))
      ≡ map some (take (d - m) (drop m bytes)) ++ cells ks (drop (d - m) (drop m bytes))
drop-bytes m d bytes ks h fits =
    drop-append_le m (map some (take d bytes)) (cells ks (drop d bytes))
      (omega (arith, length-map (take d bytes) some_cell, length-take d bytes))
    ∙ rw (drop-map, drop-drop)
        (ap₂ ◌++◌ (ap (map some) left) (ap (λ n. cells ks (drop n bytes)) sum))
  where
    sum : d ≡ m + (d - m)
    sum = omega arith

    left : drop m (take d bytes) ≡ take (d - m) (drop m bytes)
    left = ap (λ n. drop m (take n bytes)) sum ∙ drop-take m (d - m) bytes

-- Dropping exactly one block.
pub drop-block :
    (k : Block) (ks : List Block) (bytes : List ℕ) (n : ℕ)
    → block_len k ≤ n
    → k.data_len ≤ length bytes
    → drop n (cells (k ∷ ks) bytes) ≡ drop (n - block_len k) (cells ks (drop k.data_len bytes))
unfolding cells
drop-block k ks bytes n h fits =
    drop_past_gap n k.gap _ (omega arith)
    ∙ drop-append_ge (n - k.gap) (map some (take k.data_len bytes))
        (cells ks (drop k.data_len bytes)) (omega (arith, size))
    ∙ ap (λ m. drop m (cells ks (drop k.data_len bytes))) left
  where
    size : length (map some_cell (take k.data_len bytes)) ≡ k.data_len
    size = omega (arith, length-map (take k.data_len bytes) some_cell, length-take k.data_len bytes)

    left : n - k.gap - length (map some_cell (take k.data_len bytes)) ≡ n - block_len k
    left = omega (arith, size)

-- What dropping `n` of the first block's cells leaves of it.
abbrev pub cut : Block → ℕ → Block
cut k n =
    if ltb n k.gap
    then record k { gap = k.gap - n }
    else record { gap = 0; data_len = k.data_len - (n - k.gap) }

pub drop-in_block :
    (k : Block) (ks : List Block) (bytes : List ℕ) (n : ℕ)
    → n < block_len k
    → k.data_len ≤ length bytes
    → cells (cut k n ∷ ks) (drop (n - k.gap) bytes) ≡ drop n (cells (k ∷ ks) bytes)
unfolding cells
drop-in_block k ks bytes n h fits = elim (Bool-cases (ltb n k.gap)) [
  | inl inside ↦ rw inside (
      ap (λ m. cells (record k { gap = k.gap - n } ∷ ks) (drop m bytes)) {x = n - k.gap} {y = 0}
        (omega (arith, ltb→lt n k.gap inside))
      ∙ sym (drop-gap n k.gap _ (omega (arith, ltb→lt n k.gap inside))))
  | inr past ↦ rw past (
      sym (
        drop_past_gap n k.gap _ (ltb_false→le n k.gap past)
        ∙ drop-bytes (n - k.gap) k.data_len bytes ks (omega arith) fits))
]

block_discard_lem :
    (b : Buffer) (k : Block) (n : ℕ)
    → block_discard b k (pos n)
      ≡ (record b { len = b.len - n; buf = drop (n - k.gap) b.buf }, cut k n)
unfolding block_discard
block_discard_lem b k n = elim (Bool-cases (ltb n k.gap)) [
  | inl inside ↦
      let none_left : n - k.gap ≡ 0 = omega (arith, ltb→lt n k.gap inside) in
      ground (arith, none_left, ap (λ m. drop m b.buf) none_left)
  | inr past ↦ ground arith
]

pub +ℤ-zero : (a : ℤ) → a ≡ a +ℤ pos 0
+ℤ-zero a = ground arith

sub-pos : (n m : ℕ) → m ≤ n → pos n -ℤ pos m ≡ pos (n - m)
sub-pos n m h = ground arith

pub discard_loop_in :
    (b : Buffer) (gone : List Block) (k : Block) (ks : List Block) (n : ℕ)
    → n < block_len k
    → discard_loop b gone (k ∷ ks) (pos n)
      ≡ drop_blocks (record b { len = b.len - n; buf = drop (n - k.gap) b.buf }) gone (cut k n ∷ ks)
unfolding discard_loop
discard_loop_in b gone k ks n h = ground (arith, block_discard_lem b k n)

pub discard_loop_past :
    (b : Buffer) (gone : List Block) (k : Block) (ks : List Block) (n : ℕ)
    → block_len k ≤ n
    → discard_loop b gone (k ∷ ks) (pos n)
      ≡ discard_loop b (gone ++ k ∷ []) ks (pos (n - block_len k))
unfolding discard_loop
discard_loop_past b gone k ks n h =
    rw (le→ltb_false (n + 0) (block_len k + 0) (omega arith), sub-pos n (block_len k) h)
