-- ===== src/Buffer/Dropping.antt =====
-- The loop of Discard of assembly/reader/buffer.go: what it leaves of the blocks.
use memsniff.Common.{
  ℕ, ◌+◌, ◌-◌, ◌≤◌, ◌<◌, ◌≡◌, refl, sym, ap, ◌∙◌, inl, inr, List, [], ◌∷◌, ◌++◌, arith, ltb,
  Bool-cases, ltb→lt, ltb_false→le, length, drop, length-drop, drop-drop, drop-nil, ◌⊎◌, ◌≢◌, pos,
  ◌+ℤ◌,
}
use memsniff.Buffer.{Block, Buffer, block_len, total_len, total_data, drop_blocks, discard_loop}
use memsniff.Buffer.Cells.{cells, total_data-append, total_len-append}
use memsniff.Buffer.Discard.{
  drop-block, cut, drop-in_block, +ℤ-zero, discard_loop_in, discard_loop_past,
}

-- What Discard of `n` cells leaves, when the blocks `rest` are still to be looked at.
pub record Leaves (b : Buffer) (gone rest : List Block) (n : ℕ) (r : Buffer) : Type 0 where
  pub left : cells r.blocks r.buf ≡ drop n (cells rest (drop (total_data gone) b.buf))
  pub held : total_data r.blocks ≡ length r.buf
  pub counted : r.len ≡ total_len r.blocks
  pub covered : total_len r.blocks ≡ total_len rest - n
  pub shorter : length r.buf ≤ length b.buf
  pub same_cap : r.cap ≡ b.cap
  pub pending : r.to_discard ≡ b.to_discard +ℤ pos (n - total_len rest)
  pub idle : ((r.to_discard ≡ b.to_discard) × (rest ≢ [])) ⊎ (r.blocks ≡ [])

drop_comm : (m n : ℕ) (xs : List ℕ) → drop m (drop n xs) ≡ drop n (drop m xs)
drop_comm m n xs =
    drop-drop m n xs
    ∙ ap (λ k. drop k xs) {x = n + m} {y = m + n} (omega arith)
    ∙ sym (drop-drop n m xs)

cut_sizes :
    (k : Block) (n : ℕ)
    → n < block_len k
    → ((cut k n).data_len ≡ k.data_len - (n - k.gap)) × (block_len (cut k n) ≡ block_len k - n)
cut_sizes k n h = ground arith

Leaves-in :
    (b : Buffer) (k : Block) (ks gone : List Block) (n : ℕ)
    → total_data gone + total_data (k ∷ ks) ≡ length b.buf
    → b.len ≡ total_len gone + total_len (k ∷ ks)
    → n < block_len k
    → Leaves b gone (k ∷ ks) n (
        drop_blocks
          (record b { len = b.len - n; buf = drop (n - k.gap) b.buf })
          gone
          (cut k n ∷ ks))
unfolding drop_blocks total_data total_len
Leaves-in b k ks gone n data_eq len_eq h = record {
  left = rw (drop_comm (total_data gone) (n - k.gap) b.buf) (
      drop-in_block k ks (drop (total_data gone) b.buf) n h
        (omega (arith, length-drop (total_data gone) b.buf)));
  held = omega (arith, sizes, length-drop (total_data gone) (drop (n - k.gap) b.buf), cut_bytes);
  counted = omega (arith, sizes);
  covered = omega (arith, sizes);
  shorter = omega (arith, length-drop (total_data gone) (drop (n - k.gap) b.buf), cut_bytes);
  same_cap = refl;
  pending = rw none_left (+ℤ-zero b.to_discard);
  idle = inl (refl, λ e. cc);
}
  where
    sizes :
        ((cut k n).data_len ≡ k.data_len - (n - k.gap)) × (block_len (cut k n) ≡ block_len k - n)
    sizes = cut_sizes k n h

    none_left : n - (block_len k + total_len ks) ≡ 0
    none_left = omega arith

    cut_bytes : length (drop (n - k.gap) b.buf) ≡ length b.buf - (n - k.gap)
    cut_bytes = length-drop (n - k.gap) b.buf

Leaves-past :
    (b : Buffer) (k : Block) (ks gone : List Block) (n : ℕ) {r : Buffer}
    → total_data gone + total_data (k ∷ ks) ≡ length b.buf
    → block_len k ≤ n
    → Leaves b (gone ++ k ∷ []) ks (n - block_len k) r
    → Leaves b gone (k ∷ ks) n r
unfolding total_data total_len
Leaves-past b k ks gone n {r} data_eq h v = record {
  left = v.left ∙ rest;
  held = v.held;
  counted = v.counted;
  covered = omega arith;
  shorter = v.shorter;
  same_cap = v.same_cap;
  pending = v.pending ∙ ap (λ m. b.to_discard +ℤ pos m) amount;
  idle = ground arith;
}
  where
    amount : n - block_len k - total_len ks ≡ n - (block_len k + total_len ks)
    amount = omega arith

    rest :
        drop (n - block_len k) (cells ks (drop (total_data (gone ++ k ∷ [])) b.buf))
        ≡ drop n (cells (k ∷ ks) (drop (total_data gone) b.buf))
    rest = rw (total_data-append gone (k ∷ [])) (
        ap (λ m. drop (n - block_len k) (cells ks (drop m b.buf)))
          {x = total_data gone + (k.data_len + 0)} {y = total_data gone + k.data_len} (omega arith)
        ∙ ap (λ t. drop (n - block_len k) (cells ks t))
            (sym (drop-drop k.data_len (total_data gone) b.buf))
        ∙ sym (
            drop-block k ks (drop (total_data gone) b.buf) n h
              (omega (arith, length-drop (total_data gone) b.buf))))

pub discard_loop-Leaves :
    (b : Buffer) (rest gone : List Block) (n : ℕ)
    → total_data gone + total_data rest ≡ length b.buf
    → b.len ≡ total_len gone + total_len rest
    → Leaves b gone rest n (discard_loop b gone rest (pos n))
unfolding discard_loop cells total_data total_len
discard_loop-Leaves b [] gone n data_eq len_eq = record {
  left = sym (drop-nil n);
  held = refl;
  counted = refl;
  covered = omega arith;
  shorter = omega arith;
  same_cap = refl;
  pending = ap (λ m. b.to_discard +ℤ pos m) {x = n} {y = n - 0} (omega arith);
  idle = inr refl;
}
discard_loop-Leaves b (k ∷ ks) gone n data_eq len_eq = elim (Bool-cases (ltb n (block_len k))) [
  | inl inside ↦
      rw (discard_loop_in b gone k ks n (ltb→lt _ _ inside))
        (Leaves-in b k ks gone n data_eq len_eq (ltb→lt _ _ inside))
  | inr past ↦ rw (discard_loop_past b gone k ks n (ltb_false→le _ _ past)) (
      Leaves-past b k ks gone n data_eq (ltb_false→le _ _ past) (
        discard_loop-Leaves b ks (gone ++ k ∷ []) (n - block_len k)
          (omega (arith, total_data-append gone (k ∷ [])))
          (omega (arith, total_len-append gone (k ∷ [])))))
]
