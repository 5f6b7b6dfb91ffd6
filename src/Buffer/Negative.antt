-- ===== src/Buffer/Negative.antt =====
-- Discard of assembly/reader/buffer.go with a negative count, which its callers pass for the size of
-- a value that the stream gives as negative.
use memsniff.Word.{wrap, wrap_small}
use memsniff.Common.{
  pos, ◌-ℤ◌, ◌<◌, ◌^◌, ℕ, zero, suc, ◌+◌, ◌≤◌, ◌≡◌, ◌≢◌, refl, ap, ◌∙◌, List, [], ◌∷◌, ◌++◌, map,
  none, some, arith, length, take, drop, replicate, negsuc, ◌+ℤ◌,
}
use memsniff.Buffer.{
  Buffer, Block, total_data, total_len, discard, discard_loop, block_discard, drop_blocks,
}
use memsniff.Buffer.Cells.{Cell, cells}
use memsniff.Buffer.Stream.{IsValid, view}

-- A negative count makes a gap of lost bytes before the first block.
pub discard_negative :
    (b : Buffer) (k : Block) (ks : List Block) (n : ℕ)
    → b.blocks ≡ k ∷ ks
    → discard b (negsuc n)
      ≡ record b { len = b.len + suc n; blocks = record k { gap = k.gap + suc n } ∷ ks }
unfolding discard discard_loop block_discard drop_blocks total_data total_len
discard_negative b k ks n e = ground arith

discard_negative_empty :
    (b : Buffer) (n : ℕ)
    → b.blocks ≡ []
    → discard b (negsuc n)
      ≡ record b { buf = []; len = 0; blocks = []; to_discard = b.to_discard +ℤ negsuc n }
unfolding discard discard_loop
discard_negative_empty b n e = ground arith

pub discard_negative-IsValid :
    (b : Buffer) (n : ℕ) (ks : List Block)
    → b.blocks ≡ ks
    → IsValid b
    → IsValid (discard b (negsuc n))
unfolding total_data total_len
discard_negative-IsValid b n [] e v = ground (arith, discard_negative_empty b n e)
discard_negative-IsValid b n (k ∷ ks) e v = ground (arith, discard_negative b k ks n e)

pub discard_negative-le :
    (b : Buffer) (n : ℕ) (ks : List Block)
    → b.blocks ≡ ks
    → length (discard b (negsuc n)).buf ≤ length b.buf
discard_negative-le b n [] e = rw (discard_negative_empty b n e) (omega arith)
discard_negative-le b n (k ∷ ks) e = rw (discard_negative b k ks n e) (omega arith)

replicate-add :
    (m n : ℕ) (cs : List Cell)
    → replicate (m + n) none ++ cs ≡ replicate m none ++ (replicate n none ++ cs)
replicate-add zero n cs = ap (λ k. replicate k none ++ cs) {x = 0 + n} {y = n} (omega arith)
replicate-add (suc m) n cs =
    ap (λ k. replicate k none ++ cs) {x = suc m + n} {y = suc (m + n)} (omega arith)
    ∙ ap (◌∷◌ none) (replicate-add m n cs)

-- Discard of a negative count, on a valid buffer that holds a block and whose length with that
-- many cells more fits an int: it keeps the buffer valid, its new length is the int that the
-- subtraction gives, and as many lost cells, which the stream never had, come before everything
-- that the buffer shows.
pub discard_negative_gap :
    (b : Buffer) (n : ℕ)
    → IsValid b
    → b.blocks ≢ []
    → b.len + suc n < 2 ^ 63
    → IsValid (discard b (negsuc n))
      × (wrap (pos b.len -ℤ negsuc n) ≡ pos (discard b (negsuc n)).len)
      × (view (discard b (negsuc n)) ≡ replicate (suc n) none ++ view b)
discard_negative_gap b n v h fits =
    (discard_negative-IsValid b n b.blocks refl v, counted b.blocks refl, shown b.blocks refl)
  where
    counted :
        (ks : List Block)
        → b.blocks ≡ ks
        → wrap (pos b.len -ℤ negsuc n) ≡ pos (discard b (negsuc n)).len
    counted [] e = absurd (h e)
    counted (k ∷ ks) e =
        let sum : pos b.len -ℤ negsuc n ≡ pos (b.len + suc n) = ground arith in
        rw (discard_negative b k ks n e) (ap wrap sum ∙ wrap_small (b.len + suc n) fits)

    shown :
        (ks : List Block)
        → b.blocks ≡ ks
        → view (discard b (negsuc n)) ≡ replicate (suc n) none ++ view b
    shown [] e = absurd (h e)
    shown (k ∷ ks) e =
        rw (discard_negative b k ks n e, e)
          (unfold cells in
            ap (λ g. replicate g none ++ behind) {x = k.gap + suc n} {y = suc n + k.gap}
              (omega arith)
            ∙ replicate-add (suc n) k.gap behind)
      where
        behind : List Cell
        behind = map some (take k.data_len b.buf) ++ cells ks (drop k.data_len b.buf)
