-- ===== src/Buffer/Cells.antt =====
-- What the blocks of assembly/reader/buffer.go stand for: the bytes of the stream in order, each
-- lost byte a `none`.
use memsniff.Common.{
  ℕ, zero, suc, ◌+◌, ◌-◌, ◌≤◌, ◌≡◌, refl, ap, ◌∙◌, List, [], ◌∷◌, ◌++◌, map, append-nil,
  append_assoc, Option, none, some, arith, length, take, drop, replicate, length-append,
  length-take, length-drop, length-map, length-replicate, drop-append_le, drop-append_ge,
  take-append_le, drop-drop, take_all,
}
use mathlib.Core.List.{map-append}
use memsniff.Buffer.{Block, extend_last, add_block, total_len, total_data}

abbrev pub Cell : Type 0
Cell = Option ℕ

unfoldable pub cells : List Block → List ℕ → List Cell
cells [] bytes = []
cells (k ∷ ks) bytes =
    replicate k.gap none ++ (map some (take k.data_len bytes) ++ cells ks (drop k.data_len bytes))

-- The blocks cover as many cells as they count, if the data is there.
pub length-cells :
    (ks : List Block) (bytes : List ℕ)
    → total_data ks ≤ length bytes
    → length (cells ks bytes) ≡ total_len ks
unfolding cells total_len total_data
length-cells [] bytes h = refl
length-cells (k ∷ ks) bytes h = omega (
  arith,
  length-append (replicate k.gap none)
      (map some (take k.data_len bytes) ++ cells ks (drop k.data_len bytes)),
  length-append (map some (take k.data_len bytes)) (cells ks (drop k.data_len bytes)),
  length-map (take k.data_len bytes) (λ (x : ℕ). some x),
  length-take k.data_len bytes,
  length-replicate {0} {A = Cell} k.gap none,
  length-drop k.data_len bytes,
  length-cells ks (drop k.data_len bytes) (omega (arith, length-drop k.data_len bytes)),
)

-- The cells that the blocks cover do not depend on bytes behind them.
pub cells-append_le :
    (ks : List Block) (bytes more : List ℕ)
    → total_data ks ≤ length bytes
    → cells ks (bytes ++ more) ≡ cells ks bytes
unfolding cells total_data
cells-append_le [] bytes more h = refl
cells-append_le (k ∷ ks) bytes more h = rw (
  take-append_le k.data_len bytes more (omega arith),
  drop-append_le k.data_len bytes more (omega arith),
  cells-append_le ks (drop k.data_len bytes) more (omega (arith, length-drop k.data_len bytes)),
)

pub total_data-append : (ks ls : List Block) → total_data (ks ++ ls) ≡ total_data ks + total_data ls
unfolding total_data
total_data-append [] ls = omega arith
total_data-append (k ∷ ks) ls = omega (arith, total_data-append ks ls)

pub total_len-append : (ks ls : List Block) → total_len (ks ++ ls) ≡ total_len ks + total_len ls
unfolding total_len
total_len-append [] ls = omega arith
total_len-append (k ∷ ks) ls = omega (arith, total_len-append ks ls)

-- Blocks behind a list of blocks cover what comes behind its data.
pub cells-append :
    (ks ls : List Block) (bytes : List ℕ)
    → cells (ks ++ ls) bytes ≡ cells ks bytes ++ cells ls (drop (total_data ks) bytes)
unfolding cells total_data
cells-append [] ls bytes = refl
cells-append (k ∷ ks) ls bytes =
    rw (cells-append ks ls (drop k.data_len bytes), drop-drop) (simp append_assoc)

-- Extending the last block appends the new data.
pub cells-extend_last :
    (more : List ℕ) (k : Block) (ks : List Block) (bytes : List ℕ)
    → total_data (k ∷ ks) ≡ length bytes
    → cells (extend_last (length more) (k ∷ ks)) (bytes ++ more)
      ≡ cells (k ∷ ks) bytes ++ map some more
unfolding cells extend_last total_data
cells-extend_last more k [] bytes h =
    rw
      (
        take_all (k.data_len + length more) (bytes ++ more)
            (omega (arith, length-append bytes more)),
        take_all k.data_len bytes (omega arith),
        map-append,
      )
      (simp (append-nil, append_assoc))
cells-extend_last more k (l ∷ ks) bytes h =
    rw
      (
        take-append_le k.data_len bytes more (omega arith),
        drop-append_le k.data_len bytes more (omega arith),
      )
      (ap (λ t. replicate k.gap none ++ (map some (take k.data_len bytes) ++ t))
          (cells-extend_last more l ks (drop k.data_len bytes)
            (omega (arith, length-drop k.data_len bytes)))
        ∙ simp append_assoc)

pub total_data-extend_last :
    (n : ℕ) (k : Block) (ks : List Block)
    → total_data (extend_last n (k ∷ ks)) ≡ total_data (k ∷ ks) + n
unfolding extend_last total_data
total_data-extend_last n k [] = omega arith
total_data-extend_last n k (l ∷ ks) = omega (arith, total_data-extend_last n l ks)

pub total_len-extend_last :
    (n : ℕ) (k : Block) (ks : List Block)
    → total_len (extend_last n (k ∷ ks)) ≡ total_len (k ∷ ks) + n
unfolding extend_last total_len
total_len-extend_last n k [] = omega arith
total_len-extend_last n k (l ∷ ks) = omega (arith, total_len-extend_last n l ks)

-- A new block behind the others, over new data.
cells-new_block :
    (skip : ℕ) (more : List ℕ) (ks : List Block) (bytes : List ℕ)
    → total_data ks ≡ length bytes
    → cells (ks ++ (record { gap = skip; data_len = length more } ∷ [])) (bytes ++ more)
      ≡ cells ks bytes ++ (replicate skip none ++ map some more)
cells-new_block skip more ks bytes h =
    rw
      (
        cells-append ks (record { gap = skip; data_len = length more } ∷ []) (bytes ++ more),
        cells-append_le ks bytes more (omega arith),
        drop-append_ge (total_data ks) bytes more (omega arith),
      )
      (ap (◌++◌ (cells ks bytes)) (unfold cells in ap (◌++◌ (replicate skip none)) fitted))
  where
    all_of_it : drop (total_data ks - length bytes) more ≡ more
    all_of_it = ap (λ n. drop n more) {x = total_data ks - length bytes} {y = 0} (omega arith)

    fitted :
        map some (take (length more) (drop (total_data ks - length bytes) more)) ++ []
        ≡ map {B = Cell} some more
    fitted = rw (all_of_it, take_all (length more) more (omega arith), append-nil) refl

add_block-suc :
    (skip n : ℕ) (k : Block) (ks : List Block)
    → add_block (suc skip) n (k ∷ ks) ≡ (k ∷ ks) ++ (record { gap = suc skip; data_len = n } ∷ [])
unfolding add_block
add_block-suc skip n k ks = ground arith

-- A write behind the blocks appends its lost cells and its data.
pub cells-add_block :
    (skip : ℕ) (more : List ℕ) (ks : List Block) (bytes : List ℕ)
    → total_data ks ≡ length bytes
    → cells (add_block skip (length more) ks) (bytes ++ more)
      ≡ cells ks bytes ++ (replicate skip none ++ map some more)
unfolding add_block cells total_data
cells-add_block skip more [] [] h = rw (take_all (length more) more (omega arith), append-nil) refl
cells-add_block skip more [] (b ∷ bytes) h = absurd (omega arith)
cells-add_block zero more (k ∷ ks) bytes h = cells-extend_last more k ks bytes h
cells-add_block (suc skip) more (k ∷ ks) bytes h =
    rw (add_block-suc skip (length more) k ks) (cells-new_block (suc skip) more (k ∷ ks) bytes h)

pub total_data-add_block :
    (skip n : ℕ) (ks : List Block) → total_data (add_block skip n ks) ≡ total_data ks + n
unfolding add_block total_data
total_data-add_block skip n [] = omega arith
total_data-add_block skip n (k ∷ ks) = ground (
  arith,
  total_data-extend_last n k ks,
  total_data-append ks (record { gap = skip; data_len = n } ∷ []),
)

pub total_len-add_block :
    (skip n : ℕ) (ks : List Block) → total_len (add_block skip n ks) ≡ total_len ks + (skip + n)
unfolding add_block total_len
total_len-add_block skip n [] = omega arith
total_len-add_block skip n (k ∷ ks) = ground (
  arith,
  total_len-extend_last n k ks,
  total_len-append ks (record { gap = skip; data_len = n } ∷ []),
)
