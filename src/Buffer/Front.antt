-- ===== src/Buffer/Front.antt =====
-- contiguousAvailable of assembly/reader/buffer.go: the data before the first gap.
use mathlib.Core.List.{map-append}
use memsniff.Common.{
  ℕ, ◌+◌, ◌≤◌, ◌<◌, ◌≡◌, refl, inl, inr, ◌⊎◌, List, [], ◌∷◌, ◌++◌, map, append_assoc, none, some,
  arith, ltb, Bool-cases, ltb→lt, ltb_false→le, length, take, drop, replicate, take-add, subst, sym,
  zero, suc, ap, length-append, length-take, length-drop,
}
use memsniff.Buffer.{Block, Buffer, total_data, total_len, contiguous, contiguous_available}
use memsniff.Buffer.Cells.{Cell, cells, length-cells}
use memsniff.Buffer.Stream.{IsValid, view}

abbrev pub StartsWithData : List Cell → Type 0
StartsWithData [] = ⊥
StartsWithData (none ∷ cs) = ⊥
StartsWithData (some c ∷ cs) = Unit

-- A gap of `g` cells, behind the first `n` cells of the blocks, is all that is lost there: data
-- comes next, in `rest`, or the gap is that of a block without data, of an empty segment.
abbrev pub GapEnds : List Block → ℕ → ℕ → List Cell → Type 0
GapEnds ks n g rest =
    StartsWithData rest
    ⊎ ((pre : List Block) × (k : Block) × (post : List Block) × (ks ≡ pre ++ k ∷ post)
        × (total_len pre ≡ n)
        × (k.gap ≡ g)
        × (k.data_len ≡ 0))

-- `cs`, the cells of the blocks `ks`, begins with the bytes `front`; behind them it ends, or a gap
-- of `g` cells comes next.
abbrev pub Front : List Block → List Cell → List ℕ → ℕ → Type 0
Front ks cs front g =
    ((cs ≡ map some front) × (g ≡ 0))
    ⊎ ((rest : List Cell) × (cs ≡ map some front ++ (replicate g none ++ rest))
        × (0 < g)
        × GapEnds ks (length front) g rest)

contiguous_acc :
    (acc : ℕ) (ks : List Block)
    → contiguous acc ks ≡ (acc + (contiguous 0 ks).0, (contiguous 0 ks).1)
unfolding contiguous
contiguous_acc acc [] = ground arith
contiguous_acc acc (k ∷ ks) =
    ground (arith, contiguous_acc (acc + k.data_len) ks, contiguous_acc (0 + k.data_len) ks)

contiguous_gap : (k : Block) (ks : List Block) → 0 < k.gap → contiguous 0 (k ∷ ks) ≡ (0, k.gap)
unfolding contiguous
contiguous_gap k ks h = ground arith

contiguous_data :
    (k : Block) (ks : List Block)
    → k.gap ≡ 0
    → contiguous 0 (k ∷ ks) ≡ (k.data_len + (contiguous 0 ks).0, (contiguous 0 ks).1)
unfolding contiguous
contiguous_data k ks h = ground (arith, contiguous_acc (0 + k.data_len) ks)

contiguous-le : (ks : List Block) → (contiguous 0 ks).0 ≤ total_data ks
unfolding contiguous total_data
contiguous-le [] = omega arith
contiguous-le (k ∷ ks) = ground (arith, contiguous_acc (0 + k.data_len) ks, contiguous-le ks)

GapEnds-cons :
    (k : Block) (ks : List Block) (xs ys : List ℕ) (g : ℕ) (rest : List Cell)
    → k.gap ≡ 0
    → length xs ≡ k.data_len
    → GapEnds ks (length ys) g rest
    → GapEnds (k ∷ ks) (length (xs ++ ys)) g rest
unfolding total_len
GapEnds-cons k ks xs ys g rest z l (inl d) = inl d
GapEnds-cons k ks xs ys g rest z l (inr (pre, j, post, e, n, eg, d)) =
    inr (k ∷ pre, j, post, ap (λ bs. k ∷ bs) e, omega (arith, z, l, n, length-append xs ys), eg, d)

Front-cons :
    (k : Block) (ks : List Block) (cs : List Cell) (xs ys : List ℕ) (g : ℕ)
    → k.gap ≡ 0
    → length xs ≡ k.data_len
    → Front ks cs ys g
    → Front (k ∷ ks) (map some xs ++ cs) (xs ++ ys) g
Front-cons k ks cs xs ys g no_gap l (inl (e, z)) = inl (rw (map-append, e) refl, z)
Front-cons k ks cs xs ys g no_gap l (inr (rest, e, h, d)) =
    inr (rest, rw (map-append, e) (simp append_assoc), h, GapEnds-cons k ks xs ys g rest no_gap l d)

starts_with :
    (n : ℕ) (bytes : List ℕ) (more : List Cell)
    → 0 < n
    → n ≤ length bytes
    → StartsWithData (map some (take n bytes) ++ more)
starts_with zero bytes more p h = absurd (omega arith)
starts_with (suc n) [] more p h = absurd (omega arith)
starts_with (suc n) (c ∷ bytes) more p h = tt

-- The gap of the first block.
first-GapEnds :
    (k : Block) (ks : List Block) (bytes : List ℕ) (more : List Cell)
    → k.data_len ≤ length bytes
    → GapEnds (k ∷ ks) 0 k.gap (map some (take k.data_len bytes) ++ more)
unfolding total_len
first-GapEnds k ks bytes more h = elim (Bool-cases (ltb 0 k.data_len)) [
  | inl some_data ↦ inl (starts_with k.data_len bytes more (ltb→lt 0 k.data_len some_data) h)
  | inr empty ↦ inr ([], k, ks, refl, refl, refl, omega (arith, ltb_false→le 0 k.data_len empty))
]

contiguous-Front :
    (ks : List Block) (bytes : List ℕ)
    → total_data ks ≤ length bytes
    → Front ks (cells ks bytes) (take (contiguous 0 ks).0 bytes) (contiguous 0 ks).1
unfolding cells total_data
contiguous-Front [] bytes h = inl (unfold contiguous in refl, unfold contiguous in refl)
contiguous-Front (k ∷ ks) bytes h = elim (Bool-cases (ltb 0 k.gap)) [
  | inl gapped ↦ rw (contiguous_gap k ks (ltb→lt 0 k.gap gapped)) (
      inr (
        _,
        refl,
        ltb→lt 0 k.gap gapped,
        first-GapEnds k ks bytes (cells ks (drop k.data_len bytes)) (omega arith),
      ))
  | inr plain ↦
      let no_gap : k.gap ≡ 0 = omega (arith, ltb_false→le 0 k.gap plain) in
      rw (contiguous_data k ks no_gap, take-add k.data_len (contiguous 0 ks).0 bytes)
        (subst
          (λ n.
            Front (k ∷ ks)
              (replicate n none
                ++ (map some (take k.data_len bytes) ++ cells ks (drop k.data_len bytes)))
              (take k.data_len bytes ++ take (contiguous 0 ks).0 (drop k.data_len bytes))
              (contiguous 0 ks).1)
          (sym no_gap)
          (Front-cons k ks _ (take k.data_len bytes) _ _ no_gap
            (omega (arith, length-take k.data_len bytes))
            (contiguous-Front ks (drop k.data_len bytes)
              (omega (arith, length-drop k.data_len bytes)))))
]

-- What a valid buffer has available is the data that it shows before the first gap.
pub available-Front :
    (b : Buffer)
    → IsValid b
    → let (avail, gap) = contiguous_available b in
      Front b.blocks (view b) (take avail b.buf) gap × (avail ≤ length b.buf)
unfolding contiguous_available
available-Front b v = (
  contiguous-Front b.blocks b.buf (omega (arith, v.held)),
  omega (arith, contiguous-le b.blocks, v.held),
)

-- `len` counts the cells shown.
pub length-view : (b : Buffer) → IsValid b → length (view b) ≡ b.len
length-view b v = omega (arith, length-cells b.blocks b.buf (omega (arith, v.held)), v.counted)
