-- ===== src/Buffer/Data.antt =====
-- What every method of assembly/reader/buffer.go keeps, whatever its arguments, and the bytes that
-- a read uses up.
use memsniff.Common.{
  ℕ, zero, suc, ◌+◌, ◌-◌, ◌≤◌, ◌<◌, ◌≡◌, refl, sym, ap, ◌∙◌, inl, inr, List, [], ◌∷◌, ◌++◌, map,
  append-nil, none, some, arith, Option-cases, length, take, drop, replicate, length-append,
  length-drop, length-map, length-take, pos, negsuc, ℤ, pos_part, shrink, drop-append_le, drop-map,
}
use memsniff.Buffer.{
  Buffer, Block, total_data, total_len, contiguous_available, discard, write, append_data, read_n,
  find_any, read_line, reset,
}
use memsniff.Buffer.Cells.{Cell, cells, total_data-add_block, total_len-add_block}
use memsniff.Buffer.Stream.{IsValid, view}
use memsniff.Buffer.Discarding.{discard-Leaves, discard_pos-IsValid}
use memsniff.Buffer.Negative.{discard_negative-IsValid, discard_negative-le}
use memsniff.Buffer.Front.{Front, available-Front}
use memsniff.Buffer.Lines.{find_any-some, read_line_found}

pub reset-IsValid : (b : Buffer) → IsValid (reset b)
unfolding reset total_data total_len
reset-IsValid b = record { held = refl; counted = refl; bounded = omega arith; idle = inl refl }

append_data-IsValid :
    (b : Buffer) (skip : ℕ) (bytes : List ℕ) → IsValid b → IsValid (append_data b skip bytes).0
unfolding append_data
append_data-IsValid b skip bytes v = ground (
  arith,
  total_data-add_block skip (length bytes) b.blocks,
  total_len-add_block skip (length bytes) b.blocks,
  length-append b.buf bytes,
)

pub write-IsValid :
    (b : Buffer) (skip : ℤ) (bytes : List ℕ) → IsValid b → IsValid (write b skip bytes).0
unfolding write
write-IsValid b skip bytes v = ground (
  arith,
  append_data-IsValid b (shrink (pos_part skip) b.to_discard) bytes v,
  append_data-IsValid b 0 (drop (pos_part b.to_discard - pos_part skip) bytes) v,
)

-- Discard of any count, negative or not, keeps a buffer valid: its blocks account for the bytes
-- held and for its length, and its capacity is not exceeded.
pub discard-IsValid : (b : Buffer) (n : ℤ) → IsValid b → IsValid (discard b n)
discard-IsValid b (pos n) v = discard_pos-IsValid b n v
discard-IsValid b (negsuc n) v = discard_negative-IsValid b n b.blocks refl v

pub read_n-IsValid : (b : Buffer) (n : ℕ) → IsValid b → IsValid (read_n b n).0
unfolding read_n
read_n-IsValid b n v =
    let (avail, gap) = contiguous_available b in
    ground (arith, discard-IsValid b (pos (avail + gap)) v, discard-IsValid b (pos n) v)

pub read_line-IsValid : (b : Buffer) → IsValid b → IsValid (read_line b).0
read_line-IsValid b v = elim (Option-cases (find_any b (b'\n' ∷ []))) [
  | inl missing ↦
      let (avail, gap) = contiguous_available b in
      unfold read_line in ground (arith, discard-IsValid b (pos (avail + gap)) v)
  | inr (i, found) ↦ rw (read_line_found b i found) (discard-IsValid b (pos (i + 1)) v)
]

-- The number of cells that hold data.
data_count : List Cell → ℕ
data_count [] = 0
data_count (none ∷ cs) = data_count cs
data_count (some x ∷ cs) = suc (data_count cs)

data_count-append : (cs ds : List Cell) → data_count (cs ++ ds) ≡ data_count cs + data_count ds
unfolding data_count
data_count-append [] ds = omega arith
data_count-append (none ∷ cs) ds = data_count-append cs ds
data_count-append (some x ∷ cs) ds = omega (arith, data_count-append cs ds)

data_count-data : (bytes : List ℕ) → data_count (map some bytes) ≡ length bytes
unfolding data_count
data_count-data [] = refl
data_count-data (x ∷ xs) = ap suc (data_count-data xs)

data_count-gap : (n : ℕ) → data_count (replicate n none) ≡ 0
unfolding data_count
data_count-gap zero = refl
data_count-gap (suc n) = data_count-gap n

data_count-cells :
    (ks : List Block) (bytes : List ℕ)
    → total_data ks ≤ length bytes
    → data_count (cells ks bytes) ≡ total_data ks
unfolding cells total_data data_count
data_count-cells [] bytes h = refl
data_count-cells (k ∷ ks) bytes h = omega (
  arith,
  data_count-append (replicate k.gap none)
      (map some (take k.data_len bytes) ++ cells ks (drop k.data_len bytes)),
  data_count-append (map some (take k.data_len bytes)) (cells ks (drop k.data_len bytes)),
  data_count-data (take k.data_len bytes),
  data_count-gap k.gap,
  length-take k.data_len bytes,
  data_count-cells ks (drop k.data_len bytes) (omega (arith, length-drop k.data_len bytes)),
)

data_count-view : (b : Buffer) → IsValid b → data_count (view b) ≡ length b.buf
data_count-view b v = data_count-cells b.blocks b.buf (omega (arith, v.held)) ∙ v.held

data_count-drop :
    (n : ℕ) (front : List ℕ) (rest : List Cell)
    → n ≤ length front
    → data_count (drop n (map some front ++ rest)) + n ≡ data_count (map some front ++ rest)
data_count-drop n front rest h = omega (
  arith,
  ap data_count (
      drop-append_le n (map some front) rest (omega (arith, length-map front (λ (x : ℕ). some x)))),
  ap data_count (drop-map n front (λ (x : ℕ). some x)),
  data_count-append (drop n (map some front)) rest,
  data_count-append (map some front) rest,
  data_count-data (drop n front),
  data_count-data front,
  length-drop n front,
)

Front-shape :
    (ks : List Block) (cs : List Cell) (front : List ℕ) (g : ℕ)
    → Front ks cs front g
    → (rest : List Cell) × (cs ≡ map some front ++ rest)
Front-shape ks cs front g (inl (e, z)) = ([], e ∙ sym (append-nil (map some front)))
Front-shape ks cs front g (inr (rest, e, p, d)) = (replicate g none ++ rest, e)

-- Discarding available data uses up exactly so many of the bytes held.
pub length-discard :
    (b : Buffer) (n : ℕ)
    → IsValid b
    → n ≤ (contiguous_available b).0
    → length (discard b (pos n)).buf + n ≡ length b.buf
unfolding total_data
length-discard b n v h =
    let (front, fits) = available-Front b v in
    let (rest, shape) =
      Front-shape b.blocks (view b) (take (contiguous_available b).0 b.buf) _ front in
    omega (
      arith,
      data_count-view (discard b (pos n)) (discard_pos-IsValid b n v),
      data_count-view b v,
      ap data_count (discard-Leaves b n v).left,
      ap (λ cs. data_count (drop n cs)) shape,
      ap data_count shape,
      data_count-drop n (take (contiguous_available b).0 b.buf) rest
          (omega (arith, length-take (contiguous_available b).0 b.buf, fits)),
    )

-- A successful ReadN returns `n` bytes and uses them up.
pub read_n_used :
    (b : Buffer) (n : ℕ)
    → IsValid b
    → (read_n b n).2 ≡ none
    → (length (read_n b n).1 ≡ n) × (length (read_n b n).0.buf + n ≡ length b.buf)
unfolding read_n
read_n_used b n v e =
    ground (arith, length-discard b n v, length-take n b.buf, (available-Front b v).1)

pub find_any-lt :
    (b : Buffer) (i : ℕ) → find_any b (b'\n' ∷ []) ≡ some i → i < (contiguous_available b).0
find_any-lt b i e =
    let (before, after, eq, free, len) = find_any-some b i e in
    omega (
      arith,
      ap length eq,
      length-append before (b'\n' ∷ after),
      length-take (contiguous_available b).0 b.buf,
    )

-- A successful ReadLine uses up at least one byte.
pub read_line_used :
    (b : Buffer) → IsValid b → (read_line b).2 ≡ none → length (read_line b).0.buf < length b.buf
read_line_used b v e = elim (Option-cases (find_any b (b'\n' ∷ []))) [
  | inl missing ↦ absurd (unfold read_line in ground arith)
  | inr (i, found) ↦
      rw (read_line_found b i found)
        (omega (arith, length-discard b (i + 1) v (omega (arith, find_any-lt b i found))))
]

-- No Discard adds to the bytes held.
pub length-discard-le : (b : Buffer) (n : ℤ) → IsValid b → length (discard b n).buf ≤ length b.buf
length-discard-le b (pos n) v = (discard-Leaves b n v).shorter
length-discard-le b (negsuc n) v = discard_negative-le b n b.blocks refl

-- A buffer that shows plain bytes holds so many.
pub length-plain :
    (b : Buffer) (bytes : List ℕ)
    → IsValid b
    → view b ≡ map some bytes
    → length b.buf ≡ length bytes
length-plain b bytes v e = sym (data_count-view b v) ∙ ap data_count e ∙ data_count-data bytes
