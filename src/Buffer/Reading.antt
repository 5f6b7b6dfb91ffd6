-- ===== src/Buffer/Reading.antt =====
-- The reading methods of assembly/reader/buffer.go against the cells of the stream that they read.
use native.Mathlib.Decide.{dec_lt}
use memsniff.Common.{
  ℕ, ◌+◌, ◌≤◌, ◌<◌, ◌≡◌, refl, sym, ap, ◌∙◌, true, false, inl, inr, ◌⊎◌, List, [], ◌∷◌, ◌++◌, map,
  Option, none, some, arith, Bool-cases, Option-cases, length, take, drop, replicate, length-append,
  length-map, length-take, length-replicate, take-append_le, take-map, take-take_le, pos, subst,
}
use memsniff.Error.{Error, short_read, lost_data}
use memsniff.Buffer.{
  Block, Buffer, contiguous_available, discard, read_n, peek_n, contains, position_any,
}
use memsniff.Buffer.Cells.{Cell}
use memsniff.Buffer.Stream.{IsValid, view, Stream, Shows, advance}
use memsniff.Buffer.Discarding.{discard_refines}
use memsniff.Buffer.Front.{GapEnds, Front, available-Front, length-view}

abbrev some_cell : ℕ → Cell
some_cell x = some x

-- `cs`, the cells of the blocks `ks`, begins with the bytes `out` and then a gap of `g` lost cells,
-- at least one, up to the next data or the end of an empty segment.
abbrev pub LostAfter : List Block → List Cell → List ℕ → ℕ → Type 0
LostAfter ks cs out g =
    (0 < g)
    × (rest : List Cell) × (cs ≡ map some out ++ (replicate g none ++ rest))
    × GapEnds ks (length out) g rest

-- What a read of `n` bytes from the cells `cs` of the blocks `ks` returns, and how many cells it
-- uses up.
abbrev pub Reads : List Block → List Cell → ℕ → List ℕ → Option Error → ℕ → Type 0
Reads ks cs n out e used =
    ((length cs < n) × (out ≡ []) × (e ≡ some short_read) × (used ≡ 0))
    ⊎ ((n ≤ length cs) × (take n cs ≡ map some out) × (e ≡ none) × (used ≡ n))
    ⊎ ((n ≤ length cs)
        × (length out < n)
        × ((g : ℕ) × LostAfter ks cs out g × (e ≡ some (lost_data g)) × (used ≡ length out + g)))

-- Every byte is outside `chars`.
abbrev pub Free : List ℕ → List ℕ → Type 0
Free chars [] = Unit
Free chars (c ∷ cs) = (contains chars c ≡ false) × Free chars cs

pub Free-append : (chars xs ys : List ℕ) → Free chars xs → Free chars ys → Free chars (xs ++ ys)
Free-append chars [] ys f g = g
Free-append chars (x ∷ xs) ys f g = (f.0, Free-append chars xs ys f.1 g)

-- `cs` begins with `before`, free of `chars`, and a byte `c` of `chars`.
abbrev pub FoundAt : List ℕ → List ℕ → List ℕ → ℕ → List ℕ → Type 0
FoundAt chars bytes before c after =
    (bytes ≡ before ++ c ∷ after) × Free chars before × (contains chars c ≡ true)

pub position_any-none : (chars bytes : List ℕ) → position_any chars bytes ≡ none → Free chars bytes
unfolding position_any
position_any-none chars [] h = tt
position_any-none chars (c ∷ cs) h = ground (arith, position_any-none chars cs)

pub position_any-some :
    (chars bytes : List ℕ) (i : ℕ)
    → position_any chars bytes ≡ some i
    → (before : List ℕ) × (c : ℕ) × (after : List ℕ) × FoundAt chars bytes before c after
      × (length before ≡ i)
unfolding position_any
position_any-some chars [] i h = cc
position_any-some chars (c ∷ cs) i h = elim (Bool-cases (contains chars c)) [
  | inl hit ↦ ([], c, cs, (refl, tt, hit), ground arith)
  | inr miss ↦ elim (Option-cases (position_any chars cs)) [
    | inl e ↦ absurd (ground arith)
    | inr (j, e) ↦
        let (before, d, after, (eq, free, hit), len) = position_any-some chars cs j e in
        (c ∷ before, d, after, (ap (◌∷◌ c) eq, (miss, free), hit), ground arith)
  ]
]

-- The first `n` cells of a front of at least `n` bytes.
pub Front-take :
    (ks : List Block) (cs : List Cell) (front : List ℕ) (g n : ℕ)
    → Front ks cs front g
    → n ≤ length front
    → take n cs ≡ map some (take n front)
Front-take ks cs front g n (inl (e, z)) h = rw (e, take-map) refl
Front-take ks cs front g n (inr (rest, e, p, d)) h =
    rw
      (
        e,
        take-append_le n (map some front) (replicate g none ++ rest)
            (omega (arith, length-map front some_cell)),
        take-map,
      )
      refl

Front-LostAfter :
    (ks : List Block) (cs : List Cell) (front : List ℕ) (g : ℕ)
    → Front ks cs front g
    → length front < length cs
    → LostAfter ks cs front g
Front-LostAfter ks cs front g (inl (e, z)) h =
    absurd (omega (arith, ap length e, length-map front some_cell))
Front-LostAfter ks cs front g (inr (rest, e, p, d)) h = (p, rest, e, d)

pub advance_zero : (s : Stream) → s ≡ advance s 0
unfolding advance
advance_zero s = let e : s.cursor + 0 ≡ s.cursor = omega arith in ground arith

pub read_n_short : (b : Buffer) (n : ℕ) → b.len < n → read_n b n ≡ (b, [], some short_read)
unfolding read_n
read_n_short b n h = ground arith

pub read_n_full :
    (b : Buffer) (n : ℕ)
    → n ≤ b.len
    → n ≤ (contiguous_available b).0
    → read_n b n ≡ (discard b (pos n), take n b.buf, none)
unfolding read_n
read_n_full b n h g = ground arith

pub read_n_lost :
    (b : Buffer) (n : ℕ)
    → n ≤ b.len
    → (contiguous_available b).0 < n
    → let (avail, gap) = contiguous_available b in
      read_n b n ≡ (discard b (pos (avail + gap)), take avail b.buf, some (lost_data gap))
unfolding read_n
read_n_lost b n h g = ground arith

pub Front-all :
    (ks : List Block) (cs : List Cell) (front : List ℕ) (g : ℕ)
    → Front ks cs front g
    → length cs ≤ length front
    → cs ≡ map some front
Front-all ks cs front g (inl (e, z)) h = e
Front-all ks cs front g (inr (rest, e, p, d)) h = absurd (
    omega (
      arith,
      ap length e,
      length-append (map some_cell front) (replicate g none ++ rest),
      length-append {0} {A = Cell} (replicate g none) rest,
      length-replicate {0} {A = Cell} g none,
      length-map front some_cell,
    ))

pub LostAfter-available :
    (b : Buffer) (s : Stream)
    → IsValid b
    → Shows b s
    → (contiguous_available b).0 < b.len
    → let (avail, gap) = contiguous_available b in
      LostAfter b.blocks (drop s.cursor s.sent) (take avail b.buf) gap
LostAfter-available b s v w h =
    let (front, fits) = available-Front b v in
    subst (λ cs. LostAfter b.blocks cs (take avail b.buf) (contiguous_available b).1) w.shown
      (Front-LostAfter b.blocks (view b) (take avail b.buf) (contiguous_available b).1 front
        (omega (arith, length-view b v, length-take avail b.buf, fits)))
  where
    avail : ℕ
    avail = (contiguous_available b).0

pub all_available :
    (b : Buffer)
    → IsValid b
    → b.len ≤ (contiguous_available b).0
    → view b ≡ map some (take (contiguous_available b).0 b.buf)
all_available b v h =
    let (front, fits) = available-Front b v in
    Front-all b.blocks (view b) (take (contiguous_available b).0 b.buf) (contiguous_available b).1
      front (omega (arith, length-view b v, length-take (contiguous_available b).0 b.buf, fits))

-- ReadN on a valid buffer that shows a stream: with too few cells left it reports a short read
-- and changes nothing; if the next n cells are data it returns them and moves the cursor past
-- them; otherwise it returns the data before the gap, reports the number of the gap's lost
-- cells, all up to the next data or up to the end of an empty segment, and moves the cursor
-- past both. The buffer stays valid.
pub read_n_refines :
    (b : Buffer) (s : Stream) (n : ℕ)
    → IsValid b
    → Shows b s
    → let (b', out, e) = read_n b n in
      (used : ℕ) × Reads b.blocks (drop s.cursor s.sent) n out e used
      × IsValid b'
      × Shows b' (advance s used)
read_n_refines b s n v w = elim (dec_lt b.len n) [
  | yes h ↦
      rw (read_n_short b n h)
        (0, inl (omega (arith, size), refl, refl, refl), v, subst (Shows b) (advance_zero s) w)
  | no h ↦ elim (dec_lt avail n) [
    | yes g ↦
        let p = discard_refines b s (avail + gap) v w in
        rw (read_n_lost b n (omega arith) g) (
          avail + gap,
          inr (
              inr (
                omega (arith, size),
                omega (arith, out_size),
                (gap, lost (omega arith), refl, omega (arith, out_size)),
              )),
          p.0,
          p.1,
        )
    | no g ↦
        let p = discard_refines b s n v w in
        rw (read_n_full b n (omega arith) (omega arith))
          (n, inr (inl (omega (arith, size), full (omega arith), refl, refl)), p.0, p.1)
  ]
]
  where
    avail : ℕ
    avail = (contiguous_available b).0

    gap : ℕ
    gap = (contiguous_available b).1

    front : Front b.blocks (view b) (take avail b.buf) gap × (avail ≤ length b.buf)
    front = available-Front b v

    out_size : length (take avail b.buf) ≡ avail
    out_size = omega (arith, length-take avail b.buf, front.1)

    size : length (drop s.cursor s.sent) ≡ b.len
    size = ap length (sym w.shown) ∙ length-view b v

    full : n ≤ avail → take n (drop s.cursor s.sent) ≡ map some (take n b.buf)
    full h =
        ap (take n) (sym w.shown)
        ∙ Front-take b.blocks (view b) (take avail b.buf) gap n front.0 (omega (arith, out_size))
        ∙ ap (map some) (take-take_le n avail b.buf h)

    lost : avail < b.len → LostAfter b.blocks (drop s.cursor s.sent) (take avail b.buf) gap
    lost h = LostAfter-available b s v w h

-- PeekN returns the data and the error that ReadN returns, the report of lost data included.
pub peek_n-read_n : (b : Buffer) (n : ℕ) → peek_n b n ≡ ((read_n b n).1, (read_n b n).2)
unfolding peek_n read_n
peek_n-read_n b n = ground arith
