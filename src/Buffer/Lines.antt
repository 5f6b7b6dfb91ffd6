-- ===== src/Buffer/Lines.antt =====
-- ReadLine of assembly/reader/buffer.go against the cells of the stream that it reads.
use native.Mathlib.Decide.{dec_lt}
use mathlib.Core.List.{map-append}
use memsniff.Common.{
  ℕ, ◌+◌, ◌≤◌, ◌<◌, ◌≡◌, refl, sym, ap, ◌∙◌, true, inl, inr, ◌⊎◌, List, [], ◌∷◌, ◌++◌, map,
  append_assoc, Option, none, some, arith, Option-cases, length, take, drop, replicate,
  length-append, length-take, take-take_le, take-append_length, pos, subst,
}
use memsniff.Error.{Error, short_read, lost_data}
use memsniff.Buffer.{
  Block, Buffer, contiguous_available, discard, contains, find_any, trim_cr, read_line,
}
use memsniff.Buffer.Cells.{Cell}
use memsniff.Buffer.Stream.{IsValid, view, Stream, Shows, advance}
use memsniff.Buffer.Discarding.{discard_refines}
use memsniff.Buffer.Front.{Front, available-Front}
use memsniff.Buffer.Reading.{
  LostAfter, Free, position_any-none, position_any-some, advance_zero, LostAfter-available,
  all_available,
}

-- What a read of a line from the cells `cs` of the blocks `ks` returns, and how many cells it uses up: a line up to
-- its \n, a gap before any \n, or neither so far.
abbrev pub ReadsLine : List Block → List Cell → List ℕ → Option Error → ℕ → Type 0
ReadsLine ks cs line e used =
    (before : List ℕ) × Free (b'\n' ∷ []) before
    × (((rest : List Cell) × (cs ≡ map some before ++ some b'\n' ∷ rest)
          × (line ≡ trim_cr before)
          × (e ≡ none)
          × (used ≡ length before + 1))
        ⊎ ((g : ℕ) × LostAfter ks cs before g
            × (line ≡ [])
            × (e ≡ some (lost_data g))
            × (used ≡ length before + g))
        ⊎ ((cs ≡ map some before) × (line ≡ []) × (e ≡ some short_read) × (used ≡ 0)))

pub read_line_found :
    (b : Buffer) (i : ℕ)
    → find_any b (b'\n' ∷ []) ≡ some i
    → read_line b ≡ (discard b (pos (i + 1)), trim_cr (take i b.buf), none)
unfolding read_line
read_line_found b i e = ground arith

pub read_line_lost :
    (b : Buffer)
    → find_any b (b'\n' ∷ []) ≡ none
    → (contiguous_available b).0 < b.len
    → let (avail, gap) = contiguous_available b in
      read_line b ≡ (discard b (pos (avail + gap)), [], some (lost_data gap))
unfolding read_line
read_line_lost b e h = ground arith

pub read_line_short :
    (b : Buffer)
    → find_any b (b'\n' ∷ []) ≡ none
    → b.len ≤ (contiguous_available b).0
    → read_line b ≡ (b, [], some short_read)
unfolding read_line
read_line_short b e h = ground arith

pub find_any-none :
    (b : Buffer)
    → find_any b (b'\n' ∷ []) ≡ none
    → Free (b'\n' ∷ []) (take (contiguous_available b).0 b.buf)
unfolding find_any
find_any-none b e = position_any-none (b'\n' ∷ []) (take (contiguous_available b).0 b.buf) e

pub is_newline : (c : ℕ) → contains (b'\n' ∷ []) c ≡ true → c ≡ b'\n'
unfolding contains
is_newline c h = ground arith

-- A \n that is found stands at its place in what is available.
pub find_any-some :
    (b : Buffer) (i : ℕ)
    → find_any b (b'\n' ∷ []) ≡ some i
    → (before after : List ℕ) × (take (contiguous_available b).0 b.buf ≡ before ++ b'\n' ∷ after)
      × Free (b'\n' ∷ []) before
      × (length before ≡ i)
unfolding find_any
find_any-some b i e =
    let (before, c, after, (eq, free, hit), len) =
      position_any-some (b'\n' ∷ []) (take (contiguous_available b).0 b.buf) i e in
    (before, after, eq ∙ ap (λ d. before ++ d ∷ after) (is_newline c hit), free, len)

pub Front-found :
    (ks : List Block) (cs : List Cell) (before after : List ℕ) (c g : ℕ)
    → Front ks cs (before ++ c ∷ after) g
    → (rest : List Cell) × (cs ≡ map some before ++ some c ∷ rest)
Front-found ks cs before after c g (inl (e, z)) =
    (map some after, e ∙ map-append some before (c ∷ after))
Front-found ks cs before after c g (inr (rest, e, p, d)) =
    (map some after ++ (replicate g none ++ rest), rw (e, map-append) (simp append_assoc))

-- ReadLine on a valid buffer that shows a stream: it returns the data up to the next newline,
-- without the line end, and moves the cursor past the newline; or, if a gap comes before any
-- newline, reports the number of its lost cells, all up to the next data or up to the end of an
-- empty segment, and moves the cursor past them; or, if neither is there, reports a short read
-- and changes nothing. The buffer stays valid.
pub read_line_refines :
    (b : Buffer) (s : Stream)
    → IsValid b
    → Shows b s
    → let (b', line, e) = read_line b in
      (used : ℕ) × ReadsLine b.blocks (drop s.cursor s.sent) line e used
      × IsValid b'
      × Shows b' (advance s used)
read_line_refines b s v w = elim (Option-cases (find_any b (b'\n' ∷ []))) [
  | inl missing ↦ elim (dec_lt avail b.len) [
    | yes g ↦
        let p = discard_refines b s (avail + gap) v w in
        rw (read_line_lost b missing g) (
          avail + gap,
          (
            data_front,
            find_any-none b missing,
            inr (inl (gap, lost g, refl, refl, omega (arith, out_size))),
          ),
          p.0,
          p.1,
        )
    | no g ↦ rw (read_line_short b missing (omega arith)) (
      0,
      (data_front, find_any-none b missing, inr (inr (all_data (omega arith), refl, refl, refl))),
      v,
      subst (Shows b) (advance_zero s) w,
    )
  ]
  | inr (i, found) ↦
      let p = discard_refines b s (i + 1) v w in
      rw (read_line_found b i found) (i + 1, line_at i found, p.0, p.1)
]
  where
    avail : ℕ
    avail = (contiguous_available b).0

    gap : ℕ
    gap = (contiguous_available b).1

    data_front : List ℕ
    data_front = take avail b.buf

    front : Front b.blocks (view b) data_front gap × (avail ≤ length b.buf)
    front = available-Front b v

    out_size : length data_front ≡ avail
    out_size = omega (arith, length-take avail b.buf, front.1)

    lost : avail < b.len → LostAfter b.blocks (drop s.cursor s.sent) data_front gap
    lost h = LostAfter-available b s v w h

    all_data : b.len ≤ avail → drop s.cursor s.sent ≡ map some data_front
    all_data h = sym w.shown ∙ all_available b v h

    bytes_before :
        (i : ℕ) (before after : List ℕ)
        → data_front ≡ before ++ b'\n' ∷ after
        → length before ≡ i
        → take i b.buf ≡ before
    bytes_before i before after eq len =
        sym (
          take-take_le i avail b.buf
            (omega (arith, out_size, ap length eq, length-append before (b'\n' ∷ after))))
        ∙ ap (take i) eq
        ∙ ap (λ k. take k (before ++ b'\n' ∷ after)) (sym len)
        ∙ take-append_length before (b'\n' ∷ after)

    line_at :
        (i : ℕ)
        → find_any b (b'\n' ∷ []) ≡ some i
        → ReadsLine b.blocks (drop s.cursor s.sent) (trim_cr (take i b.buf)) none (i + 1)
    line_at i found =
        let (before, after, eq, free, len) = find_any-some b i found in
        let (rest, shape) =
          Front-found b.blocks _ before after b'\n' gap
            (subst (λ t. Front b.blocks (view b) t gap) eq front.0) in
        (
          before,
          free,
          inl (
            rest,
            sym w.shown ∙ shape,
            ap trim_cr (bytes_before i before after eq len),
            refl,
            omega arith,
          ),
        )
