-- ===== src/Buffer/Plain.antt =====
-- A Buffer of assembly/reader/buffer.go that holds plain bytes, with nothing lost or pending.
use mathlib.Core.List.{map-append}
use memsniff.Common.{
  ℕ, zero, suc, ◌+◌, ◌-◌, ◌≤◌, ◌<◌, ◌≡◌, refl, sym, ap, ap₂, ◌∙◌, inl, inr, List, [], ◌∷◌, ◌++◌,
  map, append_assoc, Option, none, some, arith, length, drop, replicate, length-append, length-map,
  drop-append_length, drop-map, pos, subst,
}
use memsniff.Error.{Error}
use memsniff.Buffer.{Block, Buffer, discard, contains, trim_cr, read_line, write}
use memsniff.Buffer.Cells.{Cell}
use memsniff.Buffer.Stream.{IsValid, view, Stream, Shows, advance, arrive}
use memsniff.Buffer.Discarding.{discard_refines}
use memsniff.Buffer.Writing.{write_refines}
use memsniff.Buffer.Reading.{Free, LostAfter}
use memsniff.Buffer.Lines.{ReadsLine, read_line_refines}

pub record Holds (b : Buffer) (bytes : List ℕ) : Type 0 where
  pub valid : IsValid b
  pub shown : view b ≡ map some bytes
  pub pending : b.to_discard ≡ pos 0

abbrev pub plain : List ℕ → Stream
plain bytes = record { sent = map some bytes; cursor = 0 }

pub Holds-Shows : (b : Buffer) (bytes : List ℕ) → Holds b bytes → Shows b (plain bytes)
Holds-Shows b bytes h = record {
  shown = h.shown;
  ahead = h.pending ∙ ap pos {x = 0} {y = 0 - length (map {B = Cell} some bytes)} (omega arith);
}

-- Past the first bytes, the buffer holds the others.
pub Shows-Holds :
    (b : Buffer) (first rest : List ℕ) (n : ℕ)
    → IsValid b
    → length first ≡ n
    → Shows b (advance (plain (first ++ rest)) n)
    → Holds b rest
unfolding advance
Shows-Holds b first rest n v e w = record {
  valid = v;
  shown =
      w.shown
      ∙ drop-map (0 + n) (first ++ rest) some
      ∙ ap (λ k. map {B = Cell} some (drop k (first ++ rest))) {x = 0 + n} {y = length first}
          (omega arith)
      ∙ ap (map some) (drop-append_length first rest);
  pending =
      w.ahead
      ∙ ap pos
          (omega (arith, length-map (first ++ rest) (λ (x : ℕ). some x), length-append first rest));
}

lost_not_data :
    (bytes out : List ℕ) (g : ℕ) (rest : List Cell)
    → 0 < g
    → map some bytes ≡ map some out ++ (replicate g none ++ rest)
    → ⊥
lost_not_data bytes out zero rest p e = absurd (omega arith)
lost_not_data [] [] (suc g) rest p e = cc
lost_not_data [] (o ∷ os) (suc g) rest p e = cc
lost_not_data (b ∷ bs) [] (suc g) rest p e = cc
lost_not_data (b ∷ bs) (o ∷ os) (suc g) rest p e = lost_not_data bs os (suc g) rest p (ground arith)

-- A gap is no part of plain bytes.
pub not-LostAfter :
    (ks : List Block) (bytes out : List ℕ) (g : ℕ) → LostAfter ks (map some bytes) out g → ⊥
not-LostAfter ks bytes out g (p, rest, e, d) = lost_not_data bytes out g rest p e

-- The first \n splits the bytes in one way.
first_newline :
    (line before rest : List ℕ) (rest' : List Cell)
    → Free (b'\n' ∷ []) line
    → Free (b'\n' ∷ []) before
    → map some (line ++ b'\n' ∷ rest) ≡ map some before ++ some b'\n' ∷ rest'
    → before ≡ line
first_newline [] [] rest rest' f g e = refl
first_newline [] (b ∷ bs) rest rest' f g e = absurd (unfold contains in ground arith)
first_newline (x ∷ xs) [] rest rest' f g e = absurd (unfold contains in ground arith)
first_newline (x ∷ xs) (b ∷ bs) rest rest' f g e =
    ap₂ ◌∷◌ (ground arith) (first_newline xs bs rest rest' f.1 g.1 (ground arith))

has_newline :
    (line before rest : List ℕ)
    → Free (b'\n' ∷ []) before
    → map {B = Cell} some (line ++ b'\n' ∷ rest) ≡ map some before
    → ⊥
has_newline [] [] rest g e = unfold contains in ground arith
has_newline [] (b ∷ bs) rest g e = unfold contains in ground arith
has_newline (x ∷ xs) [] rest g e = unfold contains in ground arith
has_newline (x ∷ xs) (b ∷ bs) rest g e = has_newline xs bs rest g.1 (ground arith)

-- Discard of the first bytes leaves the others.
pub discard-Holds :
    (b : Buffer) (first rest : List ℕ) (n : ℕ)
    → Holds b (first ++ rest)
    → length first ≡ n
    → Holds (discard b (pos n)) rest
discard-Holds b first rest n h e =
    let p = discard_refines b (plain (first ++ rest)) n h.valid (Holds-Shows b (first ++ rest) h) in
    Shows-Holds (discard b (pos n)) first rest n p.0 e p.1

line_read :
    (ks : List Block) (line rest out : List ℕ) (e : Option Error) (used : ℕ)
    → Free (b'\n' ∷ []) line
    → ReadsLine ks (map some (line ++ b'\n' ∷ rest)) out e used
    → (out ≡ trim_cr line) × (e ≡ none) × (used ≡ length line + 1)
line_read ks line rest out e used f (before, g, inl (rest', shape, o, n, u)) =
    let same = first_newline line before rest rest' f g shape in
    (o ∙ ap trim_cr same, n, u ∙ ap (λ l. length l + 1) same)
line_read ks line rest out e used f (before, g, inr (inl (gap, lost, _, _, _))) =
    absurd (not-LostAfter ks (line ++ b'\n' ∷ rest) before gap lost)
line_read ks line rest out e used f (before, g, inr (inr (shape, _, _, _))) =
    absurd (has_newline line before rest g shape)

-- ReadLine of plain bytes returns the first line and leaves what comes behind it.
pub read_line-Holds :
    (b : Buffer) (line rest : List ℕ)
    → Holds b (line ++ b'\n' ∷ rest)
    → Free (b'\n' ∷ []) line
    → ((read_line b).1 ≡ trim_cr line) × ((read_line b).2 ≡ none) × Holds (read_line b).0 rest
read_line-Holds b line rest h f =
    let (used, reads, v, w) =
      read_line_refines b (plain (line ++ b'\n' ∷ rest)) h.valid
        (Holds-Shows b (line ++ b'\n' ∷ rest) h) in
    let (out, e, u) = line_read b.blocks line rest (read_line b).1 (read_line b).2 used f reads in
    (
      out,
      e,
      Shows-Holds (read_line b).0 (line ++ b'\n' ∷ []) rest used v
          (omega (arith, length-append line (b'\n' ∷ [])))
          (subst (λ bytes. Shows (read_line b).0 (advance (plain bytes) used))
            (sym (append_assoc line (b'\n' ∷ []) rest)) w),
    )

-- A write of data that fits follows what is held.
pub write-Holds :
    (b : Buffer) (bytes more : List ℕ)
    → Holds b bytes
    → length b.buf + length more ≤ b.cap
    → ((write b (pos 0) more).1 ≡ none) × Holds (write b (pos 0) more).0 (bytes ++ more)
unfolding arrive
write-Holds b bytes more h fits =
    let s : Stream = plain bytes in
    let (e, v, w) =
      (write_refines b s (pos 0) more h.valid (Holds-Shows b bytes h)).0 (omega arith) in
    (
      e,
      record {
        valid = v;
        shown = w.shown ∙ sym (map-append some bytes more);
        pending = w.ahead ∙ ap pos {y = 0} (omega arith);
      },
    )
