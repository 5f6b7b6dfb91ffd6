-- ===== src/Buffer/Words.antt =====
-- IndexAny and ReadN of assembly/reader/buffer.go over plain bytes: a word up to a delimiter.
use memsniff.Common.{
  ℕ, ◌≡◌, refl, sym, ap, ap₂, ◌∙◌, true, inl, inr, List, [], ◌∷◌, ◌++◌, map, Option, none, some,
  arith, length, take, length-append, length-map, take-map, take-append_length, subst,
}
use memsniff.Error.{Error}
use memsniff.Buffer.{
  Block, Buffer, contains, position_any, find_any, index_any, read_n, contiguous_available,
}
use memsniff.Buffer.Cells.{Cell}
use memsniff.Buffer.Front.{Front, available-Front}
use memsniff.Buffer.Reading.{Free, Reads, read_n_refines}
use memsniff.Buffer.Plain.{Holds, plain, Holds-Shows, Shows-Holds, not-LostAfter}

map-some_inj : (xs ys : List ℕ) → map {B = Cell} some xs ≡ map some ys → xs ≡ ys
map-some_inj [] [] e = refl
map-some_inj [] (y ∷ ys) e = absurd (ground arith)
map-some_inj (x ∷ xs) [] e = absurd (ground arith)
map-some_inj (x ∷ xs) (y ∷ ys) e = ap₂ ◌∷◌ (ground arith) (map-some_inj xs ys (ground arith))

Front-plain :
    (ks : List Block) (bytes front : List ℕ) (g : ℕ)
    → Front ks (map some bytes) front g
    → front ≡ bytes
Front-plain ks bytes front g (inl (e, z)) = sym (map-some_inj bytes front e)
Front-plain ks bytes front g (inr (rest, e, p, d)) =
    absurd (not-LostAfter ks bytes front g (p, rest, e, d))

-- All plain bytes are available.
available-Holds :
    (b : Buffer) (bytes : List ℕ) → Holds b bytes → take (contiguous_available b).0 b.buf ≡ bytes
available-Holds b bytes h = Front-plain b.blocks bytes _ _ (
    subst
      (λ cs. Front b.blocks cs (take (contiguous_available b).0 b.buf) (contiguous_available b).1)
      h.shown (available-Front b h.valid).0)

position_any-first :
    (chars word rest : List ℕ) (d : ℕ)
    → Free chars word
    → contains chars d ≡ true
    → position_any chars (word ++ d ∷ rest) ≡ some (length word)
unfolding position_any
position_any-first chars [] rest d f h = ground arith
position_any-first chars (x ∷ xs) rest d f h =
    ground (arith, position_any-first chars xs rest d f.1 h)

-- IndexAny finds the first delimiter of plain bytes.
pub index_any-Holds :
    (b : Buffer) (chars word rest : List ℕ) (d : ℕ)
    → Holds b (word ++ d ∷ rest)
    → Free chars word
    → contains chars d ≡ true
    → index_any b chars ≡ (some (length word), none)
unfolding index_any
index_any-Holds b chars word rest d h f hit = rw (found, index_any) refl
  where
    found : find_any b chars ≡ some (length word)
    found =
        unfold find_any in
        (ap (position_any chars) (available-Holds b (word ++ d ∷ rest) h)
          ∙ position_any-first chars word rest d f hit)

bytes_read :
    (ks : List Block) (first rest out : List ℕ) (n : ℕ) (e : Option Error) (used : ℕ)
    → length first ≡ n
    → Reads ks (map some (first ++ rest)) n out e used
    → (out ≡ first) × (e ≡ none) × (used ≡ n)
bytes_read ks first rest out n e used len (inl (short, _, _, _)) =
    absurd (omega (arith, length-map (first ++ rest) (λ (x : ℕ). some x), length-append first rest))
bytes_read ks first rest out n e used len (inr (inl (_, data_eq, ok, u))) = (same, ok, u)
  where
    same : out ≡ first
    same = map-some_inj out first (
        sym data_eq
        ∙ take-map n (first ++ rest) some
        ∙ ap (λ k. map {B = Cell} some (take k (first ++ rest))) (sym len)
        ∙ ap (map some) (take-append_length first rest))
bytes_read ks first rest out n e used len (inr (inr (_, _, (g, lost, _, _)))) =
    absurd (not-LostAfter ks (first ++ rest) out g lost)

-- ReadN of the first bytes returns them and leaves the others.
pub read_n-Holds :
    (b : Buffer) (first rest : List ℕ) (n : ℕ)
    → Holds b (first ++ rest)
    → length first ≡ n
    → ((read_n b n).1 ≡ first) × ((read_n b n).2 ≡ none) × Holds (read_n b n).0 rest
read_n-Holds b first rest n h len =
    let (used, reads, v, w) =
      read_n_refines b (plain (first ++ rest)) n h.valid (Holds-Shows b (first ++ rest) h) in
    let (out, e, u) =
      bytes_read b.blocks first rest (read_n b n).1 n (read_n b n).2 used len reads in
    (out, e, Shows-Holds (read_n b n).0 first rest used v (len ∙ sym u) w)
