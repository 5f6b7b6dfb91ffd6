-- ===== src/Capture/Packets/Blocks.antt =====
-- What the offsets of a BlockBuffer (capture/packetbuffer.go) stand for: the blocks, in order.
use memsniff.Capture.Packets.{slice}
use memsniff.Common.{
  ℕ, zero, suc, ◌+◌, ◌-◌, ◌≤◌, ◌≡◌, refl, ap, ap₂, ◌∙◌, List, [], ◌∷◌, ◌++◌, Option, none, some,
  arith, length, take, drop, get_elem?, drop-append_le, drop-append_length, take_all,
  take-append_le, length-drop,
}

-- The offsets rise from `s` to `e`.
abbrev pub Rises : ℕ → List ℕ → ℕ → Type 0
Rises s [] e = s ≡ e
Rises s (o ∷ os) e = (s ≤ o) × Rises o os e

unfoldable pub blocks_of : ℕ → List ℕ → List ℕ → List (List ℕ)
blocks_of s [] bytes = []
blocks_of s (o ∷ os) bytes = take (o - s) (drop s bytes) ∷ blocks_of o os bytes

pub Rises-le : (s : ℕ) (os : List ℕ) (e : ℕ) → Rises s os e → s ≤ e
Rises-le s [] e r = omega arith
Rises-le s (o ∷ os) e r = omega (arith, Rises-le o os e r.1)

pub Rises-snoc :
    (s : ℕ) (os : List ℕ) (e n : ℕ) → Rises s os e → Rises s (os ++ (e + n) ∷ []) (e + n)
Rises-snoc s [] e n r = (omega arith, refl)
Rises-snoc s (o ∷ os) e n r = (r.0, Rises-snoc o os e n r.1)

-- A part that lies within the first of two appended lists.
part-append :
    (s n : ℕ) (xs ys : List ℕ) → s + n ≤ length xs → take n (drop s (xs ++ ys)) ≡ take n (drop s xs)
part-append s n xs ys h =
    ap (take n) (drop-append_le s xs ys (omega arith))
    ∙ take-append_le n (drop s xs) ys (omega (arith, length-drop s xs))

-- Bytes appended behind the last offset, with their end as a new offset, are one block more.
pub blocks_of-snoc :
    (s : ℕ) (os : List ℕ) (bytes more : List ℕ)
    → Rises s os (length bytes)
    → blocks_of s (os ++ (length bytes + length more) ∷ []) (bytes ++ more)
      ≡ blocks_of s os bytes ++ more ∷ []
unfolding blocks_of
blocks_of-snoc s [] bytes more r =
    ap (λ b. b ∷ [])
      (ap₂ take {x = length bytes + length more - s} {y = length more} (omega arith)
          (ap (λ k. drop k (bytes ++ more)) r ∙ drop-append_length bytes more)
        ∙ take_all (length more) more (omega arith))
blocks_of-snoc s (o ∷ os) bytes more r =
    ap₂ ◌∷◌ (part-append s (o - s) bytes more (omega (arith, Rises-le o os (length bytes) r.1)))
      (blocks_of-snoc o os bytes more r.1)

pub length-blocks_of : (s : ℕ) (os bytes : List ℕ) → length (blocks_of s os bytes) ≡ length os
unfolding blocks_of
length-blocks_of s [] bytes = refl
length-blocks_of s (o ∷ os) bytes = ap suc (length-blocks_of o os bytes)

-- The block that lies between two offsets, as Block computes it.
abbrev pub between : Option ℕ → Option ℕ → List ℕ → Option (List ℕ)
between none e bytes = none
between (some s) none bytes = none
between (some s) (some e) bytes = slice s e bytes

pub get_elem?-blocks_of :
    (s : ℕ) (os bytes : List ℕ) (n : ℕ)
    → Rises s os (length bytes)
    → between (get_elem? (s ∷ os) n) (get_elem? os n) bytes ≡ get_elem? (blocks_of s os bytes) n
unfolding blocks_of slice
get_elem?-blocks_of s [] bytes zero r = refl
get_elem?-blocks_of s [] bytes (suc n) r = ground arith
get_elem?-blocks_of s (o ∷ os) bytes zero r = ground (arith, Rises-le o os (length bytes) r.1)
get_elem?-blocks_of s (o ∷ os) bytes (suc n) r = get_elem?-blocks_of o os bytes n r.1
