-- ===== src/Hotlist/Counts.antt =====
-- What a perfect hotlist (hotlist/perfect.go) counts.
use mathlib.Core.Logic.{ite, if_pos, if_neg}
use memsniff.Hotlist.{Entry, add_n_weighted, add_weighted, add_all}
use memsniff.Common.{
  ℕ, suc, ◌+◌, ◌≡◌, ◌≢◌, refl, sym, ap, ◌∙◌, List, [], ◌∷◌, ◌++◌, arith, ℤ, pos, negsuc, ◌+ℤ◌,
}

pub ℤ-add_zero : (a : ℤ) → a ≡ a +ℤ pos 0
ℤ-add_zero (pos n) = ground arith
ℤ-add_zero (negsuc n) = ground arith

ℤ-shift : (a : ℤ) (m : ℕ) → (a +ℤ pos 1) +ℤ pos m ≡ a +ℤ pos (suc m)
ℤ-shift (pos n) m = ground arith
ℤ-shift (negsuc n) m = ground arith

pub ℤ-add : (a : ℤ) (m n : ℕ) → (a +ℤ pos m) +ℤ pos n ≡ a +ℤ pos (m + n)
ℤ-add (pos k) m n = ground arith
ℤ-add (negsuc k) m n = ground arith

module _ {Item : Type 0} (same? : (a b : Item) → Dec (a ≡ b)) where
  -- `hl[x]`, which is 0 for a key that is missing.
  unfoldable pub count_of : List (Entry Item) → Item → ℤ
  count_of [] x = pos 0
  count_of (e ∷ es) x = let rest = count_of es x in ite (same? e.item x) e.count rest

  -- How often `x` stands in a list.
  unfoldable pub occurrences : List Item → Item → ℕ
  occurrences [] x = 0
  occurrences (y ∷ ys) x = let rest = occurrences ys x in ite (same? y x) (suc rest) rest

  -- `x` is the key of no entry.
  abbrev pub Fresh : Item → List (Entry Item) → Type 0
  Fresh x [] = Unit
  Fresh x (e ∷ es) = (e.item ≢ x) × Fresh x es

  -- No two entries have one key.
  abbrev pub IsKeyed : List (Entry Item) → Type 0
  IsKeyed [] = Unit
  IsKeyed (e ∷ es) = Fresh e.item es × IsKeyed es

  add_n_weighted-Fresh :
      (x y : Item) (n : ℤ) (hl : List (Entry Item))
      → x ≢ y
      → Fresh y hl
      → Fresh y (add_n_weighted same? hl x n)
  unfolding add_n_weighted
  add_n_weighted-Fresh x y n [] d f = (d, tt)
  add_n_weighted-Fresh x y n (e ∷ es) d f = elim (same? e.item x) [
    | yes p ↦ rw (if_pos, p, add_n_weighted) f
    | no p ↦ rw (if_neg, p, add_n_weighted) (f.0, add_n_weighted-Fresh x y n es d f.1)
  ]

  pub add_n_weighted-IsKeyed :
      (hl : List (Entry Item)) (x : Item) (n : ℤ)
      → IsKeyed hl
      → IsKeyed (add_n_weighted same? hl x n)
  unfolding add_n_weighted
  add_n_weighted-IsKeyed [] x n k = (tt, tt)
  add_n_weighted-IsKeyed (e ∷ es) x n k = elim (same? e.item x) [
    | yes p ↦ rw (if_pos, p, add_n_weighted) k
    | no d ↦
        rw (if_neg, d, add_n_weighted)
          (
            add_n_weighted-Fresh x e.item n es (λ q. d (sym q)) k.0,
            add_n_weighted-IsKeyed es x n k.1,
          )
  ]

  add_here :
      (e : Entry Item) (es : List (Entry Item)) (x : Item) (n : ℤ)
      → e.item ≡ x
      → add_n_weighted same? (e ∷ es) x n ≡ record e { count = e.count +ℤ n } ∷ es
  unfolding add_n_weighted
  add_here e es x n p = if_pos (same? e.item x) p _ _

  add_there :
      (e : Entry Item) (es : List (Entry Item)) (x : Item) (n : ℤ)
      → e.item ≢ x
      → add_n_weighted same? (e ∷ es) x n ≡ e ∷ add_n_weighted same? es x n
  unfolding add_n_weighted
  add_there e es x n d = if_neg (same? e.item x) d _ _

  count_here :
      (e : Entry Item) (es : List (Entry Item)) (x : Item)
      → e.item ≡ x
      → count_of (e ∷ es) x ≡ e.count
  unfolding count_of
  count_here e es x p = if_pos (same? e.item x) p _ _

  count_there :
      (e : Entry Item) (es : List (Entry Item)) (x : Item)
      → e.item ≢ x
      → count_of (e ∷ es) x ≡ count_of es x
  unfolding count_of
  count_there e es x d = if_neg (same? e.item x) d _ _

  count_of-add_n_weighted_same :
      (hl : List (Entry Item)) (x : Item) (n : ℤ)
      → count_of (add_n_weighted same? hl x n) x ≡ count_of hl x +ℤ n
  unfolding add_n_weighted count_of
  count_of-add_n_weighted_same [] x n =
      count_here (record { item = x; count = pos 0 +ℤ n }) [] x refl
  count_of-add_n_weighted_same (e ∷ es) x n = elim (same? e.item x) [
    | yes p ↦
        rw
          (
            add_here e es x n p,
            count_here e es x p,
            count_here (record e { count = e.count +ℤ n }) es x p,
          )
          refl
    | no d ↦
        rw
          (
            add_there e es x n d,
            count_there e es x d,
            count_there e (add_n_weighted same? es x n) x d,
          )
          (count_of-add_n_weighted_same es x n)
  ]

  count_of-add_n_weighted_other :
      (hl : List (Entry Item)) (x y : Item) (n : ℤ)
      → x ≢ y
      → count_of (add_n_weighted same? hl x n) y ≡ count_of hl y
  unfolding add_n_weighted count_of
  count_of-add_n_weighted_other [] x y n d =
      count_there (record { item = x; count = pos 0 +ℤ n }) [] y d
  count_of-add_n_weighted_other (e ∷ es) x y n d = elim (same? e.item x) [
    | yes p ↦
        let q : e.item ≢ y = λ r. d (sym p ∙ r) in
        rw
          (
            add_here e es x n p,
            count_there e es y q,
            count_there (record e { count = e.count +ℤ n }) es y q,
          )
          refl
    | no q ↦ rw (add_there e es x n q) (elim (same? e.item y) [
      | yes r ↦ rw (count_here e es y r, count_here e (add_n_weighted same? es x n) y r) refl
      | no r ↦
          rw (count_there e es y r, count_there e (add_n_weighted same? es x n) y r)
            (count_of-add_n_weighted_other es x y n d)
    ])
  ]

  -- After AddWeighted of each item of a list to a perfect hotlist, the count of any item is
  -- higher by the number of its occurrences in the list.
  pub count_of-add_all :
      (xs : List Item) (hl : List (Entry Item)) (x : Item)
      → count_of (add_all same? hl xs) x ≡ count_of hl x +ℤ pos (occurrences xs x)
  unfolding add_all add_weighted occurrences
  count_of-add_all [] hl x = ℤ-add_zero (count_of hl x)
  count_of-add_all (y ∷ ys) hl x = elim (same? y x) [
    | yes p ↦
        count_of-add_all ys (add_weighted same? hl y) x
        ∙ ap (λ c. c +ℤ pos (occurrences ys x))
            (ap (λ z. count_of (add_n_weighted same? hl z (pos 1)) x) p
              ∙ count_of-add_n_weighted_same hl x (pos 1))
        ∙ ℤ-shift (count_of hl x) (occurrences ys x)
        ∙ ap (λ m. count_of hl x +ℤ pos m) (sym (if_pos (same? y x) p _ _))
    | no d ↦
        count_of-add_all ys (add_weighted same? hl y) x
        ∙ ap (λ c. c +ℤ pos (occurrences ys x)) (count_of-add_n_weighted_other hl y x (pos 1) d)
        ∙ ap (λ m. count_of hl x +ℤ pos m) (sym (if_neg (same? y x) d _ _))
  ]

  pub add_all-IsKeyed :
      (xs : List Item) (hl : List (Entry Item)) → IsKeyed hl → IsKeyed (add_all same? hl xs)
  unfolding add_all add_weighted
  add_all-IsKeyed [] hl k = k
  add_all-IsKeyed (x ∷ xs) hl k = add_all-IsKeyed xs _ (add_n_weighted-IsKeyed hl x (pos 1) k)

  pub occurrences-append :
      (xs ys : List Item) (x : Item)
      → occurrences (xs ++ ys) x ≡ occurrences xs x + occurrences ys x
  unfolding occurrences
  occurrences-append [] ys x = omega arith
  occurrences-append (y ∷ xs) ys x = elim (same? y x) [
    | yes p ↦ omega (
      arith,
      if_pos (same? y x) p (suc (occurrences (xs ++ ys) x)) (occurrences (xs ++ ys) x),
      if_pos (same? y x) p (suc (occurrences xs x)) (occurrences xs x),
      occurrences-append xs ys x,
    )
    | no d ↦ omega (
      arith,
      if_neg (same? y x) d (suc (occurrences (xs ++ ys) x)) (occurrences (xs ++ ys) x),
      if_neg (same? y x) d (suc (occurrences xs x)) (occurrences xs x),
      occurrences-append xs ys x,
    )
  ]
