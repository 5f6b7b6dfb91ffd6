-- ===== src/Sorting.antt =====
-- sort.Sort by falling weight, as hotlist/hotlist.go and analysis/report.go call it. Go leaves the
-- order of equal weights open; here the later one comes first.
use mathlib.Core.List.{Perm}
use mathlib.Core.List.Perm
use memsniff.Common.{
  ◌+◌, ◌≤◌, ◌≡◌, refl, List, [], ◌∷◌, arith, if◌then◌else◌, ℤ, pos_part, neg_part, ltb_ℤ,
  Bool-cases, inl, inr, length, suc, ap, ◌∙◌,
}

infix 50 ◌≤ℤ◌
abbrev pub ◌≤ℤ◌ : ℤ → ℤ → Type 0
a ≤ℤ b = pos_part a + neg_part b ≤ pos_part b + neg_part a

module _ {A : Type 0} (weight : A → ℤ) where
  unfoldable pub insert_by : A → List A → List A
  insert_by x [] = x ∷ []
  insert_by x (y ∷ ys) =
      let rest = insert_by x ys in if ltb_ℤ (weight y) (weight x) then x ∷ y ∷ ys else y ∷ rest

  unfoldable pub sort_by : List A → List A
  sort_by [] = []
  sort_by (x ∷ xs) = insert_by x (sort_by xs)

  -- No weight is above `m`.
  abbrev pub AtMost : ℤ → List A → Type 0
  AtMost m [] = Unit
  AtMost m (y ∷ ys) = (weight y ≤ℤ m) × AtMost m ys

  abbrev pub Descends : List A → Type 0
  Descends [] = Unit
  Descends (x ∷ xs) = AtMost (weight x) xs × Descends xs

  AtMost-weaken : (m n : ℤ) (ys : List A) → m ≤ℤ n → AtMost m ys → AtMost n ys
  AtMost-weaken m n [] h a = tt
  AtMost-weaken m n (y ∷ ys) h a = (omega (arith, a.0), AtMost-weaken m n ys h a.1)

  insert_by-AtMost :
      (m : ℤ) (x : A) (ys : List A) → weight x ≤ℤ m → AtMost m ys → AtMost m (insert_by x ys)
  unfolding insert_by
  insert_by-AtMost m x [] h a = (h, tt)
  insert_by-AtMost m x (y ∷ ys) h a = elim (Bool-cases (ltb_ℤ (weight y) (weight x))) [
    | inl e ↦ rw (e, insert_by) (h, a)
    | inr e ↦ rw (e, insert_by) (a.0, insert_by-AtMost m x ys h a.1)
  ]

  insert_by-Descends : (x : A) (ys : List A) → Descends ys → Descends (insert_by x ys)
  unfolding insert_by
  insert_by-Descends x [] d = (tt, tt)
  insert_by-Descends x (y ∷ ys) d = elim (Bool-cases (ltb_ℤ (weight y) (weight x))) [
    | inl e ↦
        let le : weight y ≤ℤ weight x = ground arith in
        rw (e, insert_by) ((le, AtMost-weaken (weight y) (weight x) ys le d.0), d)
    | inr e ↦
        rw (e, insert_by)
          (insert_by-AtMost (weight y) x ys (ground arith) d.0, insert_by-Descends x ys d.1)
  ]

  insert_by-perm : (x : A) (ys : List A) → Perm (insert_by x ys) (x ∷ ys)
  unfolding insert_by
  insert_by-perm x [] = Perm.rfl
  insert_by-perm x (y ∷ ys) = elim (Bool-cases (ltb_ℤ (weight y) (weight x))) [
    | inl e ↦ rw (e, insert_by) Perm.rfl
    | inr e ↦ rw (e, insert_by) (Perm.trans (Perm.cons y (insert_by-perm x ys)) (Perm.swap x y ys))
  ]

  pub sort_by-Descends : (xs : List A) → Descends (sort_by xs)
  unfolding sort_by
  sort_by-Descends [] = tt
  sort_by-Descends (x ∷ xs) = insert_by-Descends x (sort_by xs) (sort_by-Descends xs)

  pub sort_by-perm : (xs : List A) → Perm (sort_by xs) xs
  unfolding sort_by
  sort_by-perm [] = Perm.rfl
  sort_by-perm (x ∷ xs) = Perm.trans (insert_by-perm x (sort_by xs)) (Perm.cons x (sort_by-perm xs))

  length-insert_by : (x : A) (ys : List A) → length (insert_by x ys) ≡ suc (length ys)
  unfolding insert_by
  length-insert_by x [] = refl
  length-insert_by x (y ∷ ys) = ground (arith, length-insert_by x ys)

  pub length-sort_by : (xs : List A) → length (sort_by xs) ≡ length xs
  unfolding sort_by
  length-sort_by [] = refl
  length-sort_by (x ∷ xs) = length-insert_by x (sort_by xs) ∙ ap suc (length-sort_by xs)
