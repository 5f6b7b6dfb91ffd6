-- ===== src/Hotlist.antt =====
-- hotlist/hotlist.go and hotlist/perfect.go: the items that occur most, by count and weight.
-- A Go map is a list of entries, one for each key; Go runs through it in any order.
pub mod Counts
pub mod Top
mod Tests
use mathlib.Core.Logic.{ite}
use memsniff.Sorting.{sort_by}
use memsniff.Word.{wrap, ◌*ℤ◌}
use memsniff.Common.{ℕ, ◌≡◌, List, [], ◌∷◌, ltb, if◌then◌else◌, length, take, ℤ, pos, ◌+ℤ◌}

-- itemCount; its `totalWeight` is computed where it is used.
pub record Entry (Item : Type 0) : Type 0 where
  pub item : Item
  pub count : ℤ

-- An Item with its Weight method and Go's comparison of map keys.
module _ {Item : Type 0} (same? : (a b : Item) → Dec (a ≡ b)) where
  -- `hl[x] += n`
  unfoldable pub add_n_weighted : List (Entry Item) → Item → ℤ → List (Entry Item)
  add_n_weighted [] x n = record { item = x; count = pos 0 +ℤ n } ∷ []
  add_n_weighted (e ∷ es) x n =
      let rest = add_n_weighted es x n in
      ite (same? e.item x) (record e { count = e.count +ℤ n } ∷ es) (e ∷ rest)

  unfoldable pub add_weighted : List (Entry Item) → Item → List (Entry Item)
  add_weighted hl x = add_n_weighted hl x (pos 1)

  -- `for _, x := range xs { hl.AddWeighted(x) }`
  unfoldable pub add_all : List (Entry Item) → List Item → List (Entry Item)
  add_all hl [] = hl
  add_all hl (x ∷ xs) = add_all (add_weighted hl x) xs

abbrev pub reset : {Item : Type 0} → List (Entry Item) → List (Entry Item)
reset hl = []

module _ {Item : Type 0} (weight : Item → ℤ) where
  abbrev pub total_weight : Entry Item → ℤ
  total_weight e = wrap (weight e.item *ℤ e.count)

  -- orderedTop, for a `k` that is not negative.
  unfoldable pub ordered_top : ℕ → List (Entry Item) → List (Entry Item)
  ordered_top k unordered =
      let n = if ltb (length unordered) k then length unordered else k in
      take n (sort_by total_weight unordered)

  unfoldable pub top : List (Entry Item) → ℕ → List (Entry Item)
  top hl k = ordered_top k hl
