-- ===== src/Hotlist/Top.antt =====
-- orderedTop of hotlist/hotlist.go: the heaviest entries, in order.
use mathlib.Core.List.{Perm}
use memsniff.Sorting.{Descends, sort_by, sort_by-Descends, sort_by-perm, length-sort_by}
use memsniff.Hotlist.{Entry, total_weight, ordered_top}
use memsniff.Common.{
  ℕ, min, ◌≡◌, sym, subst, List, ◌++◌, arith, length, drop, ℤ, ltb, take-append-drop, length-take,
  if◌then◌else◌,
}

-- `r` lists `k` entries of `hl`, or all if there are fewer, by falling total weight, and no entry
-- that is left out is heavier than one of them.
pub record IsTop {Item : Type 0} (weight : Item → ℤ) (k : ℕ) (hl r : List (Entry Item))
    : Type 0 where
  pub left_out : List (Entry Item)
  pub permuted : Perm (r ++ left_out) hl
  pub ordered : Descends (total_weight weight) (r ++ left_out)
  pub counted : length r ≡ min k (length hl)

module _ {Item : Type 0} (weight : Item → ℤ) where
  -- orderedTop returns k of the entries, or all if there are fewer, by falling total weight,
  -- and no entry that it leaves out is heavier than one that it returns.
  pub ordered_top-IsTop :
      (k : ℕ) (hl : List (Entry Item)) → IsTop weight k hl (ordered_top weight k hl)
  unfolding ordered_top
  ordered_top-IsTop k hl =
      let n = if ltb (length hl) k then length hl else k in
      let sorted = sort_by (total_weight weight) hl in
      let whole = take-append-drop n sorted in
      record {
        left_out = drop n sorted;
        permuted = subst (λ es. Perm es hl) (sym whole) (sort_by-perm (total_weight weight) hl);
        ordered =
            subst (Descends (total_weight weight)) (sym whole)
              (sort_by-Descends (total_weight weight) hl);
        counted = ground (arith, length-take n sorted, length-sort_by (total_weight weight) hl);
      }
