-- ===== src/Hotlist/Tests.antt =====
-- Runs of the hotlist on items that are numbers, each its own weight.
use native.Mathlib.Decide.{ℕ_discrete}
use memsniff.Hotlist.{Entry, add_all, ordered_top}
use memsniff.Hotlist.Counts.{count_of, occurrences, count_of-add_all}
use memsniff.Hotlist.Top.{IsTop, ordered_top-IsTop}
use memsniff.Common.{ℕ, ◌≡◌, List, [], ◌∷◌, ℤ, pos, ◌+ℤ◌}

abbrev weight : ℕ → ℤ
weight n = pos n

abbrev seen : List (Entry ℕ)
seen = record { item = 5; count = pos 2 } ∷ record { item = 7; count = pos 1 } ∷ []

count_of-add_all_example :
    count_of ℕ_discrete (add_all ℕ_discrete seen (7 ∷ 5 ∷ 7 ∷ [])) 7
    ≡ count_of ℕ_discrete seen 7 +ℤ pos (occurrences ℕ_discrete (7 ∷ 5 ∷ 7 ∷ []) 7)
count_of-add_all_example = count_of-add_all ℕ_discrete (7 ∷ 5 ∷ 7 ∷ []) seen 7

ordered_top-IsTop_example : IsTop weight 1 seen (ordered_top weight 1 seen)
ordered_top-IsTop_example = ordered_top-IsTop weight 1 seen
