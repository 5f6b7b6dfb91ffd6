-- ===== src/Analysis/Filter.antt =====
-- analysis/filter.go: the events whose key matches a pattern.
use memsniff.Model.{Event}
use memsniff.Common.{ℕ, Bool, true, false, List, [], ◌∷◌, Option, none, some, if◌then◌else◌}

-- A compiled regular expression, by its MatchString.
abbrev pub Regex : Type 0
Regex = List ℕ → Bool

-- The field `r`: `none` is nil.
abbrev pub Filter : Type 0
Filter = Option Regex

unfoldable pub matching : Regex → List Event → List Event
matching re [] = []
matching re (e ∷ es) = let rest = matching re es in if re e.key then e ∷ rest else rest

unfoldable pub filter_events : Filter → List Event → List Event
filter_events none rs = rs
filter_events (some re) rs = matching re rs

abbrev pub is_empty : List ℕ → Bool
is_empty [] = true
is_empty (c ∷ cs) = false

-- setPattern; `compile` is regexp.Compile, and the result is false where it fails.
unfoldable pub set_pattern : (List ℕ → Option Regex) → Filter → List ℕ → Filter × Bool
set_pattern compile f pattern =
    if is_empty pattern
    then (none, true)
    else elim (compile pattern) [ none ↦ (f, false) | some re ↦ (some re, true) ]
