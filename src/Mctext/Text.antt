-- ===== src/Mctext/Text.antt =====
-- The parts of Go's bytes, regexp and strconv packages that protocol/mctext/consumer.go calls.
use Prim.Native.Char.{code}
use Prim.Native.String.{String}
use memsniff.Buffer.{contains}
use memsniff.Common.{
  ℕ, ◌+◌, ◌-◌, ◌*◌, ◌^◌, Bool, true, false, ◌&&◌, ◌||◌, List, [], ◌∷◌, Option, none, some, ltb, leb,
  ◌==◌, if◌then◌else◌, ℤ, pos, negsuc,
}

-- The bytes of an ASCII text.
abbrev pub codes : String → List ℕ
codes String.[] = []
codes (String.◌∷◌ c s) = code c ∷ codes s

-- bytes.Equal
unfoldable pub equal : List ℕ → List ℕ → Bool
equal [] [] = true
equal [] (d ∷ ds) = false
equal (c ∷ cs) [] = false
equal (c ∷ cs) (d ∷ ds) = c == d && equal cs ds

-- bytes.TrimRight: a byte of the cutset goes if all behind it has gone.
unfoldable pub trim_right : List ℕ → List ℕ → List ℕ
trim_right cutset [] = []
trim_right cutset (c ∷ cs) = elim (trim_right cutset cs) [
  | [] ↦ if contains cutset c then [] else c ∷ []
  | d ∷ ds ↦ c ∷ d ∷ ds
]

-- bytes.Split by one separator byte: the current field, then the others.
unfoldable pub split : ℕ → List ℕ → List (List ℕ)
split sep [] = [] ∷ []
split sep (c ∷ cs) =
    if c == sep
    then [] ∷ split sep cs
    else elim (split sep cs) [ [] ↦ (c ∷ []) ∷ [] | field ∷ fields ↦ (c ∷ field) ∷ fields ]

abbrev is_letter : ℕ → Bool
is_letter c = (leb b'a' c && leb c b'z') || (leb b'A' c && leb c b'Z')

unfoldable pub all_letters : List ℕ → Bool
all_letters [] = true
all_letters (c ∷ cs) = is_letter c && all_letters cs

-- The match of ^[a-zA-Z]+$.
unfoldable pub ascii_word : List ℕ → Bool
ascii_word [] = false
ascii_word (c ∷ cs) = all_letters (c ∷ cs)

-- The value of decimal digits behind `acc`; `none` at any other byte.
unfoldable pub digits : ℕ → List ℕ → Option ℕ
digits acc [] = some acc
digits acc (c ∷ cs) = if leb b'0' c && leb c b'9' then digits (acc * 10 + (c - 48)) cs else none

-- strconv's range check for a 64-bit int.
unfoldable pub in_range : Bool → ℕ → Option ℤ
in_range true n =
    if ltb (2 ^ 63) n then none else if n == 0 then some (pos 0) else some (negsuc (n - 1))
in_range false n = if ltb n (2 ^ 63) then some (pos n) else none

unfoldable pub signed : Bool → List ℕ → Option ℤ
signed negative [] = none
signed negative (c ∷ cs) = elim (digits 0 (c ∷ cs)) [ none ↦ none | some n ↦ in_range negative n ]

-- strconv.Atoi; `none` is a syntax or a range error.
unfoldable pub atoi : List ℕ → Option ℤ
atoi [] = none
atoi (c ∷ cs) =
    if c == b'-'
    then signed true cs
    else if c == b'+'
    then signed false cs
    else signed false (c ∷ cs)
