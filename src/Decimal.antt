-- ===== src/Decimal.antt =====
-- strconv.Itoa, which capture/capture.go and presentation/termbox.go call.
use memsniff.Buffer.Reading.{Free}
use memsniff.Buffer.{contains}
use memsniff.Mctext.Text.{digits, codes, atoi, signed, in_range}
use memsniff.Common.{
  ℕ, zero, suc, ◌+◌, ◌/◌, ◌%◌, ◌≤◌, ◌<◌, ◌≡◌, ◌^◌, refl, sym, ap, ◌∙◌, false, List, [], ◌∷◌, some,
  arith, ltb, if◌then◌else◌, Bool-cases, inl, inr, ℤ, pos, negsuc,
}

-- The digits of a number in front of a text, on fuel.
unfoldable pub decimal : ℕ → ℕ → List ℕ → List ℕ
decimal zero n out = (48 + n % 10) ∷ out
decimal (suc fuel) n out =
    let rest = decimal fuel (n / 10) ((48 + n % 10) ∷ out) in
    if ltb n 10 then (48 + n % 10) ∷ out else rest

unfoldable pub itoa : ℤ → List ℕ
itoa (pos n) = decimal n n []
itoa (negsuc n) = b'-' ∷ decimal (suc n) (suc n) []

digits_one : (n : ℕ) (out : List ℕ) → n < 10 → digits 0 ((48 + n % 10) ∷ out) ≡ digits n out
unfolding digits
digits_one n out h = ground arith

digits_next : (n : ℕ) (out : List ℕ) → digits (n / 10) ((48 + n % 10) ∷ out) ≡ digits n out
unfolding digits
digits_next n out = ground arith

pub digits-decimal :
    (fuel n : ℕ) (out : List ℕ) → n ≤ fuel → digits 0 (decimal fuel n out) ≡ digits n out
unfolding decimal
digits-decimal zero n out h = digits_one n out (omega arith)
digits-decimal (suc fuel) n out h = elim (Bool-cases (ltb n 10)) [
  | inl e ↦ rw e (digits_one n out (ground arith))
  | inr e ↦
      rw e (digits-decimal fuel (n / 10) ((48 + n % 10) ∷ out) (ground arith) ∙ digits_next n out)
]

digit_free : (d : ℕ) → d < 10 → contains (codes " \n") (48 + d) ≡ false
unfolding contains
digit_free d h = ground arith

pub decimal-Free :
    (fuel n : ℕ) (out : List ℕ) → Free (codes " \n") out → Free (codes " \n") (decimal fuel n out)
unfolding decimal
decimal-Free zero n out f = (digit_free (n % 10) (omega arith), f)
decimal-Free (suc fuel) n out f = elim (Bool-cases (ltb n 10)) [
  | inl e ↦ rw e (digit_free (n % 10) (omega arith), f)
  | inr e ↦
      rw e (decimal-Free fuel (n / 10) ((48 + n % 10) ∷ out) (digit_free (n % 10) (omega arith), f))
]

decimal_first :
    (fuel n : ℕ) (out : List ℕ) → (c : ℕ) × (cs : List ℕ) × (decimal fuel n out ≡ c ∷ cs) × (48 ≤ c)
unfolding decimal
decimal_first zero n out = (48 + n % 10, out, refl, omega arith)
decimal_first (suc fuel) n out = elim (Bool-cases (ltb n 10)) [
  | inl e ↦ rw e (48 + n % 10, out, refl, omega arith)
  | inr e ↦ rw e (decimal_first fuel (n / 10) ((48 + n % 10) ∷ out))
]

atoi_unsigned :
    (c : ℕ) (cs : List ℕ) (n : ℕ)
    → 48 ≤ c
    → n < 2 ^ 63
    → digits 0 (c ∷ cs) ≡ some n
    → atoi (c ∷ cs) ≡ some (pos n)
unfolding atoi signed in_range
atoi_unsigned c cs n h lt d = ground (arith, d)

-- A number that fits an int is read back from its decimal text.
pub atoi-itoa : (n : ℕ) → n < 2 ^ 63 → atoi (itoa (pos n)) ≡ some (pos n)
unfolding itoa digits
atoi-itoa n h =
    let (c, cs, e, d) = decimal_first n n [] in
    let q : digits 0 (c ∷ cs) ≡ some n =
      ap (digits 0) (sym e) ∙ digits-decimal n n [] (omega arith) in
    ap atoi e ∙ atoi_unsigned c cs n d h q
