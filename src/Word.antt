-- ===== src/Word.antt =====
-- Go's 64-bit integers: a result that does not fit wraps round.
use memsniff.Common.{
  ℕ, zero, suc, ◌+◌, ◌-◌, ◌*◌, ◌/◌, ◌%◌, ◌^◌, ◌<◌, ◌≡◌, arith, ltb, ◌==◌, if◌then◌else◌, ℤ, pos,
  negsuc, pos_part, neg_part, sub_ℕ,
}

-- The int that an integer wraps round to.
unfoldable pub wrap : ℤ → ℤ
wrap (pos n) = let u = n % 2 ^ 64 in if ltb u (2 ^ 63) then pos u else negsuc (2 ^ 64 - 1 - u)
wrap (negsuc n) = let u = n % 2 ^ 64 in if ltb u (2 ^ 63) then negsuc u else pos (2 ^ 64 - 1 - u)

pub wrap_small : (n : ℕ) → n < 2 ^ 63 → wrap (pos n) ≡ pos n
unfolding wrap
wrap_small n h = ground arith

infixl 70 ◌*ℤ◌
abbrev pub ◌*ℤ◌ : ℤ → ℤ → ℤ
a *ℤ b =
    sub_ℕ (pos_part a * pos_part b + neg_part a * neg_part b)
      (pos_part a * neg_part b + neg_part a * pos_part b)

-- The exclusive or of the `k` low bits.
unfoldable pub xor_bits : ℕ → ℕ → ℕ → ℕ
xor_bits zero a b = 0
xor_bits (suc k) a b = 2 * xor_bits k (a / 2) (b / 2) + (if a % 2 == b % 2 then 0 else 1)

-- uint64 `a ^ b`.
abbrev pub xor : ℕ → ℕ → ℕ
xor a b = xor_bits 64 a b
