-- ===== src/Common/Decide.antt =====
-- Equality of byte strings and integers, decided.
use native.Mathlib.Decide.{ℕ_discrete}
use native.Mathlib.Omega.{arith}
use Prim.Native.Nat.{ℕ}
use mathlib.Core.Path.{◌≡◌, refl, ap, ap₂}
use mathlib.Core.List.{List, [], ◌∷◌}
use memsniff.Common.Int.{ℤ, pos, negsuc}

pub head_eq : {x y : ℕ} {xs ys : List ℕ} → x ∷ xs ≡ y ∷ ys → x ≡ y
head_eq e = ground arith

pub tail_eq : {x y : ℕ} {xs ys : List ℕ} → x ∷ xs ≡ y ∷ ys → xs ≡ ys
tail_eq e = ground arith

pub pos_eq : {m n : ℕ} → pos m ≡ pos n → m ≡ n
pos_eq e = ground arith

pub negsuc_eq : {m n : ℕ} → negsuc m ≡ negsuc n → m ≡ n
negsuc_eq e = ground arith

unfoldable pub same_bytes? : (xs ys : List ℕ) → Dec (xs ≡ ys)
same_bytes? [] [] = yes refl
same_bytes? [] (y ∷ ys) = no (λ e. cc)
same_bytes? (x ∷ xs) [] = no (λ e. cc)
same_bytes? (x ∷ xs) (y ∷ ys) = elim (ℕ_discrete x y) [
  | no d ↦ no (λ e. d (head_eq e))
  | yes p ↦ elim (same_bytes? xs ys) [ no d ↦ no (λ e. d (tail_eq e)) | yes q ↦ yes (ap₂ ◌∷◌ p q) ]
]

unfoldable pub same_ℤ? : (a b : ℤ) → Dec (a ≡ b)
same_ℤ? (pos m) (pos n) = elim (ℕ_discrete m n) [
  | yes p ↦ yes (ap pos p)
  | no d ↦ no (λ e. d (pos_eq e))
]
same_ℤ? (pos m) (negsuc n) = no (λ e. cc)
same_ℤ? (negsuc m) (pos n) = no (λ e. cc)
same_ℤ? (negsuc m) (negsuc n) = elim (ℕ_discrete m n) [
  | yes p ↦ yes (ap negsuc p)
  | no d ↦ no (λ e. d (negsuc_eq e))
]
