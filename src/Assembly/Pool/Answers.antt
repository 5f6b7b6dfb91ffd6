-- ===== src/Assembly/Pool/Answers.antt =====
-- What an answer of a worker of assembly/worker.go does to the calls of HandlePackets.
use memsniff.Assembly.Pool.{Call, answer}
use memsniff.Common.{
  ℕ, zero, suc, ◌+◌, ◌<◌, ◌≡◌, refl, ap, List, [], ◌∷◌, ◌++◌, some, arith, ◌==◌, if◌then◌else◌,
  length, get_elem?,
}

pub length-answer : (cs : List Call) (k : ℕ) → length (answer cs k) ≡ length cs
unfolding answer
length-answer [] k = refl
length-answer (c ∷ cs) zero = refl
length-answer (c ∷ cs) (suc k) = ap suc (length-answer cs k)

-- How the calls of an earlier pool stand later on.
abbrev pub Goes : List Call → List Call → (ℕ → ℕ) → Type 0
Goes cs ds more =
    (j : ℕ) (c : Call)
    → get_elem? cs j ≡ some c
    → get_elem? ds j ≡ some (record c { done = c.done + more j })

pub get-answer : (cs : List Call) (k : ℕ) → Goes cs (answer cs k) (λ j. if k == j then 1 else 0)
unfolding answer
get-answer [] k j c e = absurd (ground arith)
get-answer (c ∷ cs) zero zero d e = ground arith
get-answer (c ∷ cs) zero (suc j) d e = ground arith
get-answer (c ∷ cs) (suc k) zero d e = ground arith
get-answer (c ∷ cs) (suc k) (suc j) d e = ground (arith, get-answer cs k j d)

pub get-snoc :
    (cs : List Call) (d : Call) (j : ℕ)
    → (j < length cs → get_elem? (cs ++ d ∷ []) j ≡ get_elem? cs j)
      × (j ≡ length cs → get_elem? (cs ++ d ∷ []) j ≡ some d)
get-snoc [] d zero = ((λ h. absurd (omega arith)), (λ h. refl))
get-snoc [] d (suc j) = ((λ h. absurd (omega arith)), (λ h. absurd (omega arith)))
get-snoc (c ∷ cs) d zero = ((λ h. refl), (λ h. absurd (omega arith)))
get-snoc (c ∷ cs) d (suc j) =
    ((λ h. (get-snoc cs d j).0 (omega arith)), (λ h. (get-snoc cs d j).1 (omega arith)))

pub get_some : (cs : List Call) (j : ℕ) → j < length cs → (c : Call) × (get_elem? cs j ≡ some c)
get_some [] j h = absurd (omega arith)
get_some (c ∷ cs) zero h = (c, refl)
get_some (c ∷ cs) (suc j) h = get_some cs j (omega arith)

pub get_none : (cs : List Call) (j : ℕ) (c : Call) → get_elem? cs j ≡ some c → j < length cs
get_none [] j c e = absurd (ground arith)
get_none (d ∷ cs) zero c e = omega arith
get_none (d ∷ cs) (suc j) c e = omega (arith, get_none cs j c e)
