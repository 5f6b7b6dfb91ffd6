-- ===== src/Partition.antt =====
-- Lists of a batch for each worker, which analysis/pool.go and assembly/pool.go both build, and what
-- is in them.
use memsniff.Common.{
  ℕ, zero, suc, ◌+◌, ◌<◌, ◌≡◌, refl, sym, ap, ◌∙◌, Bool, true, false, List, [], ◌∷◌, ◌++◌,
  append_assoc, append-nil, Option, none, some, arith, length, length-append, length-replicate,
  get_elem?, replicate, ◌==◌, if◌then◌else◌, Bool-cases, inl, inr, ◌⊎◌,
}

module _ {A : Type 0} where
  -- `perWorker[slot] = append(perWorker[slot], x)`
  unfoldable pub append_at : List (List A) → ℕ → A → List (List A)
  append_at [] slot x = []
  append_at (xs ∷ rest) zero x = (xs ++ x ∷ []) ∷ rest
  append_at (xs ∷ rest) (suc slot) x = xs ∷ append_at rest slot x

  unfoldable pub total_length : List (List A) → ℕ
  total_length [] = 0
  total_length (b ∷ bs) = length b + total_length bs

  append_at-get :
      (bs : List (List A)) (s i : ℕ) (x : A) (l : List A)
      → get_elem? bs i ≡ some l
      → get_elem? (append_at bs s x) i ≡ some (if s == i then l ++ x ∷ [] else l)
  unfolding append_at
  append_at-get [] s i x l h = absurd (ground arith)
  append_at-get (b ∷ bs) zero zero x l h = ground arith
  append_at-get (b ∷ bs) zero (suc i) x l h = ground arith
  append_at-get (b ∷ bs) (suc s) zero x l h = ground arith
  append_at-get (b ∷ bs) (suc s) (suc i) x l h = ground (arith, append_at-get bs s i x l h)

  length-append_at : (bs : List (List A)) (s : ℕ) (x : A) → length (append_at bs s x) ≡ length bs
  unfolding append_at
  length-append_at [] s x = refl
  length-append_at (b ∷ bs) zero x = refl
  length-append_at (b ∷ bs) (suc s) x = ap suc (length-append_at bs s x)

  total_length-append_at :
      (bs : List (List A)) (s : ℕ) (x : A)
      → s < length bs
      → total_length (append_at bs s x) ≡ suc (total_length bs)
  unfolding append_at total_length
  total_length-append_at [] s x h = absurd (omega arith)
  total_length-append_at (b ∷ bs) zero x h = omega (arith, length-append b (x ∷ []))
  total_length-append_at (b ∷ bs) (suc s) x h =
      omega (arith, total_length-append_at bs s x (omega arith))

  get-replicate : (n i : ℕ) → i < n → get_elem? (replicate {A = List A} n []) i ≡ some []
  get-replicate zero i h = absurd (omega arith)
  get-replicate (suc n) zero h = refl
  get-replicate (suc n) (suc i) h = get-replicate n i (omega arith)

total_length-replicate : (A : Type 0) (n : ℕ) → total_length (replicate {A = List A} n []) ≡ 0
unfolding total_length
total_length-replicate A zero = refl
total_length-replicate A (suc n) = omega (arith, total_length-replicate A n)

module _ {A : Type 0} (slot_of : A → Option ℕ) where
  -- The loop that puts each element behind the batch of its worker; `none` is a panic.
  unfoldable pub spread : List (List A) → List A → Option (List (List A))
  spread per_worker [] = some per_worker
  spread per_worker (x ∷ xs) = elim (slot_of x) [
    | none ↦ none
    | some slot ↦ spread (append_at per_worker slot x) xs
  ]

  -- Whether an element belongs to worker `i`.
  abbrev pub belongs : ℕ → A → Bool
  belongs i x = elim (slot_of x) [ none ↦ false | some s ↦ s == i ]

  -- The elements of worker `i`, in order.
  unfoldable pub of_worker : ℕ → List A → List A
  of_worker i [] = []
  of_worker i (x ∷ xs) = let rest = of_worker i xs in if belongs i x then x ∷ rest else rest

  pub record Spreads (acc : List (List A)) (es : List A) (r : Option (List (List A))) : Type 0 where
    pub batches : List (List A)
    pub found : r ≡ some batches
    pub one_each : length batches ≡ length acc
    pub at_worker :
        (i : ℕ) (l : List A)
        → get_elem? acc i ≡ some l
        → get_elem? batches i ≡ some (l ++ of_worker i es)
    pub total : total_length batches ≡ total_length acc + length es

  pub belongs_is : (i s : ℕ) (x : A) → slot_of x ≡ some s → belongs i x ≡ (s == i)
  belongs_is i s x k = ap (λ o. elim o [ none ↦ false | some t ↦ t == i ]) k

  of_worker_own :
      (i s : ℕ) (e : A) (es : List A)
      → slot_of e ≡ some s
      → (s == i) ≡ true
      → of_worker i (e ∷ es) ≡ e ∷ of_worker i es
  unfolding of_worker
  of_worker_own i s e es k h =
      ap (λ b. if b then e ∷ of_worker i es else of_worker i es) (belongs_is i s e k ∙ h)

  of_worker_other :
      (i s : ℕ) (e : A) (es : List A)
      → slot_of e ≡ some s
      → (s == i) ≡ false
      → of_worker i (e ∷ es) ≡ of_worker i es
  unfolding of_worker
  of_worker_other i s e es k h =
      ap (λ b. if b then e ∷ of_worker i es else of_worker i es) (belongs_is i s e k ∙ h)

  spread-one :
      (acc : List (List A)) (e : A) (es : List A) (s : ℕ)
      → slot_of e ≡ some s
      → s < length acc
      → Spreads (append_at acc s e) es (spread (append_at acc s e) es)
      → Spreads acc (e ∷ es) (spread acc (e ∷ es))
  unfolding spread of_worker
  spread-one acc e es s k h r = record {
    batches = r.batches;
    found = rw (k, spread) r.found;
    one_each = r.one_each ∙ length-append_at acc s e;
    at_worker = λ i l g.
        r.at_worker i (if s == i then l ++ e ∷ [] else l) (append_at-get acc s i e l g)
        ∙ ap some (moved i l (Bool-cases (s == i)));
    total = omega (arith, r.total, total_length-append_at acc s e h);
  }
    where
      moved :
          (i : ℕ) (l : List A)
          → ((s == i) ≡ true) ⊎ ((s == i) ≡ false)
          → (if s == i then l ++ e ∷ [] else l) ++ of_worker i es ≡ l ++ of_worker i (e ∷ es)
      moved i l (inl same) =
          rw (same, of_worker_own i s e es k same) (append_assoc l (e ∷ []) (of_worker i es))
      moved i l (inr other) = rw (other, of_worker_other i s e es k other) refl

  -- The slots of `n` workers.
  abbrev pub HasSlots : ℕ → Type 0
  HasSlots n = (x : A) → (s : ℕ) × (slot_of x ≡ some s) × (s < n)

  spread-Spreads :
      (n : ℕ) (es : List A) (acc : List (List A))
      → HasSlots n
      → length acc ≡ n
      → Spreads acc es (spread acc es)
  unfolding spread of_worker
  spread-Spreads n [] acc h c = record {
    batches = acc;
    found = refl;
    one_each = refl;
    at_worker = λ i l g. g ∙ ap some (sym (append-nil l));
    total = omega arith;
  }
  spread-Spreads n (e ∷ es) acc h c =
      let (s, k, lt) = h e in
      spread-one acc e es s k (omega (arith, lt, c))
        (spread-Spreads n es (append_at acc s e) h (length-append_at acc s e ∙ c))

  -- The batches of `n` workers.
  pub record Partitions (n : ℕ) (es : List A) (r : Option (List (List A))) : Type 0 where
    pub batches : List (List A)
    pub found : r ≡ some batches
    pub one_each : length batches ≡ n
    pub at_worker : (i : ℕ) → i < n → get_elem? batches i ≡ some (of_worker i es)
    pub total : total_length batches ≡ length es

  pub spread-Partitions :
      (n : ℕ) (es : List A) → HasSlots n → Partitions n es (spread (replicate n []) es)
  spread-Partitions n es h = record {
    batches = s.batches;
    found = s.found;
    one_each = s.one_each ∙ length-replicate n [];
    at_worker = λ i lt. s.at_worker i [] (get-replicate n i lt);
    total = omega (arith, s.total, total_length-replicate A n);
  }
    where
      s : Spreads (replicate n []) es (spread (replicate n []) es)
      s = spread-Spreads n es (replicate n []) h (length-replicate n [])
