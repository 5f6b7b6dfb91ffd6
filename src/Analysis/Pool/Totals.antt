-- ===== src/Analysis/Pool/Totals.antt =====
-- Counts of keys across analysis/pool.go and analysis/worker.go, from HandleEvents to the hotlists.
use mathlib.Core.List.{map-append}
use native.Mathlib.Nat.{mod-lt}
use memsniff.Analysis.Pool.Dispatch.{length-deliver_all}
use memsniff.Model.{Event}
use memsniff.Partition.{of_worker}
use memsniff.Hotlist.Counts.{occurrences, occurrences-append, ℤ-add, ℤ-add_zero}
use memsniff.Analysis.Filter.{Filter, filter_events}
use memsniff.Analysis.Worker.{KeyInfo, Worker, same_info?, info, take_batch}
use memsniff.Analysis.Worker.Steps.{known, known-take_batch}
use memsniff.Analysis.Pool.{Pool, fnv, event_slot, key_slot, deliver, deliver_all, handle_events}
use memsniff.Analysis.Pool.Spread.{partition_events-Partitions}
use memsniff.Common.{
  ℕ, zero, suc, ◌%◌, ◌<◌, ◌≤◌, ◌≡◌, refl, sym, ap, ◌∙◌, subst, List, [], ◌∷◌, ◌++◌, map, some,
  arith, length, get_elem?, ◌==◌, Bool-cases, Option-cases, inl, inr, pos, ◌+ℤ◌,
}
use memsniff.Analysis.Pool.Delivered.{
  AreHits, deliver-known, deliver_all-get, own_occurrences, AreHits-of_worker, AreHits-append,
}
use memsniff.Analysis.Pool.Runs.{round_at, Action, handles, round, step, runs, passed, delivers}

some_workers : (n i : ℕ) (key : List ℕ) → key_slot n key ≡ some i → (0 < n) × (i < n)
unfolding key_slot
some_workers n i key s = elim (Bool-cases (n == 0)) [
  | inl z ↦ absurd (ground (arith, s, z))
  | inr nz ↦
      let pos_n : 0 < n = ground (arith, nz) in
      let e : fnv 14695981039346656037 key % n ≡ i = ground (arith, s, nz) in
      (pos_n, subst (λ m. m < n) e (mod-lt (fnv 14695981039346656037 key) pos_n))
]

-- What a worker knows of a keyInfo once the events of these calls have been dealt out.
pub record Knows (p q : Pool) (i : ℕ) (w : Worker) (x : KeyInfo) (es : List Event) : Type 0 where
  pub worker : Worker
  pub there : get_elem? q.workers i ≡ some worker
  pub more : known worker x ≡ known w x +ℤ pos (occurrences same_info? (map info es) x)
  pub same_filter : q.filter ≡ p.filter
  pub same_workers : length q.workers ≡ length p.workers

handled-Knows :
    (p q : Pool) (evts : List Event) (i : ℕ) (w : Worker) (x : KeyInfo)
    → key_slot (length p.workers) x.name ≡ some i
    → get_elem? p.workers i ≡ some w
    → AreHits (filter_events p.filter evts)
    → handle_events p evts ≡ some q
    → q.dropped ≡ p.dropped
    → Knows p q i w x (filter_events p.filter evts)
handled-Knows p q evts i w x s g h e d =
    let n = length p.workers in
    let es = filter_events p.filter evts in
    let (some_n, lt) = some_workers n i x.name s in
    let part = partition_events-Partitions n es some_n in
    let (bs, f, same) = delivers p q evts e in
    let eq : part.batches ≡ bs = ground (arith, sym part.found ∙ f) in
    let at : get_elem? bs i ≡ some (of_worker (event_slot n) i es) =
      subst (λ b. get_elem? b i ≡ some (of_worker (event_slot n) i es)) eq (part.at_worker i lt) in
    let none_lost : (deliver_all p.workers bs).2 ≡ 0 =
      omega (arith, d, ap (λ (u : Pool). u.dropped) same) in
    let own = of_worker (event_slot n) i es in
    let (here, kept) = deliver_all-get p.workers bs i w own g at none_lost in
    record {
      worker = (deliver w own).0;
      there = subst (λ u. get_elem? u.workers i ≡ some (deliver w own).0) same here;
      more =
          deliver-known w own x (AreHits-of_worker (event_slot n) i es h) kept
          ∙ ap (λ m. known w x +ℤ pos m) (own_occurrences n i x es s);
      same_filter = ap (λ (u : Pool). u.filter) (sym same);
      same_workers =
          ap (λ (u : Pool). length u.workers) (sym same) ∙ length-deliver_all p.workers bs;
    }

length-round_at : (ws : List Worker) (i : ℕ) → length (round_at ws i) ≡ length ws
unfolding round_at
length-round_at [] i = refl
length-round_at (w ∷ ws) zero = refl
length-round_at (w ∷ ws) (suc i) = ap suc (length-round_at ws i)

round_at-known :
    (ws : List Worker) (i j : ℕ) (w : Worker) (x : KeyInfo)
    → get_elem? ws j ≡ some w
    → (v : Worker) × (get_elem? (round_at ws i) j ≡ some v) × (known v x ≡ known w x)
unfolding round_at
round_at-known [] i j w x g = absurd (ground (arith, g))
round_at-known (u ∷ ws) zero zero w x g = (
  take_batch u,
  refl,
  known-take_batch u x ∙ ap (λ v. known v x) {x = u} {y = w} (ground (arith, g)),
)
round_at-known (u ∷ ws) zero (suc j) w x g = (w, g, refl)
round_at-known (u ∷ ws) (suc i) zero w x g = (w, g, refl)
round_at-known (u ∷ ws) (suc i) (suc j) w x g = round_at-known ws i j w x g

step-dropped : (a : Action) (p q : Pool) → step p a ≡ some q → p.dropped ≤ q.dropped
unfolding step
step-dropped (handles evts) p q e =
    let (bs, f, same) = delivers p q evts e in omega (arith, ap (λ (u : Pool). u.dropped) same)
step-dropped (round i) p q e =
    let same : record p { workers = round_at p.workers i } ≡ q = ground (arith, e) in
    omega (arith, ap (λ (u : Pool). u.dropped) same)

runs-first :
    (a : Action) (acts : List Action) (p q : Pool)
    → runs (a ∷ acts) p ≡ some q
    → (m : Pool) × (step p a ≡ some m) × (runs acts m ≡ some q)
unfolding runs
runs-first a acts p q e = elim (Option-cases (step p a)) [
  | inl n ↦ absurd (ground (arith, n, e))
  | inr (m, h) ↦ (m, h, ground (arith, h, e))
]

runs-dropped : (acts : List Action) (p q : Pool) → runs acts p ≡ some q → p.dropped ≤ q.dropped
unfolding runs
runs-dropped [] p q e =
    let same : p ≡ q = ground (arith, e) in omega (arith, ap (λ (u : Pool). u.dropped) same)
runs-dropped (a ∷ acts) p q e =
    let (m, h, r) = runs-first a acts p q e in
    omega (arith, step-dropped a p m h, runs-dropped acts m q r)

-- One call or round, and the ones behind it.
known-then :
    (p m q : Pool) (i : ℕ) (w : Worker) (x : KeyInfo) (es fs : List Event)
    → (a : Knows p m i w x es) → Knows m q i a.worker x fs
    → Knows p q i w x (es ++ fs)
known-then p m q i w x es fs a b = record {
  worker = b.worker;
  there = b.there;
  more =
      b.more
      ∙ ap (λ k. k +ℤ pos (occurrences same_info? (map info fs) x)) a.more
      ∙ ℤ-add (known w x) (occurrences same_info? (map info es) x)
          (occurrences same_info? (map info fs) x)
      ∙ ap (λ n. known w x +ℤ pos n)
          (sym (occurrences-append same_info? (map info es) (map info fs) x)
            ∙ ap (λ ks. occurrences same_info? ks x) (sym (map-append info es fs)));
  same_filter = b.same_filter ∙ a.same_filter;
  same_workers = b.same_workers ∙ a.same_workers;
}

-- What one action lets pass.
abbrev passed_by : Filter → Action → List Event
passed_by f (handles evts) = filter_events f evts
passed_by f (round i) = []

step-Knows :
    (a : Action) (p q : Pool) (i : ℕ) (w : Worker) (x : KeyInfo)
    → key_slot (length p.workers) x.name ≡ some i
    → get_elem? p.workers i ≡ some w
    → AreHits (passed_by p.filter a)
    → step p a ≡ some q
    → q.dropped ≡ p.dropped
    → Knows p q i w x (passed_by p.filter a)
unfolding step
step-Knows (handles evts) p q i w x s g h e d = handled-Knows p q evts i w x s g h e d
step-Knows (round j) p q i w x s g h e d =
    let (v, t, k) = round_at-known p.workers j i w x g in
    let same : record p { workers = round_at p.workers j } ≡ q = ground (arith, e) in
    subst (λ u. Knows p u i w x []) same
      (record {
        worker = v;
        there = t;
        more = unfold occurrences in k ∙ ℤ-add_zero (known w x);
        same_filter = refl;
        same_workers = length-round_at p.workers j;
      })

passed-first :
    (f : Filter) (a : Action) (acts : List Action)
    → passed f (a ∷ acts) ≡ passed_by f a ++ passed f acts
unfolding passed
passed-first f (handles evts) acts = refl
passed-first f (round i) acts = refl

-- However calls of HandleEvents and rounds of the workers interleave, if the run ends with no
-- event dropped and every event that passed the filter is a hit, then what the worker of a key
-- has counted of that key and size, or will once it has taken what waits, is higher by exactly
-- the number of these events with that key and size; the filter and the number of workers stay
-- the same.
pub runs-Knows :
    (acts : List Action) (p q : Pool) (i : ℕ) (w : Worker) (x : KeyInfo)
    → key_slot (length p.workers) x.name ≡ some i
    → get_elem? p.workers i ≡ some w
    → AreHits (passed p.filter acts)
    → runs acts p ≡ some q
    → q.dropped ≡ p.dropped
    → Knows p q i w x (passed p.filter acts)
runs-Knows [] p q i w x s g h e d =
    let same : p ≡ q = unfold runs in ground (arith, e) in
    subst (λ u. Knows p u i w x (passed p.filter [])) same
      (record {
        worker = w;
        there = g;
        more = unfold passed occurrences in ℤ-add_zero (known w x);
        same_filter = refl;
        same_workers = refl;
      })
runs-Knows (a ∷ acts) p q i w x s g h e d =
    let (m, one, rest) = runs-first a acts p q e in
    let (hits, more_hits) =
      AreHits-append (passed_by p.filter a) (passed p.filter acts)
        (subst AreHits (passed-first p.filter a acts) h) in
    let le = step-dropped a p m one in
    let le2 = runs-dropped acts m q rest in
    let k = step-Knows a p m i w x s g hits one (omega (arith, d, le, le2)) in
    let f : m.filter ≡ p.filter = k.same_filter in
    let k2 =
      runs-Knows acts m q i k.worker x (ap (λ n. key_slot n x.name) k.same_workers ∙ s) k.there
        (subst (λ r. AreHits (passed r acts)) (sym f) more_hits) rest (omega (arith, d, le, le2)) in
    subst (Knows p q i w x) (sym (passed-first p.filter a acts)) (
      known-then p m q i w x (passed_by p.filter a) (passed p.filter acts) k
        (subst (λ r. Knows m q i k.worker x (passed r acts)) f k2))
