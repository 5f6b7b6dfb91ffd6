-- ===== src/Analysis/Pool/Runs.antt =====
-- The pool of analysis/pool.go with the loops of its workers (analysis/worker.go): calls of
-- HandleEvents and rounds of the workers, in any order.
use memsniff.Model.{Event}
use memsniff.Analysis.Filter.{Filter, filter_events}
use memsniff.Analysis.Worker.{Worker, take_batch}
use memsniff.Analysis.Pool.{Pool, partition_events, deliver_all, handle_events}
use memsniff.Common.{
  ℕ, zero, suc, ◌+◌, ◌≡◌, List, [], ◌∷◌, ◌++◌, Option, none, some, arith, length, Option-cases, inl,
  inr,
}

-- A worker goes round its loop and takes the batch that waits first.
unfoldable pub round_at : List Worker → ℕ → List Worker
round_at [] i = []
round_at (w ∷ ws) zero = take_batch w ∷ ws
round_at (w ∷ ws) (suc i) = w ∷ round_at ws i

-- A call of HandleEvents, and a round of a worker.
pub data Action : Type 0 where
  handles : List Event → Action
  round : ℕ → Action

unfoldable pub step : Pool → Action → Option Pool
step p (handles evts) = handle_events p evts
step p (round i) = some (record p { workers = round_at p.workers i })

unfoldable pub runs : List Action → Pool → Option Pool
runs [] p = some p
runs (a ∷ acts) p = elim (step p a) [ none ↦ none | some q ↦ runs acts q ]

-- The events of the calls that pass a filter.
unfoldable pub passed : Filter → List Action → List Event
passed f [] = []
passed f (handles evts ∷ acts) = filter_events f evts ++ passed f acts
passed f (round i ∷ acts) = passed f acts

-- What HandleEvents makes of a pool with these batches.
abbrev delivered : Pool → List (List Event) → Pool
delivered p bs =
    let r = deliver_all p.workers bs in
    record p { workers = r.0; handled = p.handled + r.1; dropped = p.dropped + r.2 }

pub delivers :
    (p q : Pool) (evts : List Event)
    → handle_events p evts ≡ some q
    → (bs : List (List Event)) × (partition_events (length p.workers) (filter_events p.filter evts)
        ≡ some bs)
      × (delivered p bs ≡ q)
unfolding handle_events
delivers p q evts e =
    elim (Option-cases (partition_events (length p.workers) (filter_events p.filter evts))) [
      | inl n ↦ absurd (ground (arith, n, e))
      | inr (bs, h) ↦ (bs, h, ground (arith, h, e))
    ]
