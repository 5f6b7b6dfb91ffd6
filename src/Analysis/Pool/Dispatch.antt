-- ===== src/Analysis/Pool/Dispatch.antt =====
-- HandleEvents of analysis/pool.go: the counts of its Stats.
use memsniff.Model.{Event}
use memsniff.Analysis.Filter.{filter_events}
use memsniff.Analysis.Worker.{Worker}
use memsniff.Analysis.Pool.{Pool, event_slot, partition_events, deliver, deliver_all, handle_events}
use memsniff.Partition.{Partitions, total_length}
use memsniff.Analysis.Pool.Spread.{partition_events-Partitions}
use memsniff.Common.{suc, ◌+◌, ◌<◌, ◌≡◌, refl, ap, List, [], ◌∷◌, Option, some, arith, length}

deliver_total : (w : Worker) (b : List Event) → (deliver w b).1 + (deliver w b).2 ≡ length b
unfolding deliver
deliver_total w [] = omega arith
deliver_total w (e ∷ es) = ground arith

pub length-deliver_all :
    (ws : List Worker) (bs : List (List Event)) → length (deliver_all ws bs).0 ≡ length ws
unfolding deliver_all
length-deliver_all [] bs = refl
length-deliver_all (w ∷ ws) [] = refl
length-deliver_all (w ∷ ws) (b ∷ bs) = ap suc (length-deliver_all ws bs)

deliver_all_total :
    (ws : List Worker) (bs : List (List Event))
    → length bs ≡ length ws
    → (deliver_all ws bs).1 + (deliver_all ws bs).2 ≡ total_length bs
unfolding deliver_all total_length
deliver_all_total [] [] h = omega arith
deliver_all_total [] (b ∷ bs) h = absurd (omega arith)
deliver_all_total (w ∷ ws) [] h = absurd (omega arith)
deliver_all_total (w ∷ ws) (b ∷ bs) h =
    omega (arith, deliver_total w b, deliver_all_total ws bs (omega arith))

pub record Handles (p : Pool) (evts : List Event) (r : Option Pool) : Type 0 where
  pub after : Pool
  pub returned : r ≡ some after
  pub counted :
      after.handled + after.dropped ≡ p.handled + p.dropped + length (filter_events p.filter evts)
  pub same_workers : length after.workers ≡ length p.workers
  pub same_filter : after.filter ≡ p.filter

-- HandleEvents on a pool with a worker raises no panic, and every event that passes the filter
-- is counted exactly once, as handled or as dropped; the number of workers and the filter stay
-- the same.
pub handle_events-Handles :
    (p : Pool) (evts : List Event) → 0 < length p.workers → Handles p evts (handle_events p evts)
unfolding handle_events
handle_events-Handles p evts h =
    let r = deliver_all p.workers s.batches in
    record {
      after = record p { workers = r.0; handled = p.handled + r.1; dropped = p.dropped + r.2 };
      returned = rw (s.found, handle_events) refl;
      counted = omega (arith, deliver_all_total p.workers s.batches s.one_each, s.total);
      same_workers = length-deliver_all p.workers s.batches;
      same_filter = refl;
    }
  where
    s :
        Partitions
          (event_slot (length p.workers))
          (length p.workers)
          (filter_events p.filter evts)
          (partition_events (length p.workers) (filter_events p.filter evts))
    s = partition_events-Partitions (length p.workers) (filter_events p.filter evts) h
