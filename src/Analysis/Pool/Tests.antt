-- ===== src/Analysis/Pool/Tests.antt =====
-- Runs of analysis/pool.go and analysis/report.go on a pool of two workers.
use memsniff.Model.{Event, event_get_hit}
use memsniff.Analysis.Worker.{Worker}
use memsniff.Analysis.Pool.{Pool, fnv, key_slot, handle_events, report}
use memsniff.Analysis.Pool.Runs.{Action, handles, round, runs, passed}
use memsniff.Analysis.Pool.Delivered.{AreHits}
use memsniff.Analysis.Pool.Totals.{Knows, runs-Knows}
use memsniff.Analysis.Pool.Dispatch.{Handles, handle_events-Handles}
use memsniff.Analysis.Pool.Reports.{IsReport, report-IsReport}
use memsniff.Common.{some, ◌≡◌, refl, ℕ, true, List, [], ◌∷◌, none, arith, pos}

abbrev hit : ℕ → Event
hit c = record { type = event_get_hit; key = c ∷ []; size = pos c }

abbrev hits : List Event
hits = hit 1 ∷ hit 2 ∷ hit 1 ∷ []

-- A worker that has counted the key `c` `n` times.
abbrev counting : ℕ → ℕ → Worker
counting c n = record {
  hl = record { item = record { name = c ∷ []; size = pos c }; count = pos n } ∷ [];
  waiting = [];
}

abbrev pool : Pool
pool = record {
  report_size = 1;
  workers = counting 4 2 ∷ counting 9 7 ∷ [];
  filter = none;
  handled = 9;
  dropped = 0;
}

handle_events-Handles_example : Handles pool hits (handle_events pool hits)
handle_events-Handles_example = handle_events-Handles pool hits (omega arith)

report-IsReport_example : IsReport true pool (report pool true)
report-IsReport_example = report-IsReport pool true

-- Two calls, with a round of a worker between them.
abbrev acts : List Action
acts = handles hits ∷ round 0 ∷ round 1 ∷ handles (hit 1 ∷ hit 5 ∷ []) ∷ []

abbrev after : Pool
after = elim (runs acts pool) [ none ↦ pool | some q ↦ q ]

slot_of_one : key_slot 2 (1 ∷ []) ≡ some 0
unfolding key_slot fnv memsniff.Word.xor_bits
slot_of_one = refl

ran : runs acts pool ≡ some after
unfolding runs memsniff.Analysis.Pool.Runs.step handle_events
    memsniff.Analysis.Pool.partition_events memsniff.Partition.spread
    memsniff.Analysis.Filter.filter_events key_slot memsniff.Analysis.Pool.Runs.round_at
    memsniff.Analysis.Pool.deliver_all memsniff.Partition.append_at fnv memsniff.Word.xor_bits
ran = refl

none_dropped : after.dropped ≡ 0
unfolding runs memsniff.Analysis.Pool.Runs.step handle_events
    memsniff.Analysis.Pool.partition_events memsniff.Partition.spread
    memsniff.Analysis.Filter.filter_events key_slot memsniff.Analysis.Pool.Runs.round_at
    memsniff.Analysis.Pool.deliver_all memsniff.Partition.append_at fnv memsniff.Word.xor_bits
    memsniff.Analysis.Pool.deliver memsniff.Analysis.Worker.handle_events
    memsniff.Analysis.Worker.take_batch
none_dropped = refl

all_hits : AreHits (passed none acts)
unfolding passed memsniff.Analysis.Filter.filter_events
all_hits = (refl, (refl, (refl, (refl, (refl, tt)))))

-- The first worker counts the key 1, which came three times.
runs-Knows_example :
    Knows pool after 0 (counting 4 2) (record { name = 1 ∷ []; size = pos 1 }) (passed none acts)
runs-Knows_example =
    runs-Knows acts pool after 0 (counting 4 2) (record { name = 1 ∷ []; size = pos 1 }) slot_of_one
      refl all_hits ran none_dropped
