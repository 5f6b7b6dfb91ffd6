-- ===== src/Analysis/Pool/Spread.antt =====
-- partitionEvents of analysis/pool.go: which worker gets which events.
use native.Mathlib.Nat.{mod-lt}
use memsniff.Model.{Event}
use memsniff.Partition.{Partitions, HasSlots, spread-Partitions}
use memsniff.Analysis.Pool.{fnv, key_slot, event_slot, partition_events}
use memsniff.Common.{ℕ, ◌%◌, ◌<◌, List, arith}

event_slot-HasSlots : (n : ℕ) → 0 < n → HasSlots (event_slot n) n
unfolding key_slot
event_slot-HasSlots n h e =
    (fnv 14695981039346656037 e.key % n, ground arith, mod-lt (fnv 14695981039346656037 e.key) h)

-- With at least one worker, partitionEvents gives one batch for each worker, and the batch of a
-- worker holds exactly the events whose key belongs to it, in their order; the batches hold as
-- many events as were given.
pub partition_events-Partitions :
    (n : ℕ) (es : List Event) → 0 < n → Partitions (event_slot n) n es (partition_events n es)
unfolding partition_events
partition_events-Partitions n es h = spread-Partitions (event_slot n) n es (event_slot-HasSlots n h)
