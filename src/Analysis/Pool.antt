-- ===== src/Analysis/Pool.antt =====
-- analysis/pool.go and analysis/report.go: the workers, which of them gets a key, and reports.
pub mod Spread
pub mod Dispatch
pub mod Delivered
pub mod Runs
pub mod Totals
pub mod Reports
mod Tests
use memsniff.Model.{Event}
use memsniff.Partition.{spread}
use memsniff.Hotlist.{Entry}
use memsniff.Sorting.{sort_by}
use memsniff.Word.{wrap, ◌*ℤ◌, xor}
use memsniff.Analysis.Filter.{Regex, Filter, filter_events, set_pattern}
use memsniff.Analysis.Worker.{KeyInfo, Worker, new_worker, worker_top, reset_worker}
use memsniff.Analysis.Worker
use memsniff.Common.{
  ℕ, zero, suc, ◌+◌, ◌*◌, ◌%◌, ◌^◌, Bool, true, false, List, [], ◌∷◌, ◌++◌, map, Option, none, some,
  ltb, ◌==◌, if◌then◌else◌, length, replicate, ℤ,
}

-- `handled` and `dropped` are the Stats.
pub record Pool : Type 0 where
  pub report_size : ℕ
  pub workers : List Worker
  pub filter : Filter
  pub handled : ℕ
  pub dropped : ℕ

unfoldable pub new_pool : ℕ → ℕ → Pool
new_pool num_workers report_size = record {
  report_size = report_size;
  workers = replicate num_workers new_worker;
  filter = none;
  handled = 0;
  dropped = 0;
}

-- hash/fnv's New64a: `hash` bytes on.
unfoldable pub fnv : ℕ → List ℕ → ℕ
fnv hash [] = hash
fnv hash (c ∷ cs) = fnv (xor hash c * 1099511628211 % 2 ^ 64) cs

-- keySlot, for `n` workers; `none` is a panic, of a division by zero.
unfoldable pub key_slot : ℕ → List ℕ → Option ℕ
key_slot n key = if n == 0 then none else some (fnv 14695981039346656037 key % n)

abbrev pub event_slot : ℕ → Event → Option ℕ
event_slot n e = key_slot n e.key

unfoldable pub partition_events : ℕ → List Event → Option (List (List Event))
partition_events n evts = spread (event_slot n) (replicate n []) evts

abbrev pub no_events : List Event → Bool
no_events [] = true
no_events (e ∷ es) = false

-- One round of the loop of HandleEvents: the worker, and how many events it handled and dropped.
unfoldable pub deliver : Worker → List Event → Worker × ℕ × ℕ
deliver w events =
    if no_events events
    then (w, 0, 0)
    else (let (w', ok) = Worker.handle_events w events in
        if ok then (w', length events, 0) else (w', 0, length events))

unfoldable pub deliver_all : List Worker → List (List Event) → List Worker × ℕ × ℕ
deliver_all [] batches = ([], 0, 0)
deliver_all (w ∷ ws) [] = (w ∷ ws, 0, 0)
deliver_all (w ∷ ws) (b ∷ bs) =
    let (w', h, d) = deliver w b in
    let (ws', h', d') = deliver_all ws bs in (w' ∷ ws', h + h', d + d')

-- HandleEvents; `none` is a panic.
unfoldable pub handle_events : Pool → List Event → Option Pool
handle_events p evts = elim (partition_events (length p.workers) (filter_events p.filter evts)) [
  | none ↦ none
  | some batches ↦
      let (ws, h, d) = deliver_all p.workers batches in
      some (record p { workers = ws; handled = p.handled + h; dropped = p.dropped + d })
]

unfoldable pub reset : Pool → Pool
reset p = record p { workers = map reset_worker p.workers }

-- SetFilterPattern; the result is false where it returns an error.
unfoldable pub set_filter_pattern : (List ℕ → Option Regex) → Pool → List ℕ → Pool × Bool
set_filter_pattern compile p pattern =
    let (f, ok) = set_pattern compile p.filter pattern in
    let p' = record p { filter = f } in if ok then (reset p', true) else (p', false)

pub record KeyReport : Type 0 where
  pub name : List ℕ
  pub size : ℤ
  pub requests : ℤ
  pub traffic : ℤ

unfoldable pub key_report : Entry KeyInfo → KeyReport
key_report e = record {
  name = e.item.name;
  size = e.item.size;
  requests = e.count;
  traffic = wrap (e.count *ℤ e.item.size);
}

-- The entries of all workers, `k` of each.
unfoldable pub all_tops : List Worker → ℕ → List (Entry KeyInfo)
all_tops [] k = []
all_tops (w ∷ ws) k = worker_top w k ++ all_tops ws k

abbrev pub traffic_of : KeyReport → ℤ
traffic_of r = r.traffic

-- Report, without its time: the pool after it, and the keys.
unfoldable pub report : Pool → Bool → Pool × List KeyReport
report p should_reset = (
  (if should_reset then reset p else p),
  sort_by traffic_of (map key_report (all_tops p.workers p.report_size)),
)
