-- ===== src/Analysis/Pool/Reports.antt =====
-- Report of analysis/report.go: what the workers' hotlists hold, by falling traffic.
use mathlib.Core.List.{Perm, flatten}
use memsniff.Sorting.{Descends, sort_by-Descends, sort_by-perm, length-sort_by}
use memsniff.Word.{wrap, ◌*ℤ◌}
use memsniff.Hotlist.{Entry, top}
use memsniff.Hotlist.Top.{IsTop, ordered_top-IsTop}
use memsniff.Analysis.Worker.{KeyInfo, Worker, weight, worker_top, reset_worker}
use memsniff.Analysis.Pool.{Pool, KeyReport, key_report, all_tops, traffic_of, report, reset}
use memsniff.Common.{
  subst, ℕ, ◌+◌, min, ◌≡◌, refl, ap, ◌∙◌, Bool, true, false, List, [], ◌∷◌, ◌++◌, map, arith,
  length, length-append, length-map,
}

-- The entries of all workers, at most `k` of each.
unfoldable pub entries_up_to : ℕ → List Worker → ℕ
entries_up_to k [] = 0
entries_up_to k (w ∷ ws) = min k (length w.hl) + entries_up_to k ws

-- The lists are, in order, the top `k` entries of the workers.
abbrev pub AreTops : ℕ → List Worker → List (List (Entry KeyInfo)) → Type 0
AreTops k [] [] = Unit
AreTops k [] (es ∷ ess) = ⊥
AreTops k (w ∷ ws) [] = ⊥
AreTops k (w ∷ ws) (es ∷ ess) = IsTop weight k w.hl es × AreTops k ws ess

-- The rows say, in order, what the entries hold: the key, the size of its values, how often it was
-- asked for, and the product of the last two.
abbrev pub AreRowsOf : List (Entry KeyInfo) → List KeyReport → Type 0
AreRowsOf [] [] = Unit
AreRowsOf [] (r ∷ rs) = ⊥
AreRowsOf (e ∷ es) [] = ⊥
AreRowsOf (e ∷ es) (r ∷ rs) =
    ((r.name ≡ e.item.name)
      × (r.size ≡ e.item.size)
      × (r.requests ≡ e.count)
      × (r.traffic ≡ wrap (e.count *ℤ e.item.size)))
    × AreRowsOf es rs

-- The second workers have forgotten what the first ones counted, and the same batches wait.
abbrev pub AreCleared : List Worker → List Worker → Type 0
AreCleared [] [] = Unit
AreCleared [] (v ∷ vs) = ⊥
AreCleared (w ∷ ws) [] = ⊥
AreCleared (w ∷ ws) (v ∷ vs) = ((v.hl ≡ []) × (v.waiting ≡ w.waiting)) × AreCleared ws vs

-- What a report leaves of a pool, by whether it resets.
abbrev pub LeavesPool : Bool → Pool → Pool → Type 0
LeavesPool false p q = q ≡ p
LeavesPool true p q = AreCleared p.workers q.workers × (q ≡ record p { workers = q.workers })

pub record IsReport (should_reset : Bool) (p : Pool) (r : Pool × List KeyReport) : Type 0 where
  pub ordered : Descends traffic_of r.1
  pub tops : List (List (Entry KeyInfo))
  pub are_tops : AreTops p.report_size p.workers tops
  pub rows : List KeyReport
  pub are_rows : AreRowsOf (flatten tops) rows
  pub permuted : Perm r.1 rows
  pub counted : length r.1 ≡ entries_up_to p.report_size p.workers
  pub left : LeavesPool should_reset p r.0

length-all_tops : (ws : List Worker) (k : ℕ) → length (all_tops ws k) ≡ entries_up_to k ws
unfolding all_tops entries_up_to worker_top top
length-all_tops [] k = refl
length-all_tops (w ∷ ws) k = omega (
  arith,
  length-append (worker_top w k) (all_tops ws k),
  (ordered_top-IsTop weight k w.hl).counted,
  length-all_tops ws k,
)

tops_of : List Worker → ℕ → List (List (Entry KeyInfo))
tops_of ws k = map (λ w. worker_top w k) ws

tops_of-AreTops : (ws : List Worker) (k : ℕ) → AreTops k ws (tops_of ws k)
unfolding tops_of worker_top top
tops_of-AreTops [] k = tt
tops_of-AreTops (w ∷ ws) k = (ordered_top-IsTop weight k w.hl, tops_of-AreTops ws k)

flatten-tops_of : (ws : List Worker) (k : ℕ) → all_tops ws k ≡ flatten (tops_of ws k)
unfolding all_tops tops_of flatten
flatten-tops_of [] k = refl
flatten-tops_of (w ∷ ws) k = ap (λ es. worker_top w k ++ es) (flatten-tops_of ws k)

key_report-AreRowsOf : (es : List (Entry KeyInfo)) → AreRowsOf es (map key_report es)
unfolding key_report
key_report-AreRowsOf [] = tt
key_report-AreRowsOf (e ∷ es) = ((refl, refl, refl, refl), key_report-AreRowsOf es)

reset_worker-AreCleared : (ws : List Worker) → AreCleared ws (map reset_worker ws)
unfolding reset_worker
reset_worker-AreCleared [] = tt
reset_worker-AreCleared (w ∷ ws) = ((refl, refl), reset_worker-AreCleared ws)

report-LeavesPool :
    (p : Pool) (should_reset : Bool) → LeavesPool should_reset p (report p should_reset).0
unfolding report reset
report-LeavesPool p false = refl
report-LeavesPool p true = (reset_worker-AreCleared p.workers, refl)

-- Report lists, by falling traffic, one row for each of the top entries of every worker, up to
-- the report size of each and not of all together: the key and the size of its values, the
-- entry's count, and their product, which wraps round. With a reset it leaves every worker with
-- an empty hotlist and the batches that wait, and the rest of the pool as it was; without one
-- it leaves the pool as it was.
pub report-IsReport :
    (p : Pool) (should_reset : Bool) → IsReport should_reset p (report p should_reset)
unfolding report
report-IsReport p should_reset = record {
  ordered = sort_by-Descends traffic_of reports;
  tops = tops_of p.workers p.report_size;
  are_tops = tops_of-AreTops p.workers p.report_size;
  rows = reports;
  are_rows =
      subst (λ es. AreRowsOf es reports) (flatten-tops_of p.workers p.report_size)
        (key_report-AreRowsOf (all_tops p.workers p.report_size));
  permuted = sort_by-perm traffic_of reports;
  counted =
      length-sort_by traffic_of reports
      ∙ length-map (all_tops p.workers p.report_size) key_report
      ∙ length-all_tops p.workers p.report_size;
  left = report-LeavesPool p should_reset;
}
  where
    reports : List KeyReport
    reports = map key_report (all_tops p.workers p.report_size)
