-- ===== src/Decode/Pool.antt =====
-- decode/pool.go and decode/worker.go: the goroutine of Run, those of the workers, and the channel
-- of ready workers between them. A schedule is a list of actions.
pub mod Places
pub mod Closing
pub mod Exits
pub mod Counts
mod Tests
use memsniff.Capture.Packets.{PacketBuffer, packet_len, new_packet_buffer}
use memsniff.Capture.Collect.{CollectError, not_read, not_appended, at_eof, timed_out, other_error}
use memsniff.Capture.Sources.{PacketSource}
use memsniff.Common.{
  ℕ, zero, suc, ◌+◌, ◌-◌, ◌*◌, Bool, true, false, List, [], ◌∷◌, ◌++◌, Option, none, some, leb,
  ◌==◌, if◌then◌else◌, length,
}

-- The channel workReady has room for one value, and is told by the place where the worker is.
pub record Worker (Info : Type 0) : Type 0 where
  pub id : ℕ
  pub pb : PacketBuffer Info

-- Where the goroutine of Run is: at the select, in sendToWorker with a worker, behind the end of
-- input with so many workers still to close, or returned.
pub data Phase (Info : Type 0) : Type 0 where
  selecting : Phase Info
  collecting : Worker Info → Phase Info
  draining : ℕ → Phase Info
  exited : Phase Info

-- A worker outside Run is ready in readyQ, about to send itself there (`joining`), in or before its
-- handler (`working`), `closed`, or `lost`: taken from readyQ and neither given work nor closed.
-- `handled` are the batches that handlers were given, the last one first.
pub record Pool (Src Info : Type 0) : Type 0 where
  pub num_workers : ℕ
  pub phase : Phase Info
  pub src : Src
  pub ready : List (Worker Info)
  pub joining : List (Worker Info)
  pub working : List (Worker Info)
  pub closed : List (Worker Info)
  pub lost : List (Worker Info)
  pub captured : ℕ
  pub dropped : ℕ
  pub handled : List (PacketBuffer Info)

-- What may run next: the goroutine of Run, or a worker, by its position.
pub data Action : Type 0 where
  run : Action
  join finish : ℕ → Action

unfoldable pub take_at : {A : Type 0} → List A → ℕ → Option (A × List A)
take_at [] i = none
take_at (x ∷ xs) zero = some (x, xs)
take_at (x ∷ xs) (suc i) = elim (take_at xs i) [ none ↦ none | some r ↦ some (r.0, x ∷ r.1) ]

module _ {Info : Type 0} where
  unfoldable pub start_workers : Info → ℕ → List (Worker Info)
  start_workers blank zero = []
  start_workers blank (suc i) =
      start_workers blank i
      ++ record { id = i; pb = new_packet_buffer blank 1000 (8 * 1024 * 1024) } ∷ []

module _ {Src Info : Type 0} where
  unfoldable pub new_pool : Info → ℕ → Src → Pool Src Info
  new_pool blank num_workers src = record {
    num_workers = num_workers;
    phase = selecting;
    src = src;
    ready = [];
    joining = start_workers blank num_workers;
    working = [];
    closed = [];
    lost = [];
    captured = 0;
    dropped = 0;
    handled = [];
  }

  -- work
  unfoldable pub work : Pool Src Info → Worker Info → Pool Src Info
  work p w =
      if packet_len w.pb == 0
      then record p { ready = p.ready ++ w ∷ [] }
      else record p { working = w ∷ p.working }

  abbrev pub count : Pool Src Info → Worker Info → Pool Src Info
  count p w = record p { captured = p.captured + packet_len w.pb }

  -- sendToWorker behind a call of CollectPackets, and what Run does with its result.
  unfoldable pub send : Pool Src Info → Worker Info → Option CollectError → Pool Src Info
  send p w none = work (record (count p w) { phase = selecting }) w
  send p w (some (not_read timed_out)) = record p { phase = collecting w }
  send p w (some (not_read at_eof)) = record (count p w) {
    phase = draining (p.num_workers - 1);
    closed = w ∷ p.closed;
  }
  send p w (some (not_read other_error)) = record (count p w) {
    phase = selecting;
    lost = w ∷ p.lost;
  }
  send p w (some (not_appended e)) = record (count p w) { phase = selecting; lost = w ∷ p.lost }

  -- The branch `default` of the select.
  unfoldable pub drop_packet : Pool Src Info → Src × Option CollectError → Pool Src Info
  drop_packet p (src, none) = record p { src = src; dropped = suc p.dropped }
  drop_packet p (src, some e) = record p { src = src }

  -- A worker enters readyQ, which has room for numWorkers.
  unfoldable pub join_step : Pool Src Info → ℕ → Option (Pool Src Info)
  join_step p i = elim (take_at p.joining i) [
    | none ↦ none
    | some r ↦
        if leb p.num_workers (length p.ready)
        then none
        else some (record p { joining = r.1; ready = p.ready ++ r.0 ∷ [] })
  ]

  -- A worker's handler is called and returns.
  unfoldable pub finish_step : Pool Src Info → ℕ → Option (Pool Src Info)
  finish_step p i = elim (take_at p.working i) [
    | none ↦ none
    | some r ↦
        some (record p { working = r.1; joining = r.0 ∷ p.joining; handled = r.0.pb ∷ p.handled })
  ]

module _ {Src Info : Type 0} (ps : PacketSource Src Info) where
  abbrev pub sent :
      Pool Src Info → Worker Info → Src × PacketBuffer Info × Option CollectError → Pool Src Info
  sent p w r = send (record p { src = r.0 }) (record w { pb = r.1 }) r.2

  -- One step of Run, at a phase and the workers in readyQ; `none` where it waits or has returned.
  unfoldable pub run_at : Pool Src Info → Phase Info → List (Worker Info) → Option (Pool Src Info)
  run_at p selecting [] = some (drop_packet p (ps.discard p.src))
  run_at p selecting (w ∷ q) = some (record p { ready = q; phase = collecting w })
  run_at p (collecting w) q = some (sent p w (ps.collect p.src w.pb))
  run_at p (draining zero) q = some (record p { phase = exited })
  run_at p (draining (suc k)) [] = none
  run_at p (draining (suc k)) (w ∷ q) =
      some (record p { ready = q; closed = w ∷ p.closed; phase = draining k })
  run_at p exited q = none

  unfoldable pub step : Action → Pool Src Info → Option (Pool Src Info)
  step run p = run_at p p.phase p.ready
  step (join i) p = join_step p i
  step (finish i) p = finish_step p i

  -- The pool after a schedule; `none` where one of its actions was not possible.
  unfoldable pub runs : List Action → Pool Src Info → Option (Pool Src Info)
  runs [] p = some p
  runs (a ∷ acts) p = elim (step a p) [ none ↦ none | some q ↦ runs acts q ]
