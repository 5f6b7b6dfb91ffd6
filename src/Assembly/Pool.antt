-- ===== src/Assembly/Pool.antt =====
-- assembly/pool.go and assembly/worker.go: which worker gets a packet, the workers' queues, and calls
-- of HandlePackets that wait for them. A schedule is a list of actions.
pub mod Queued
pub mod Answers
pub mod Calls
mod Tests
use memsniff.Decode.Packet.{DecodedPacket}
use memsniff.Partition.{spread}
use memsniff.Common.{
  ℕ, zero, suc, ◌+◌, ◌*◌, ◌%◌, Bool, true, false, List, [], ◌∷◌, ◌++◌, Option, none, some, ltb,
  ◌==◌, if◌then◌else◌, length, replicate, ℤ, pos, ◌-ℤ◌,
}

-- A call of HandlePackets has its own channel doneCh, and is known by its number.
pub record WorkItem (Packet : Type 0) : Type 0 where
  pub dps : List Packet
  pub call : ℕ

pub record Worker (Packet Asm : Type 0) : Type 0 where
  pub assembler : Asm
  pub queue : List (WorkItem Packet)
  pub most_recent : ℕ

-- `sent` is batchesSent, `refused` the errors that were logged, and `done` what doneCh has had; a
-- call returns when it has had as much as was sent.
pub record Call : Type 0 where
  pub sent : ℕ
  pub refused : ℕ
  pub done : ℕ

pub record Pool (Packet Asm : Type 0) : Type 0 where
  pub workers : List (Worker Packet Asm)
  pub calls : List Call

-- A goroutine calls HandlePackets, or a worker, by its number, takes a work item or its ticker fires.
pub data Action (Packet : Type 0) : Type 0 where
  handle : List Packet → Action Packet
  take_item tick : ℕ → Action Packet

abbrev pub queue_cap : ℕ
queue_cap = 128

abbrev pub minute : ℕ
minute = 60_000_000_000

-- slot, for `n` workers; `none` is a panic, of a division by zero.
unfoldable pub flow_slot : {Info Net Tcp : Type 0} → ℕ → DecodedPacket Info Net Tcp → Option ℕ
flow_slot n dp = if n == 0 then none else some (dp.flow_hash % n)

-- A worker's loop ends a work item by a value for doneCh, which has room for one from each worker.
unfoldable pub answer : List Call → ℕ → List Call
answer [] j = []
answer (c ∷ cs) zero = record c { done = suc c.done } ∷ cs
answer (c ∷ cs) (suc j) = c ∷ answer cs j

module _ {Packet Asm : Type 0} where
  unfoldable pub new_pool : Asm → ℕ → Pool Packet Asm
  new_pool fresh num_workers = record {
    workers = replicate num_workers (record { assembler = fresh; queue = []; most_recent = 0 });
    calls = [];
  }

  -- handlePackets of a worker; the result is false where it returns errQueueFull.
  unfoldable pub enqueue : Worker Packet Asm → WorkItem Packet → Worker Packet Asm × Bool
  enqueue w item =
      if ltb (length w.queue) queue_cap
      then (record w { queue = w.queue ++ item ∷ [] }, true)
      else (w, false)

  -- A round of the loop of HandlePackets: the worker, and how many batches it was sent and refused.
  unfoldable pub send_batch : ℕ → Worker Packet Asm → List Packet → Worker Packet Asm × ℕ × ℕ
  send_batch call w [] = (w, 0, 0)
  send_batch call w (p ∷ ps) =
      let (w', ok) = enqueue w (record { dps = p ∷ ps; call = call }) in
      (w', 1, if ok then 0 else 1)

  unfoldable pub send_batches :
      ℕ → List (Worker Packet Asm) → List (List Packet) → List (Worker Packet Asm) × ℕ × ℕ
  send_batches call [] batches = ([], 0, 0)
  send_batches call (w ∷ ws) [] = (w ∷ ws, 0, 0)
  send_batches call (w ∷ ws) (b ∷ bs) =
      let (w', s, r) = send_batch call w b in
      let (ws', s', r') = send_batches call ws bs in (w' ∷ ws', s + s', r + r')

  -- HandlePackets up to where it waits, with `slot_of` for a packet's slot; `none` is a panic.
  unfoldable pub handle_packets :
      (ℕ → Packet → Option ℕ) → Pool Packet Asm → List Packet → Option (Pool Packet Asm)
  handle_packets slot_of p dps =
      elim (spread (slot_of (length p.workers)) (replicate (length p.workers) []) dps) [
        | none ↦ none
        | some batches ↦
            let (ws, s, r) = send_batches (length p.calls) p.workers batches in
            some (record {
              workers = ws;
              calls = p.calls ++ record { sent = s; refused = r; done = 0 } ∷ [];
            })
      ]

-- AssembleWithTimestamp of a packet, FlushOlderThan a time, and a packet's Timestamp.
module _ {Packet Asm : Type 0} (assemble : Asm → Packet → Asm) (flush : Asm → ℤ → Asm)
    (time_of : Packet → ℕ) where
  unfoldable pub assemble_all : Worker Packet Asm → List Packet → Worker Packet Asm
  assemble_all w [] = w
  assemble_all w (dp ∷ dps) =
      assemble_all (record w { most_recent = time_of dp; assembler = assemble w.assembler dp }) dps

  -- The branches of the select in a worker's loop.
  unfoldable pub take_work :
      List (Worker Packet Asm) → ℕ → Option (WorkItem Packet × List (Worker Packet Asm))
  take_work [] i = none
  take_work (w ∷ ws) zero = elim w.queue [
    | [] ↦ none
    | item ∷ rest ↦ some (item, assemble_all (record w { queue = rest }) item.dps ∷ ws)
  ]
  take_work (w ∷ ws) (suc i) = elim (take_work ws i) [ none ↦ none | some r ↦ some (r.0, w ∷ r.1) ]

  unfoldable pub flush_old : List (Worker Packet Asm) → ℕ → List (Worker Packet Asm)
  flush_old [] i = []
  flush_old (w ∷ ws) zero =
      record w { assembler = flush w.assembler (pos w.most_recent -ℤ pos minute) } ∷ ws
  flush_old (w ∷ ws) (suc i) = w ∷ flush_old ws i

  unfoldable pub step :
      (ℕ → Packet → Option ℕ) → Action Packet → Pool Packet Asm → Option (Pool Packet Asm)
  step slot_of (handle dps) p = handle_packets slot_of p dps
  step slot_of (tick i) p = some (record p { workers = flush_old p.workers i })
  step slot_of (take_item i) p = elim (take_work p.workers i) [
    | none ↦ none
    | some r ↦ some (record { workers = r.1; calls = answer p.calls r.0.call })
  ]

  unfoldable pub runs :
      (ℕ → Packet → Option ℕ) → List (Action Packet) → Pool Packet Asm → Option (Pool Packet Asm)
  runs slot_of [] p = some p
  runs slot_of (a ∷ acts) p = elim (step slot_of a p) [ none ↦ none | some q ↦ runs slot_of acts q ]
