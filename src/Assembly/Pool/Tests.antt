-- ===== src/Assembly/Pool/Tests.antt =====
-- Runs of the pool of assembly/pool.go with two workers, and with one that does not get to run.
use memsniff.Decode.Packet.{DecodedPacket}
use memsniff.Partition.{spread, append_at}
use memsniff.Assembly.Pool.{
  Pool, Call, Action, handle, take_item, tick, flow_slot, new_pool, runs, step, answer, enqueue,
  send_batch, send_batches, handle_packets, assemble_all, take_work, flush_old,
}
use memsniff.Assembly.Pool.Calls.{Returns, runs-Returns, refused-runs}
use memsniff.Common.{
  ℕ, ◌<◌, ◌≡◌, refl, List, [], ◌∷◌, Option, none, some, get_elem?, replicate, arith, ℤ,
}

abbrev Packet : Type 0
Packet = DecodedPacket ℕ ℕ ℕ

abbrev packet : ℕ → Packet
packet h = record {
  info = h;
  decoded = [];
  layers = record { ip4 = 0; ip6 = 0; transport = 0 };
  flow_hash = h;
  net_flow = 0;
}

-- The assembler keeps the packets, the last one first.
abbrev assemble : List ℕ → Packet → List ℕ
assemble seen dp = dp.info ∷ seen

abbrev flush : List ℕ → ℤ → List ℕ
flush seen t = seen

abbrev time_of : Packet → ℕ
time_of dp = dp.info

abbrev after : Option (Pool Packet (List ℕ)) → Pool Packet (List ℕ)
after none = new_pool [] 0
after (some p) = p

-- Two batches are sent, and one is answered.
abbrev half : List (Action Packet)
half = handle (packet 2 ∷ packet 5 ∷ packet 4 ∷ []) ∷ take_item 0 ∷ tick 1 ∷ []

abbrev half_done : Pool Packet (List ℕ)
half_done = after (runs assemble flush time_of flow_slot half (new_pool [] 2))

-- The queue of the only worker is full when the last batch comes.
abbrev flood : List (Action Packet)
flood = replicate 129 (handle (packet 2 ∷ []))

abbrev flooded : Pool Packet (List ℕ)
flooded = after (runs assemble flush time_of flow_slot flood (new_pool [] 1))

abbrev refused : Call
refused = record { sent = 1; refused = 1; done = 0 }

runs_reach :
    (runs assemble flush time_of flow_slot half (new_pool [] 2) ≡ some half_done)
    × (get_elem? half_done.calls 0 ≡ some (record { sent = 2; refused = 0; done = 1 }))
    × (runs assemble flush time_of flow_slot flood (new_pool [] 1) ≡ some flooded)
    × (get_elem? flooded.calls 128 ≡ some refused)
unfolding runs step answer enqueue send_batch send_batches handle_packets assemble_all take_work
    flush_old spread append_at flow_slot new_pool
runs_reach = (refl, refl, refl, refl)

runs-Returns_example : Returns assemble flush time_of half_done
runs-Returns_example =
    runs-Returns assemble flush time_of flow_slot [] 2 half half_done runs_reach.0

refused-runs_example : (d : Call) × (get_elem? flooded.calls 128 ≡ some d) × (d.done < d.sent)
unfolding runs
refused-runs_example =
    refused-runs assemble flush time_of flow_slot [] 1 flood [] flooded flooded 128 refused
      runs_reach.2 runs_reach.3 (omega arith) refl
