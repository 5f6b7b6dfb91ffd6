-- ===== src/Decode/Pool/Tests.antt =====
-- Runs of the pool of decode/pool.go with two workers.
use memsniff.Capture.Packets.{
  PacketBuffer, PacketData, append, clear, packet_len, new_packet_buffer,
}
use memsniff.Capture.Packets
use memsniff.Capture.Collect.{CollectError, not_read, at_eof, other_error}
use memsniff.Capture.Sources.{PacketSource}
use memsniff.Decode.Pool.{
  Pool, Action, run, collecting, Worker, join, finish, collecting, Worker, draining, exited,
  new_pool, runs, step,
}
use memsniff.Decode.Pool
use memsniff.Decode.Pool.Places.{Placed, runs-Placed}
use memsniff.Decode.Pool.Exits.{Ends, runs-Ends, failed-runs}
use memsniff.Decode.Pool.Counts.{EofIsEmpty, Tallies, runs-Tallies}
use memsniff.Common.{◌*◌, ℕ, zero, suc, ◌≡◌, ◌≢◌, refl, List, [], ◌∷◌, Option, none, some, arith}

abbrev one : PacketData ℕ
one = record { info = 7; bytes = 1 ∷ 2 ∷ [] }

-- A file with that many batches of one packet.
abbrev collect_file : ℕ → PacketBuffer ℕ → ℕ × PacketBuffer ℕ × Option CollectError
collect_file zero pb = (0, clear pb, some (not_read at_eof))
collect_file (suc n) pb = (n, (append (clear pb) one).0, none)

abbrev file : PacketSource ℕ ℕ
file = record { collect = collect_file; discard = λ n. (n, some (not_read at_eof)) }

-- A source that only fails.
abbrev broken : PacketSource ℕ ℕ
broken = record {
  collect = λ n pb. (n, clear pb, some (not_read other_error));
  discard = λ n. (n, some (not_read other_error));
}

abbrev after : Option (Pool ℕ ℕ) → Pool ℕ ℕ
after none = new_pool 0 0 0
after (some p) = p

-- One batch is captured and handled, and then the input is at its end.
abbrev to_eof : List Action
to_eof = join 0 ∷ run ∷ run ∷ join 0 ∷ finish 0 ∷ run ∷ run ∷ []

abbrev at_end : Pool ℕ ℕ
at_end = after (runs file to_eof (new_pool 0 2 1))

-- The only worker is with Run when the source fails.
abbrev to_loss : List Action
to_loss = join 0 ∷ run ∷ []

abbrev only : Worker ℕ
only = record { id = 0; pb = new_packet_buffer 0 1000 (8 * 1024 * 1024) }

abbrev at_loss : Pool ℕ ℕ
at_loss = after (runs broken to_loss (new_pool 0 1 1))

abbrev after_loss : Pool ℕ ℕ
after_loss = after (runs broken (run ∷ []) at_loss)

runs_reach :
    (runs file to_eof (new_pool 0 2 1) ≡ some at_end)
    × (at_end.phase ≡ draining 1)
    × (at_end.lost ≡ [])
    × (runs broken to_loss (new_pool 0 1 1) ≡ some at_loss)
    × (at_loss.phase ≡ collecting only)
    × (runs broken (run ∷ []) at_loss ≡ some after_loss)
unfolding runs step Pool.run_at Pool.join_step Pool.finish_step Pool.take_at Pool.send Pool.work
    new_pool Pool.start_workers Packets.packet_len Packets.block_count Packets.append
    Packets.append_block Packets.set_elem clear Packets.clear_blocks new_packet_buffer
    Packets.new_block_buffer
runs_reach = (refl, refl, refl, refl, refl, refl)

file-EofIsEmpty : EofIsEmpty file
unfolding Packets.packet_len Packets.block_count clear Packets.clear_blocks
file-EofIsEmpty zero pb e = refl
file-EofIsEmpty (suc n) pb e = absurd (ground arith)

runs-Placed_example : Placed 2 at_end
runs-Placed_example = runs-Placed file 0 2 1 to_eof at_end runs_reach.0

runs-Ends_example : Ends file at_end
runs-Ends_example = runs-Ends file 0 2 1 to_eof at_end 1 runs_reach.0 runs_reach.1 runs_reach.2

failed-runs_example : after_loss.phase ≢ exited
failed-runs_example =
    failed-runs broken 0 1 1 to_loss [] at_loss after_loss only (not_read other_error) runs_reach.3
      runs_reach.4 refl refl runs_reach.5

runs-Tallies_example : Tallies at_end
runs-Tallies_example = runs-Tallies file 0 2 1 to_eof at_end file-EofIsEmpty runs_reach.0
