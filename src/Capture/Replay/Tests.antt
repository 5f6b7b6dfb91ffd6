-- ===== src/Capture/Replay/Tests.antt =====
-- Runs of the replayer of capture/replay.go on a file with one packet in each batch.
use memsniff.Capture.Packets.{
  PacketBuffer, PacketData, append, append_block, clear, clear_blocks, packet_len, packet_cap,
  packet, bytes_remaining, block_count, new_packet_buffer,
}
use memsniff.Capture.Packets
use memsniff.Capture.Packets.Blocks.{blocks_of}
use memsniff.Capture.Packets.Refine.{
  packets_of, contents, append_refines, append-packet_cap, clear-IsValid, length-contents,
  new_packet_buffer-IsValid,
}
use memsniff.Capture.Collect.{CollectError, not_read, at_eof, timed_out}
use memsniff.Capture.Sources.{PacketSource}
use memsniff.Capture.Replay.{
  Replayer, replay_packets, discard_next, discard_replayed, new_replayer, since, started,
}
use memsniff.Capture.Replay
use memsniff.Capture.Replay.Written.{AreSnapped}
use memsniff.Word.{wrap}
use memsniff.Capture.Replay.Settled.{IsRoomy, IsLawful}
use memsniff.Capture.Replay.Delivers.{Delivers, replay_packets-Delivers}
use memsniff.Capture.Replay.Discards.{
  Discards, Fetches, discard_unstarted, discard_replayed-Discards,
}
use memsniff.Common.{
  ℕ, zero, suc, ◌+◌, ◌-◌, ◌*◌, ◌^◌, ◌≤◌, ◌<◌, ◌≡◌, refl, sym, ap, ◌∙◌, subst, [], ◌∷◌, ◌++◌, Option,
  none, some, arith, length,
}

abbrev packet_of : ℕ → PacketData ℕ
packet_of n = record { info = 50_000_000_000 - n * 8_000_000; bytes = 1 ∷ 2 ∷ [] }

-- `n` packets are left, 8 ms apart.
abbrev collect_file : ℕ → PacketBuffer ℕ → ℕ × PacketBuffer ℕ × Option CollectError
collect_file zero pb = (0, clear pb, some (not_read at_eof))
collect_file (suc n) pb = (n, (append (clear pb) (packet_of n)).0, none)

abbrev file : PacketSource ℕ ℕ
file = record { collect = collect_file; discard = λ n. (n, some (not_read at_eof)) }

abbrev time_of : ℕ → ℕ
time_of i = i

buffers :
    (n : ℕ) (pb : PacketBuffer ℕ)
    → ((append (clear pb) (packet_of n)).0.packed.max_bytes ≡ pb.packed.max_bytes)
      × ((append (clear pb) (packet_of n)).0.packed.max_blocks ≡ pb.packed.max_blocks)
unfolding append append_block clear clear_blocks
buffers n pb = ground arith

file_packet :
    (n : ℕ) (pb : PacketBuffer ℕ)
    → IsRoomy pb
    → Packets.Refine.Appended (clear pb) (packet_of n) (append (clear pb) (packet_of n))
unfolding clear clear_blocks packet_len block_count bytes_remaining
file_packet n pb v =
    (append_refines (clear pb) (packet_of n) (clear-IsValid pb v.valid).0 v.blocks).2 v.blocks
      (omega (arith, v.bytes))

file_keeps : (n : ℕ) (pb : PacketBuffer ℕ) → IsRoomy pb → IsRoomy (collect_file n pb).1
unfolding clear clear_blocks
file_keeps zero pb v = record {
  valid = (clear-IsValid pb v.valid).0;
  blocks = v.blocks;
  bytes = v.bytes;
}
file_keeps (suc n) pb v = record {
  valid = (file_packet n pb v).1;
  blocks = omega (arith, buffers n pb, v.blocks);
  bytes = omega (arith, buffers n pb, v.bytes);
}

file-IsLawful : IsLawful file
unfolding packet_cap clear clear_blocks
file-IsLawful = record {
  keeps = file_keeps;
  as_large = λ s pb. elim s as (λ s. packet_cap (collect_file s pb).1 ≡ packet_cap pb) [
    | zero ↦ refl
    | suc n ↦ (buffers n pb).1
  ];
  gives = λ s pb v e. gives s pb v e;
}
  where
    gives :
        (s : ℕ) (pb : PacketBuffer ℕ)
        → IsRoomy pb
        → (collect_file s pb).2 ≡ none
        → (0 < packet_len (collect_file s pb).1) × AreSnapped (contents (collect_file s pb).1)
    gives zero pb v e = absurd (ground arith)
    gives (suc n) pb v e =
        let (ok, valid, c) = file_packet n pb v in
        let only : contents (append (clear pb) (packet_of n)).0 ≡ packet_of n ∷ [] =
          c ∙ ap (λ ps. ps ++ packet_of n ∷ []) (clear-IsValid pb v.valid).1 in
        (
          omega (arith, length-contents (append (clear pb) (packet_of n)).0 valid, ap length only),
          subst AreSnapped (sym only) (omega arith, tt),
        )

-- The time of the packet that is handed out next, and the clock.
abbrev replayer : Replayer ℕ ℕ
replayer = new_replayer 0 5 3 200000

abbrev clock : ℕ
clock = 2 ^ 64

empty-IsRoomy : IsRoomy {Info = ℕ} (new_packet_buffer 0 3 200000)
unfolding new_packet_buffer Packets.new_block_buffer
empty-IsRoomy = record {
  valid = new_packet_buffer-IsValid 0 3 200000;
  blocks = omega arith;
  bytes = omega arith;
}

file_shrinks : (s : ℕ) (b : PacketBuffer ℕ) → (collect_file s b).2 ≡ none → (collect_file s b).0 < s
file_shrinks zero b e = absurd (ground arith)
file_shrinks (suc n) b e = omega arith

replay_packets-Delivers_example :
    Delivers file time_of
      (since (clock + 20_000_000) (started clock replayer).start)
      (started clock replayer)
      (replay_packets file time_of 9 clock
        (clock + 20_000_000)
        replayer
        (new_packet_buffer 0 3 200000))
unfolding new_replayer packets_of blocks_of new_packet_buffer Packets.new_block_buffer
replay_packets-Delivers_example =
    replay_packets-Delivers file time_of (λ s. s) 9 clock (clock + 20_000_000) replayer
      (new_packet_buffer 0 3 200000) file-IsLawful file_shrinks (omega arith) empty-IsRoomy
      (new_packet_buffer-IsValid 0 3 200000) (omega arith) tt

discard_replayed-Discards_example :
    (replayer.cursor < packet_len replayer.buf
      → Discards time_of clock replayer (discard_replayed file time_of clock replayer))
    × (packet_len replayer.buf ≤ replayer.cursor
        → Fetches file time_of clock replayer (discard_replayed file time_of clock replayer))
unfolding new_replayer
discard_replayed-Discards_example =
    discard_replayed-Discards file time_of clock replayer file-IsLawful empty-IsRoomy

-- The file was read once, and the clock was not.
abbrev filled : Replayer ℕ ℕ
filled = (discard_replayed file time_of clock replayer).0

filled_runs :
    (filled.start ≡ 0)
    × (packet filled.buf filled.cursor ≡ some (packet_of 4))
    × (filled.first ≡ 49_968_000_000)
unfolding discard_replayed new_replayer Replay.fill Replay.fill_with Replay.set_first discard_next
    append append_block Packets.set_elem clear clear_blocks packet_len block_count packet
    Packets.block Packets.slice Packets.start_of new_packet_buffer Packets.new_block_buffer since
    Replay.with_timeout wrap
filled_runs = (refl, refl, refl)

discard_unstarted_example : discard_next time_of clock filled ≡ (filled, some (not_read timed_out))
discard_unstarted_example =
    discard_unstarted time_of clock filled (packet_of 4) filled_runs.0 (omega arith) filled_runs.1
      (omega (arith, filled_runs.2))
