-- ===== src/Capture/Collect/Tests.antt =====
-- Runs of CollectPackets (capture/capture.go) on a handle with some packets left.
use memsniff.Capture.Packets.{PacketBuffer, new_packet_buffer, clear, packet_cap}
use memsniff.Capture.Packets.Refine.{new_packet_buffer-IsValid}
use memsniff.Capture.Collect.{
  ReadResult, failed, read, at_eof, Snaps, Collects, collect_packets, collect_packets-Collects,
}
use memsniff.Common.{ℕ, zero, suc, ◌≡◌, [], ◌∷◌, arith, length}

-- `n` packets are left.
next : ℕ → ℕ × ReadResult ℕ
next zero = (0, failed at_eof)
next (suc n) = (n, read (record { info = n; bytes = n ∷ n ∷ [] }))

next-Snaps : Snaps next
unfolding next
next-Snaps zero h' pd e = absurd (ground arith)
next-Snaps (suc n) h' pd e = let size : length pd.bytes ≡ 2 = ground arith in omega (arith, size)

abbrev empty : PacketBuffer ℕ
empty = new_packet_buffer 0 3 200000

collect_packets-Collects_example :
    Collects next (packet_cap empty) 0 2 (clear empty) (collect_packets next 2 empty)
collect_packets-Collects_example =
    collect_packets-Collects next 2 empty next-Snaps (new_packet_buffer-IsValid 0 3 200000)
