-- ===== src/Capture/Packets/Tests.antt =====
-- Runs of capture/packetbuffer.go on a buffer for three packets of eight bytes together.
use memsniff.Capture.Packets.{
  blocks_full, bytes_full, PacketData, PacketBuffer, append, packet, packet_len, bytes_remaining,
  append_block, block, start_of, slice, set_elem,
}
use memsniff.Capture.Packets.Refine.{IsValid, Appended, append_refines}
use memsniff.Common.{ℕ, ◌≡◌, ◌≤◌, ◌<◌, refl, [], ◌∷◌, some, arith}

abbrev two_packets : PacketBuffer ℕ
two_packets = record {
  packed = record {
    offsets = 2 ∷ 5 ∷ [];
    bytes = 1 ∷ 2 ∷ 3 ∷ 4 ∷ 5 ∷ [];
    max_blocks = 3;
    max_bytes = 8;
  };
  infos = 70 ∷ 71 ∷ 0 ∷ [];
}

two_packets-IsValid : IsValid two_packets
two_packets-IsValid = record {
  rises = (omega arith, (omega arith, refl));
  few = omega arith;
  small = omega arith;
  one_info_each = refl;
}

abbrev third : PacketData ℕ
third = record { info = 72; bytes = 6 ∷ 7 ∷ [] }

append_refines_example :
    (3 ≤ packet_len two_packets → append two_packets third ≡ (two_packets, some blocks_full))
    × (packet_len two_packets < 3
        → bytes_remaining two_packets.packed < 2
        → append two_packets third ≡ (two_packets, some bytes_full))
    × (packet_len two_packets < 3
        → 2 ≤ bytes_remaining two_packets.packed
        → Appended two_packets third (append two_packets third))
append_refines_example = append_refines two_packets third two_packets-IsValid (omega arith)

second : packet two_packets 1 ≡ some (record { info = 71; bytes = 3 ∷ 4 ∷ 5 ∷ [] })
unfolding packet block start_of slice
second = refl

third_appended : packet (append two_packets third).0 2 ≡ some third
unfolding packet block start_of slice append append_block set_elem
third_appended = refl
