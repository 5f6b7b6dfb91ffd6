-- ===== src/Decode/Packet/Tests.antt =====
-- Packets through the decoder of decode/decode.go, with a parser that reads the layers off.
use memsniff.Capture.Packets.{PacketData, PacketBuffer, append, new_packet_buffer}
use memsniff.Capture.Packets
use memsniff.Capture.Packets.Refine.{IsValid, contents, append_refines, new_packet_buffer-IsValid}
use memsniff.Decode.Packet.{
  LayerType, ipv4, tcp, payload, Layers, Parsed, DecodedPacket, Decoder, decode, parse, is_tcp,
  decode_batch,
}
use memsniff.Decode.Packet.Flows.{decode-flow_hash}
use memsniff.Decode.Packet.Batches.{DecodesBatch, decode_batch-DecodesBatch}
use memsniff.Common.{ℕ, ◌*◌, ◌≡◌, refl, true, false, List, [], ◌∷◌, arith}

abbrev Flow : Type 0
Flow = ℕ × ℕ

abbrev reverse : Flow → Flow
reverse f = (f.1, f.0)

abbrev fast_hash : Flow → ℕ
fast_hash f = f.0 * f.1

fast_hash_both : (f : Flow) → fast_hash (reverse f) ≡ fast_hash f
fast_hash_both f = grind arith

-- Four bytes: two addresses and two ports.
abbrev read_layers : LayerType → Layers Flow Flow → List ℕ → Parsed Flow Flow
read_layers first layers (a ∷ b ∷ c ∷ d ∷ _) = record {
  decoded = first ∷ ipv4 ∷ tcp ∷ payload ∷ [];
  layers = record layers { ip4 = (a, b); transport = (c, d) };
  truncated = false;
}
read_layers first layers _ = record { decoded = []; layers = layers; truncated = true }

abbrev blank : DecodedPacket ℕ Flow Flow
blank = record {
  info = 0;
  decoded = [];
  layers = record { ip4 = (0, 0); ip6 = (0, 0); transport = (0, 0) };
  flow_hash = 0;
  net_flow = (0, 0);
}

abbrev request : PacketData ℕ
request = record { info = 60; bytes = 10 ∷ 20 ∷ 4000 ∷ 11211 ∷ [] }

abbrev response : PacketData ℕ
response = record { info = 90; bytes = 20 ∷ 10 ∷ 11211 ∷ 4000 ∷ [] }

abbrev len_of : ℕ → ℕ
len_of n = n

decode-flow_hash_example :
    (decode read_layers fast_hash fast_hash len_of 0 blank response).0.flow_hash
    ≡ (decode read_layers fast_hash fast_hash len_of 0 blank request).0.flow_hash
unfolding parse is_tcp
decode-flow_hash_example =
    decode-flow_hash reverse reverse fast_hash fast_hash fast_hash_both fast_hash_both read_layers
      len_of 0 0 blank blank request response refl tt (refl, (refl, tt))

abbrev one : PacketBuffer ℕ
one = (append (new_packet_buffer 0 3 200000) request).0

one-IsValid : IsValid one
unfolding new_packet_buffer Packets.new_block_buffer Packets.packet_len Packets.block_count
    Packets.bytes_remaining
one-IsValid =
    ((append_refines (new_packet_buffer 0 3 200000) request (new_packet_buffer-IsValid 0 3 200000)
        (omega arith)).2
      (omega arith) (omega arith)).1

abbrev two : Decoder ℕ Flow Flow
two = record { largest = 0; decoded = blank ∷ blank ∷ [] }

decode_batch-DecodesBatch_example :
    DecodesBatch read_layers fast_hash fast_hash len_of two
      (contents one)
      (decode_batch read_layers fast_hash fast_hash len_of two one)
unfolding append Packets.append_block Packets.set_elem Packets.packet_len Packets.block_count
    new_packet_buffer Packets.new_block_buffer
decode_batch-DecodesBatch_example =
    decode_batch-DecodesBatch read_layers fast_hash fast_hash len_of two one one-IsValid
      (omega arith)
