-- ===== src/Decode/Packet.antt =====
-- decode/decode.go: packets taken apart by gopacket's parsers, which are a parameter, and the hash of
-- a packet's connection.
pub mod Flows
pub mod Batches
mod Tests
use memsniff.Capture.Packets.{PacketData, PacketBuffer, packet, packet_len, set_elem}
use memsniff.Word.{xor}
use memsniff.Common.{
  ℕ, zero, suc, ◌+◌, ◌*◌, ◌/◌, ◌%◌, ◌^◌, Bool, true, false, not, ◌&&◌, ◌||◌, List, [], ◌∷◌, Option,
  none, some, ltb, ◌==◌, if◌then◌else◌, length, take, get_elem?, replicate,
}

-- hashCombine, on 64-bit words.
abbrev mul : ℕ → ℕ → ℕ
mul a b = a * b % 2 ^ 64

unfoldable pub mix : ℕ → ℕ
mix k =
    let k1 = mul k 0xc6a4a7935bd1e995 in let k2 = xor k1 (k1 / 2 ^ 47) in mul k2 0xc6a4a7935bd1e995

unfoldable pub hash_combine : ℕ → ℕ → ℕ
hash_combine h k = (mul (xor h (mix k)) 0xc6a4a7935bd1e995 + 0xe6546b64) % 2 ^ 64

pub data LayerType : Type 0 where
  ethernet loopback dot1q ipv4 ipv6 tcp payload : LayerType

abbrev pub is_tcp_layer : LayerType → Bool
is_tcp_layer tcp = true
is_tcp_layer _ = false

-- IsTCP
unfoldable pub is_tcp : List LayerType → Bool
is_tcp [] = false
is_tcp (l ∷ ls) = is_tcp_layer l || is_tcp ls

-- What DecodeLayers writes to: the network flows of the two IP layers, and the TCP layer.
pub record Layers (Net Tcp : Type 0) : Type 0 where
  pub ip4 : Net
  pub ip6 : Net
  pub transport : Tcp

pub record Parsed (Net Tcp : Type 0) : Type 0 where
  pub decoded : List LayerType
  pub layers : Layers Net Tcp
  pub truncated : Bool

pub record DecodedPacket (Info Net Tcp : Type 0) : Type 0 where
  pub info : Info
  pub decoded : List LayerType
  pub layers : Layers Net Tcp
  pub flow_hash : ℕ
  pub net_flow : Net

-- `largest` is the length of the largest truncated packet.
pub record Decoder (Info Net Tcp : Type 0) : Type 0 where
  pub largest : ℕ
  pub decoded : List (DecodedPacket Info Net Tcp)

abbrev pub batch_size : ℕ
batch_size = 1000

-- FastHash of the two flows.
module _ {Info Net Tcp : Type 0} (net_hash : Net → ℕ) (tcp_hash : Tcp → ℕ) where
  -- A round of the loop over the decoded layers.
  unfoldable pub see_layer : DecodedPacket Info Net Tcp → LayerType → DecodedPacket Info Net Tcp
  see_layer dp ipv4 = record dp { net_flow = dp.layers.ip4 }
  see_layer dp ipv6 = record dp { net_flow = dp.layers.ip6 }
  see_layer dp tcp = record dp {
    flow_hash = hash_combine (net_hash dp.net_flow) (tcp_hash dp.layers.transport);
  }
  see_layer dp ethernet = dp
  see_layer dp loopback = dp
  see_layer dp dot1q = dp
  see_layer dp payload = dp

  unfoldable pub see_layers :
      DecodedPacket Info Net Tcp → List LayerType → DecodedPacket Info Net Tcp
  see_layers dp [] = dp
  see_layers dp (l ∷ ls) = see_layers (see_layer dp l) ls

-- DecodeLayers of the parsers, from a first layer.
module _ {Net Tcp : Type 0}
    (decode_layers : LayerType → Layers Net Tcp → List ℕ → Parsed Net Tcp) where
  -- The first parse, and the second one for a packet that is no TCP packet over Ethernet.
  unfoldable pub parse : Layers Net Tcp → List ℕ → Parsed Net Tcp
  parse layers bytes =
      let eth = decode_layers ethernet layers bytes in
      if is_tcp eth.decoded then eth else decode_layers loopback eth.layers bytes

-- `len` is the Length of a CaptureInfo.
module _ {Info Net Tcp : Type 0}
    (decode_layers : LayerType → Layers Net Tcp → List ℕ → Parsed Net Tcp) (net_hash : Net → ℕ)
    (tcp_hash : Tcp → ℕ) (len : Info → ℕ) where
  unfoldable pub decode :
      ℕ → DecodedPacket Info Net Tcp → PacketData Info → DecodedPacket Info Net Tcp × ℕ
  decode largest dp pd =
      let r = parse decode_layers dp.layers pd.bytes in
      let dp' : DecodedPacket Info Net Tcp = record dp {
        info = pd.info;
        flow_hash = 0;
        decoded = r.decoded;
        layers = r.layers;
      } in
      (
        see_layers net_hash tcp_hash dp' r.decoded,
        if r.truncated && ltb largest (len pd.info) then len pd.info else largest,
      )

  -- The loop of decodeBatch; `none` is a panic, of an index out of range.
  unfoldable pub decode_loop :
      ℕ → ℕ → Decoder Info Net Tcp → PacketBuffer Info → Option (Decoder Info Net Tcp)
  decode_loop zero i d pb = some d
  decode_loop (suc k) i d pb = elim (packet pb i) [
    | none ↦ none
    | some pd ↦ elim (get_elem? d.decoded i) [
      | none ↦ none
      | some dp ↦
          let (dp', largest) = decode d.largest dp pd in
          elim (set_elem d.decoded i dp') [
            | none ↦ none
            | some dps ↦ decode_loop k (suc i) (record { largest = largest; decoded = dps }) pb
          ]
    ]
  ]

  -- decodeBatch: the decoder after it, and what the handler is given; `none` is a panic.
  unfoldable pub decode_batch :
      Decoder Info Net Tcp
      → PacketBuffer Info
      → Option (Decoder Info Net Tcp × List (DecodedPacket Info Net Tcp))
  decode_batch d pb =
      if ltb (length d.decoded) (packet_len pb)
      then none
      else elim (decode_loop (packet_len pb) 0 d pb) [
        | none ↦ none
        | some d' ↦ some (d', take (packet_len pb) d'.decoded)
      ]

-- newDecoder; `blank` is a new DecodedPacket.
unfoldable pub new_decoder :
    {Info Net Tcp : Type 0} → DecodedPacket Info Net Tcp → Decoder Info Net Tcp
new_decoder blank = record { largest = 0; decoded = replicate batch_size blank }
