-- ===== src/Capture/Packets.antt =====
-- capture/packetbuffer.go: packets packed into one array of bytes, by the offsets where each ends.
pub mod Blocks
pub mod Refine
mod Tests
use memsniff.Common.{
  ℕ, zero, suc, ◌+◌, ◌-◌, Bool, ◌||◌, List, [], ◌∷◌, ◌++◌, Option, none, some, ltb, leb, ◌==◌,
  if◌then◌else◌, length, take, drop, replicate, get_elem?,
}

-- ErrBlocksFull and ErrBytesFull; `panics` is a panic: of Append on a buffer that was not made by
-- NewBlockBuffer with room for a block, or of an index out of range.
pub data AppendError : Type 0 where
  blocks_full bytes_full panics : AppendError

-- The slices grow within the capacities that NewBlockBuffer gives them.
pub record BlockBuffer : Type 0 where
  pub offsets : List ℕ
  pub bytes : List ℕ
  pub max_blocks : ℕ
  pub max_bytes : ℕ

unfoldable pub new_block_buffer : ℕ → ℕ → BlockBuffer
new_block_buffer max_blocks max_bytes = record {
  offsets = [];
  bytes = [];
  max_blocks = max_blocks;
  max_bytes = max_bytes;
}

unfoldable pub bytes_remaining : BlockBuffer → ℕ
bytes_remaining b = b.max_bytes - length b.bytes

-- `data[start:end:end]`; `none` is a panic, of slice bounds out of range.
unfoldable pub slice : ℕ → ℕ → List ℕ → Option (List ℕ)
slice start end bytes =
    if ltb end start || ltb (length bytes) end
    then none
    else some (take (end - start) (drop start bytes))

-- Where block n starts.
unfoldable pub start_of : List ℕ → ℕ → Option ℕ
start_of offsets zero = some 0
start_of offsets (suc m) = get_elem? offsets m

unfoldable pub block : BlockBuffer → ℕ → Option (List ℕ)
block b n = elim (start_of b.offsets n) [
  | none ↦ none
  | some start ↦ elim (get_elem? b.offsets n) [ none ↦ none | some end ↦ slice start end b.bytes ]
]

unfoldable pub block_count : BlockBuffer → ℕ
block_count b = length b.offsets

unfoldable pub clear_blocks : BlockBuffer → BlockBuffer
clear_blocks b = record b { offsets = []; bytes = [] }

unfoldable pub append_block : BlockBuffer → List ℕ → BlockBuffer × Option AppendError
append_block b bytes =
    let end = length b.bytes + length bytes in
    if b.max_blocks == 0
    then (b, some panics)
    else if leb b.max_blocks (length b.offsets)
    then (b, some blocks_full)
    else if ltb b.max_bytes end
    then (b, some bytes_full)
    else (record b { bytes = b.bytes ++ bytes; offsets = b.offsets ++ end ∷ [] }, none)

-- `xs[i] = x`; `none` is a panic, of an index out of range.
unfoldable pub set_elem : {A : Type 0} → List A → ℕ → A → Option (List A)
set_elem [] i x = none
set_elem (y ∷ ys) zero x = some (x ∷ ys)
set_elem (y ∷ ys) (suc i) x = elim (set_elem ys i x) [ none ↦ none | some zs ↦ some (y ∷ zs) ]

-- `Info` is gopacket.CaptureInfo.
pub record PacketData (Info : Type 0) : Type 0 where
  pub info : Info
  pub bytes : List ℕ

pub record PacketBuffer (Info : Type 0) : Type 0 where
  pub packed : BlockBuffer
  pub infos : List Info

module _ {Info : Type 0} where
  -- `blank` is the zero value of a CaptureInfo.
  unfoldable pub new_packet_buffer : Info → ℕ → ℕ → PacketBuffer Info
  new_packet_buffer blank max_packets max_bytes = record {
    packed = new_block_buffer max_packets max_bytes;
    infos = replicate max_packets blank;
  }

  unfoldable pub append :
      PacketBuffer Info → PacketData Info → PacketBuffer Info × Option AppendError
  append pb pd =
      let (packed, e) = append_block pb.packed pd.bytes in
      elim e [
        | some err ↦ (record pb { packed = packed }, some err)
        | none ↦ elim (set_elem pb.infos (length packed.offsets - 1) pd.info) [
          | none ↦ (record pb { packed = packed }, some panics)
          | some infos ↦ (record { packed = packed; infos = infos }, none)
        ]
      ]

  unfoldable pub packet_cap : PacketBuffer Info → ℕ
  packet_cap pb = pb.packed.max_blocks

  unfoldable pub packet_len : PacketBuffer Info → ℕ
  packet_len pb = block_count pb.packed

  unfoldable pub packet : PacketBuffer Info → ℕ → Option (PacketData Info)
  packet pb n = elim (get_elem? pb.infos n) [
    | none ↦ none
    | some info ↦ elim (block pb.packed n) [
      | none ↦ none
      | some bytes ↦ some (record { info = info; bytes = bytes })
    ]
  ]

  unfoldable pub clear : PacketBuffer Info → PacketBuffer Info
  clear pb = record pb { packed = clear_blocks pb.packed }
