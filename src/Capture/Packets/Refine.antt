-- ===== src/Capture/Packets/Refine.antt =====
-- What a PacketBuffer (capture/packetbuffer.go) promises: it is a list of packets.
use memsniff.Capture.Packets.{
  AppendError, blocks_full, bytes_full, BlockBuffer, block, start_of, append_block, clear_blocks,
  set_elem, PacketData, PacketBuffer, new_packet_buffer, new_block_buffer, append, packet_len,
  packet_cap, packet, clear, block_count, bytes_remaining,
}
use memsniff.Capture.Packets.Blocks.{
  Rises, blocks_of, Rises-snoc, blocks_of-snoc, length-blocks_of, get_elem?-blocks_of,
}
use memsniff.Common.{
  ℕ, zero, suc, ◌+◌, ◌-◌, ◌≤◌, ◌<◌, ◌≡◌, refl, sym, ap, ◌∙◌, List, [], ◌∷◌, ◌++◌, Option, none,
  some, arith, length, get_elem?, length-append, length-replicate, subst,
}

module _ {Info : Type 0} where
  unfoldable pub packets_of : List Info → List (List ℕ) → List (PacketData Info)
  packets_of is [] = []
  packets_of [] (b ∷ bs) = []
  packets_of (i ∷ is) (b ∷ bs) = record { info = i; bytes = b } ∷ packets_of is bs

  abbrev pub blocks : PacketBuffer Info → List (List ℕ)
  blocks pb = blocks_of 0 pb.packed.offsets pb.packed.bytes

  -- The packets that a buffer holds.
  abbrev pub contents : PacketBuffer Info → List (PacketData Info)
  contents pb = packets_of pb.infos (blocks pb)

-- The offsets rise to the end of the bytes, within the capacities.
pub record IsValid {Info : Type 0} (pb : PacketBuffer Info) : Type 0 where
  pub rises : Rises 0 pb.packed.offsets (length pb.packed.bytes)
  pub few : length pb.packed.offsets ≤ pb.packed.max_blocks
  pub small : length pb.packed.bytes ≤ pb.packed.max_bytes
  pub one_info_each : length pb.infos ≡ pb.packed.max_blocks

module _ {Info : Type 0} where
  -- The info of one block more.
  set_elem-packets_of :
      (is : List Info) (bs : List (List ℕ)) (i : Info) (b : List ℕ)
      → length bs < length is
      → (js : List Info) × (set_elem is (length bs) i ≡ some js)
        × (length js ≡ length is)
        × (packets_of js (bs ++ b ∷ []) ≡ packets_of is bs ++ record { info = i; bytes = b } ∷ [])
  unfolding set_elem packets_of
  set_elem-packets_of [] bs i b h = absurd (omega arith)
  set_elem-packets_of (j ∷ js) [] i b h = (i ∷ js, refl, refl, refl)
  set_elem-packets_of (j ∷ js) (c ∷ bs) i b h =
      let (ks, e, l, p) = set_elem-packets_of js bs i b (omega arith) in
      (j ∷ ks, rw e refl, ap suc l, ap (◌∷◌ (record { info = j; bytes = c })) p)

  get_elem?-packets_of :
      (is : List Info) (bs : List (List ℕ)) (n : ℕ)
      → length bs ≤ length is
      → get_elem? (packets_of is bs) n ≡ elim (get_elem? is n) [
        | none ↦ none
        | some i ↦ elim (get_elem? bs n) [
          | none ↦ none
          | some b ↦ some (record { info = i; bytes = b })
        ]
      ]
  unfolding packets_of
  get_elem?-packets_of [] [] n h = refl
  get_elem?-packets_of (i ∷ is) [] zero h = refl
  get_elem?-packets_of (i ∷ is) [] (suc n) h = ground arith
  get_elem?-packets_of [] (b ∷ bs) n h = absurd (omega arith)
  get_elem?-packets_of (i ∷ is) (b ∷ bs) zero h = refl
  get_elem?-packets_of (i ∷ is) (b ∷ bs) (suc n) h = get_elem?-packets_of is bs n (omega arith)

  length-packets_of :
      (is : List Info) (bs : List (List ℕ))
      → length bs ≤ length is
      → length (packets_of is bs) ≡ length bs
  unfolding packets_of
  length-packets_of is [] h = refl
  length-packets_of [] (b ∷ bs) h = absurd (omega arith)
  length-packets_of (i ∷ is) (b ∷ bs) h = ap suc (length-packets_of is bs (omega arith))

-- A buffer with one block more.
abbrev longer : BlockBuffer → List ℕ → BlockBuffer
longer b bytes = record b {
  bytes = b.bytes ++ bytes;
  offsets = b.offsets ++ (length b.bytes + length bytes) ∷ [];
}

block-blocks_of :
    (b : BlockBuffer) (n : ℕ)
    → Rises 0 b.offsets (length b.bytes)
    → block b n ≡ get_elem? (blocks_of 0 b.offsets b.bytes) n
unfolding block start_of
block-blocks_of b zero r = ground (arith, get_elem?-blocks_of 0 b.offsets b.bytes 0 r)
block-blocks_of b (suc n) r = ground (arith, get_elem?-blocks_of 0 b.offsets b.bytes (suc n) r)

module _ {Info : Type 0} where
  -- Packet returns, for every index, the packet that stands there in the list of packets that a
  -- valid buffer holds, and panics past its end.
  pub packet-contents :
      (pb : PacketBuffer Info) (n : ℕ) → IsValid pb → packet pb n ≡ get_elem? (contents pb) n
  unfolding packet
  packet-contents pb n v = ground (
    arith,
    block-blocks_of pb.packed n v.rises,
    get_elem?-packets_of pb.infos (blocks pb) n (
        omega
          (arith, length-blocks_of 0 pb.packed.offsets pb.packed.bytes, v.few, v.one_info_each)),
  )

  pub length-contents : (pb : PacketBuffer Info) → IsValid pb → length (contents pb) ≡ packet_len pb
  unfolding packet_len block_count
  length-contents pb v =
      length-packets_of pb.infos (blocks pb) (
        omega (arith, length-blocks_of 0 pb.packed.offsets pb.packed.bytes, v.few, v.one_info_each))
      ∙ length-blocks_of 0 pb.packed.offsets pb.packed.bytes

  abbrev pub Appended :
      PacketBuffer Info → PacketData Info → PacketBuffer Info × Option AppendError → Type 0
  Appended pb pd r = (r.1 ≡ none) × IsValid r.0 × (contents r.0 ≡ contents pb ++ pd ∷ [])

  append_room :
      (pb : PacketBuffer Info) (pd : PacketData Info) (js : List Info)
      → packet_len pb < pb.packed.max_blocks
      → length pd.bytes ≤ bytes_remaining pb.packed
      → length pb.packed.bytes ≤ pb.packed.max_bytes
      → set_elem pb.infos (length pb.packed.offsets) pd.info ≡ some js
      → append pb pd ≡ (record { packed = longer pb.packed pd.bytes; infos = js }, none)
  unfolding append append_block packet_len block_count bytes_remaining
  append_room pb pd js room fits small e = ground (
    arith,
    length-append pb.packed.offsets ((length pb.packed.bytes + length pd.bytes) ∷ []),
    last,
  )
    where
      last : length (longer pb.packed pd.bytes).offsets - 1 ≡ length pb.packed.offsets
      last =
          omega (
            arith,
            length-append pb.packed.offsets ((length pb.packed.bytes + length pd.bytes) ∷ []),
          )

  -- Append to a valid packet buffer with room for at least one packet: with all places taken it
  -- returns ErrBlocksFull, with too few bytes left ErrBytesFull, and both change nothing;
  -- otherwise it returns nil and the valid buffer holds the packets from before and then the
  -- new one.
  pub append_refines :
      (pb : PacketBuffer Info) (pd : PacketData Info)
      → IsValid pb
      → 0 < pb.packed.max_blocks
      → (pb.packed.max_blocks ≤ packet_len pb → append pb pd ≡ (pb, some blocks_full))
        × (packet_len pb < pb.packed.max_blocks
            → bytes_remaining pb.packed < length pd.bytes
            → append pb pd ≡ (pb, some bytes_full))
        × (packet_len pb < pb.packed.max_blocks
            → length pd.bytes ≤ bytes_remaining pb.packed
            → Appended pb pd (append pb pd))
  unfolding append append_block packet_len block_count bytes_remaining
  append_refines pb pd v h = ((λ full. ground arith), (λ room full. ground arith), appended)
    where
      count : length (blocks pb) ≡ length pb.packed.offsets
      count = length-blocks_of 0 pb.packed.offsets pb.packed.bytes

      appended :
          packet_len pb < pb.packed.max_blocks
          → length pd.bytes ≤ bytes_remaining pb.packed
          → Appended pb pd (append pb pd)
      appended room fits =
          let (js, set, l, p) =
            set_elem-packets_of pb.infos (blocks pb) pd.info pd.bytes
              (omega (arith, count, v.one_info_each)) in
          rw
            (append_room pb pd js room fits v.small
              (subst (λ k. set_elem pb.infos k pd.info ≡ some js) count set))
            (
              refl,
              record {
                rises =
                    subst (Rises 0 (longer pb.packed pd.bytes).offsets)
                      (sym (length-append pb.packed.bytes pd.bytes))
                      (Rises-snoc 0 pb.packed.offsets (length pb.packed.bytes) (length pd.bytes)
                        v.rises);
                few = omega (
                  arith,
                  length-append pb.packed.offsets ((length pb.packed.bytes + length pd.bytes) ∷ []),
                );
                small = omega (arith, v.small, length-append pb.packed.bytes pd.bytes);
                one_info_each = l ∙ v.one_info_each;
              },
              ap (packets_of js)
                    (blocks_of-snoc 0 pb.packed.offsets pb.packed.bytes pd.bytes v.rises)
                  ∙ p,
            )

  pub append-packet_cap :
      (pb : PacketBuffer Info) (pd : PacketData Info) → packet_cap (append pb pd).0 ≡ packet_cap pb
  unfolding packet_cap append append_block
  append-packet_cap pb pd = ground arith

  -- NewPacketBuffer and Clear.
  pub new_packet_buffer-IsValid :
      (blank : Info) (max_packets max_bytes : ℕ)
      → IsValid (new_packet_buffer blank max_packets max_bytes)
  unfolding new_packet_buffer new_block_buffer
  new_packet_buffer-IsValid blank max_packets max_bytes = record {
    rises = refl;
    few = omega arith;
    small = omega arith;
    one_info_each = length-replicate max_packets blank;
  }

  pub clear-IsValid :
      (pb : PacketBuffer Info) → IsValid pb → IsValid (clear pb) × (contents (clear pb) ≡ [])
  unfolding clear clear_blocks blocks_of packets_of
  clear-IsValid pb v = (
    record {
      rises = refl;
      few = omega arith;
      small = omega arith;
      one_info_each = v.one_info_each;
    },
    refl,
  )
