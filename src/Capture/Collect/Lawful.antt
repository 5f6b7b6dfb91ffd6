-- ===== src/Capture/Collect/Lawful.antt =====
-- What (source).CollectPackets of capture/capture.go gives the replayer of capture/replay.go.
use memsniff.Capture.Packets.{
  PacketData, PacketBuffer, append, append_block, packet_cap, packet_len, clear, clear_blocks,
  bytes_remaining,
}
use memsniff.Capture.Packets.Refine.{
  IsValid, contents, append_refines, append-packet_cap, clear-IsValid, length-contents,
}
use memsniff.Capture.Collect.{
  snap_len, ReadError, ends_batch, not_read, ReadResult, collect_loop, collect_packets, Gives,
  Snaps, collect_packets-Collects, collect_loop-Collects, loop_fails, loop_reads, next_cases,
}
use memsniff.Capture.Sources.{source}
use memsniff.Capture.Replay.Written.{AreSnapped}
use memsniff.Capture.Replay.Settled.{IsRoomy, IsLawful}
use memsniff.Common.{
  ℕ, zero, suc, ◌≤◌, ◌<◌, ◌≡◌, ◌≢◌, refl, sym, ap, ◌∙◌, subst, false, ◌&&◌, List, [], ◌∷◌, ◌++◌,
  none, some, ltb, if◌then◌else◌, length, length-append, arith, Bool-cases, inl, inr, le→ltb_false,
}

append_max_bytes :
    {Info : Type 0} (pb : PacketBuffer Info) (pd : PacketData Info)
    → (append pb pd).0.packed.max_bytes ≡ pb.packed.max_bytes
unfolding append append_block
append_max_bytes pb pd = ground arith

module _ {Info Handle : Type 0} (next : Handle → Handle × ReadResult Info) where
  as_large :
      (k i : ℕ) (h : Handle) (pb : PacketBuffer Info)
      → (packet_cap (collect_loop next k i h pb).1 ≡ packet_cap pb)
        × ((collect_loop next k i h pb).1.packed.max_bytes ≡ pb.packed.max_bytes)
  unfolding collect_loop
  as_large zero i h pb = (refl, refl)
  as_large (suc k) i h pb = grind (arith, as_large k (suc i), append-packet_cap, append_max_bytes)

  Gives-AreSnapped :
      (ps : List (PacketData Info)) (h h' : Handle)
      → Snaps next
      → Gives next h ps h'
      → AreSnapped ps
  Gives-AreSnapped [] h h' sn g = tt
  Gives-AreSnapped (p ∷ ps) h h' sn (h1, e, g) = (sn h h1 p e, Gives-AreSnapped ps h1 h' sn g)

  fails_first :
      (err : ReadError) → (if ends_batch err && ltb 0 0 then none else some (not_read err)) ≢ none
  fails_first err h = elim (Bool-cases (ends_batch err)) [
    | inl e ↦ absurd (ground (arith, h, e))
    | inr e ↦ absurd (ground (arith, h, e))
  ]

  -- With room for a packet, the loop returns nil only behind a first packet.
  one_at_least :
      (k : ℕ) (h : Handle) (pb : PacketBuffer Info)
      → Snaps next
      → IsValid pb
      → contents pb ≡ []
      → suc k ≤ packet_cap pb
      → snap_len ≤ bytes_remaining pb.packed
      → (collect_loop next (suc k) 0 h pb).2 ≡ none
      → 0 < length (contents (collect_loop next (suc k) 0 h pb).1)
  one_at_least k h pb sn v c room bytes e = elim (next_cases next h) [
    | inl (h', err, n) ↦
        absurd (fails_first err (sym (ap (λ x. x.2) (loop_fails next k 0 h h' pb err free n)) ∙ e))
    | inr (h', pd, n) ↦
        let (ok, v1, c1) =
          (append_refines pb pd v (unfold packet_cap in omega arith)).2
            (unfold packet_cap in omega (arith, length-contents pb v, ap length c))
            (omega (arith, sn h h' pd n)) in
        let q = loop_reads next k 0 h h' pb pd free n ok in
        let r = collect_loop-Collects next k 1 h' (append pb pd).0 sn v1 (
          omega (
            arith,
            append-packet_cap pb pd,
            length-contents pb v,
            length-contents (append pb pd).0 v1,
            ap length c1,
            length-append (contents pb) (pd ∷ []),
            ap length c,
          )) in
        omega (
          arith,
          ap (λ x. length (contents x.1)) q,
          ap length r.collected,
          ap length c1,
          length-append (contents (append pb pd).0) r.packets,
          length-append (contents pb) (pd ∷ []),
        )
  ]
    where
      free : ltb (bytes_remaining pb.packed) snap_len ≡ false
      free = le→ltb_false (bytes_remaining pb.packed) snap_len bytes

  starts :
      (k : ℕ) (h : Handle) (pb : PacketBuffer Info)
      → Snaps next
      → IsValid pb
      → contents pb ≡ []
      → 0 < k
      → k ≤ packet_cap pb
      → snap_len ≤ bytes_remaining pb.packed
      → (collect_loop next k 0 h pb).2 ≡ none
      → 0 < length (contents (collect_loop next k 0 h pb).1)
  starts zero h pb sn v c pos_k room bytes e = absurd (omega arith)
  starts (suc k) h pb sn v c pos_k room bytes e = one_at_least k h pb sn v c room bytes e

  valid_after :
      (s : Handle) (pb : PacketBuffer Info)
      → Snaps next
      → IsRoomy pb
      → IsRoomy (collect_packets next s pb).1
  unfolding collect_packets packet_cap clear clear_blocks
  valid_after s pb sn v =
      let (blocks, bytes) = as_large (packet_cap pb) 0 s (clear pb) in
      record {
        valid = (collect_packets-Collects next s pb sn v.valid).valid;
        blocks = omega (arith, blocks, v.blocks);
        bytes = omega (arith, bytes, v.bytes);
      }

  gives_packets :
      (s : Handle) (pb : PacketBuffer Info)
      → Snaps next
      → IsRoomy pb
      → (collect_packets next s pb).2 ≡ none
      → (0 < packet_len (collect_packets next s pb).1)
        × AreSnapped (contents (collect_packets next s pb).1)
  gives_packets s pb sn v e =
      let r = collect_packets-Collects next s pb sn v.valid in
      let (clean, none_yet) = clear-IsValid pb v.valid in
      let some_read : 0 < length (contents (collect_packets next s pb).1) =
        unfold collect_packets packet_cap clear clear_blocks bytes_remaining in
        starts (packet_cap pb) s (clear pb) sn clean none_yet v.blocks (omega arith)
          (omega (arith, v.bytes)) e in
      (
        omega (arith, length-contents (collect_packets next s pb).1 r.valid, some_read),
        subst AreSnapped (sym (r.collected ∙ ap (λ ps. ps ++ r.packets) none_yet))
            (Gives-AreSnapped r.packets s r.between sn r.given),
      )

  pub source-IsLawful : Snaps next → IsLawful (source next)
  unfolding collect_packets packet_cap clear clear_blocks
  source-IsLawful sn = record {
    keeps = λ s pb v. valid_after s pb sn v;
    as_large = λ s pb. (as_large (packet_cap pb) 0 s (clear pb)).0;
    gives = λ s pb v e. gives_packets s pb sn v e;
  }
