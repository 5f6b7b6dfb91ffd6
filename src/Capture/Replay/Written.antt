-- ===== src/Capture/Replay/Written.antt =====
-- The loop of (*replayer).CollectPackets in capture/replay.go that writes packets.
use memsniff.Capture.Packets.{
  PacketData, PacketBuffer, packet_len, packet_cap, append, bytes_remaining,
}
use memsniff.Capture.Packets.Refine.{
  IsValid, contents, append_refines, append-packet_cap, length-contents,
}
use memsniff.Capture.Collect.{CollectError, not_read, timed_out, snap_len}
use memsniff.Capture.Replay.{Replayer, is_early, write_loop}
use memsniff.Capture.Replay.Expired.{pending, next_pending, none_pending}
use memsniff.Common.{
  ℕ, zero, suc, ◌+◌, ◌-◌, ◌≤◌, ◌<◌, ◌≡◌, refl, sym, ap, ◌∙◌, true, false, List, [], ◌∷◌, ◌++◌,
  append_assoc, append-nil, Option, none, some, arith, length, ltb, if◌then◌else◌, Bool-cases, inl,
  inr, ◌⊎◌, length-append, subst, ltb_false→le, ltb→lt, ◌==◌,
}

abbrev pub AreSnapped : {Info : Type 0} → List (PacketData Info) → Type 0
AreSnapped [] = Unit
AreSnapped (p ∷ ps) = (length p.bytes ≤ snap_len) × AreSnapped ps

module _ {Info : Type 0} (timestamp : Info → ℕ) where
  abbrev pub InTime : ℕ → ℕ → List (PacketData Info) → Type 0
  InTime first elapsed [] = Unit
  InTime first elapsed (p ∷ ps) =
      (is_early timestamp first elapsed p ≡ false) × InTime first elapsed ps

module _ {Src Info : Type 0} (timestamp : Info → ℕ) where
  -- Why the loop stops: nothing waits, or the buffer has no room; or the next packet is early, and
  -- then it was counted as received.
  abbrev pub WriteStops :
      ℕ → ℕ → Replayer Src Info → PacketBuffer Info → Option CollectError → ℕ → Type 0
  WriteStops first elapsed r pb e over =
      ((over ≡ 0) × (e ≡ none) × ((pending r ≡ []) ⊎ (bytes_remaining pb.packed < snap_len)))
      ⊎ ((over ≡ 1)
          × (e ≡ (if packet_len pb == 0 then some (not_read timed_out) else none))
          × ((p : PacketData Info) × (rest : List (PacketData Info)) × (pending r ≡ p ∷ rest)
              × (is_early timestamp first elapsed p ≡ true)))

  pub record Writes (elapsed : ℕ) (r : Replayer Src Info) (pb : PacketBuffer Info)
      (res : Replayer Src Info × PacketBuffer Info × Option CollectError) : Type 0 where
    pub written : List (PacketData Info)
    pub over : ℕ
    pub flow : pending r ≡ written ++ pending res.0
    pub holds : contents res.1 ≡ contents pb ++ written
    pub valid : IsValid res.1
    pub in_time : InTime timestamp r.first elapsed written
    pub counts : res.0.received ≡ r.received + length written + over
    pub others : res.0 ≡ record r { cursor = res.0.cursor; received = res.0.received }
    pub stops : WriteStops r.first elapsed res.0 res.1 res.2 over

  stopped :
      (elapsed : ℕ) (r : Replayer Src Info) (pb : PacketBuffer Info)
      → IsValid pb
      → ((pending r ≡ []) ⊎ (bytes_remaining pb.packed < snap_len))
      → Writes elapsed r pb (r, pb, none)
  stopped elapsed r pb v s = record {
    written = [];
    over = 0;
    flow = refl;
    holds = sym (append-nil (contents pb));
    valid = v;
    in_time = tt;
    counts = omega arith;
    others = refl;
    stops = inl (refl, refl, s);
  }

  waited :
      (elapsed : ℕ) (r : Replayer Src Info) (pb : PacketBuffer Info) (p : PacketData Info)
      (rest : List (PacketData Info))
      → IsValid pb
      → pending r ≡ p ∷ rest
      → is_early timestamp r.first elapsed p ≡ true
      → Writes elapsed r pb (
        record r { received = suc r.received },
        pb,
        if packet_len pb == 0 then some (not_read timed_out) else none,
      )
  waited elapsed r pb p rest v e h = record {
    written = [];
    over = 1;
    flow = refl;
    holds = sym (append-nil (contents pb));
    valid = v;
    in_time = tt;
    counts = omega arith;
    others = refl;
    stops = inr (refl, refl, (p, rest, e, h));
  }

  abbrev advanced : Replayer Src Info → Replayer Src Info
  advanced r = record r { received = suc r.received; cursor = suc r.cursor }

  one_more :
      (elapsed : ℕ) (r : Replayer Src Info) (pb pb1 : PacketBuffer Info) (p : PacketData Info)
      (res : Replayer Src Info × PacketBuffer Info × Option CollectError)
      → pending r ≡ p ∷ pending (advanced r)
      → is_early timestamp r.first elapsed p ≡ false
      → contents pb1 ≡ contents pb ++ p ∷ []
      → Writes elapsed (advanced r) pb1 res
      → Writes elapsed r pb res
  one_more elapsed r pb pb1 p res e h c w = record {
    written = p ∷ w.written;
    over = w.over;
    flow = e ∙ ap (◌∷◌ p) w.flow;
    holds = w.holds ∙ ap (λ ps. ps ++ w.written) c ∙ append_assoc (contents pb) (p ∷ []) w.written;
    valid = w.valid;
    in_time = (h, w.in_time);
    counts = omega (arith, w.counts);
    others = w.others;
    stops = w.stops;
  }

  pub write_loop-Writes :
      (elapsed k : ℕ) (r : Replayer Src Info) (pb : PacketBuffer Info)
      → IsValid r.buf
      → IsValid pb
      → k ≡ packet_len r.buf - r.cursor
      → packet_len pb + k ≤ packet_cap pb
      → AreSnapped (pending r)
      → Writes elapsed r pb (write_loop timestamp elapsed k r pb)
  unfolding write_loop packet_cap
  write_loop-Writes elapsed zero r pb w v c room sn =
      stopped elapsed r pb v (inl (none_pending r w (omega arith)))
  write_loop-Writes elapsed (suc k) r pb w v c room sn =
      elim (Bool-cases (ltb (bytes_remaining pb.packed) snap_len)) [
        | inl full ↦
            rw (full, write_loop)
              (stopped elapsed r pb v (inr (ltb→lt (bytes_remaining pb.packed) snap_len full)))
        | inr free ↦
            let (p, g, e) = next_pending r w (omega arith) in
            elim (Bool-cases (is_early timestamp r.first elapsed p)) [
              | inl early ↦ rw (free, g, early, write_loop) (waited elapsed r pb p _ v e early)
              | inr on_time ↦
                  let s : AreSnapped (p ∷ pending (advanced r)) = subst AreSnapped e sn in
                  let (ok, v1, c1) =
                    (append_refines pb p v (omega arith)).2 (omega arith) (
                      omega (arith, s.0, ltb_false→le (bytes_remaining pb.packed) snap_len free)) in
                  rw (free, g, on_time, ok, write_loop)
                    (one_more elapsed r pb (append pb p).0 p _ e on_time c1 (
                      write_loop-Writes elapsed k (advanced r) (append pb p).0 w v1 (omega arith)
                        (omega (
                          arith,
                          append-packet_cap pb p,
                          length-contents pb v,
                          length-contents (append pb p).0 v1,
                          ap length c1,
                          length-append (contents pb) (p ∷ []),
                        ))
                        s.1))
            ]
      ]
