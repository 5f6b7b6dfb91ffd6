-- ===== src/Capture/Replay/Delivers.antt =====
-- (*replayer).CollectPackets of capture/replay.go as a whole: what becomes of each packet.
use mathlib.Core.List.{flatten}
use memsniff.Capture.Packets.{
  PacketData, PacketBuffer, packet_len, packet_cap, clear, clear_blocks, block_count,
}
use memsniff.Capture.Packets.Refine.{IsValid, contents, clear-IsValid, length-contents}
use memsniff.Capture.Collect.{CollectError}
use memsniff.Capture.Sources.{PacketSource}
use memsniff.Capture.Replay.{
  Replayer, fill_loop, after_drop, after_loop, write_loop, replay_from, replay_packets, started,
  since,
}
use memsniff.Capture.Replay.Expired.{
  pending, old_of, old_of-fresh_of, fresh_of, AreOld, old_of-AreOld, AreOld-append, AreOld-later,
  Drops,
}
use memsniff.Capture.Replay.Written.{AreSnapped, InTime, WriteStops, Writes, write_loop-Writes}
use memsniff.Capture.Replay.Settled.{
  drop_expired-Settles, IsRoomy, IsLawful, Reads, waiting, limit_of, Drops-IsSettled,
  Drops-AreSnapped,
}
use memsniff.Capture.Replay.Refill.{Refills}
use memsniff.Capture.Replay.Refilling.{fill_loop-Refills}
use memsniff.Common.{
  ℕ, ◌+◌, ◌-◌, ◌≤◌, ◌<◌, ◌≡◌, refl, sym, ap, ◌∙◌, subst, List, [], ◌++◌, append_assoc, Option, none,
  some, arith, length, length-append,
}

few : {Info : Type 0} (pb : PacketBuffer Info) → IsValid pb → packet_len pb ≤ packet_cap pb
unfolding packet_len packet_cap block_count
few pb v = v.few

module _ {Src Info : Type 0} (ps : PacketSource Src Info) (timestamp : Info → ℕ) where
  -- How a call ends: with the error of its source, or as the loop that writes does.
  abbrev pub DeliveryEnds :
      ℕ
      → Replayer Src Info
      → PacketBuffer Info
      → Option CollectError
      → List (PacketData Info)
      → ℕ
      → Option CollectError
      → Type 0
  DeliveryEnds elapsed after out error written over none =
      WriteStops timestamp after.first elapsed after out error over
  DeliveryEnds elapsed after out error written over (some e) =
      (error ≡ some e) × (written ≡ []) × (over ≡ 0)

  pub record Delivers (elapsed : ℕ) (r : Replayer Src Info)
      (o : Option (Replayer Src Info × PacketBuffer Info × Option CollectError)) : Type 0 where
    pub after : Replayer Src Info
    pub out : PacketBuffer Info
    pub error : Option CollectError
    pub found : o ≡ some (after, out, error)
    pub batches : List (List (PacketData Info))
    pub source_error : Option CollectError
    pub gone : List (PacketData Info)
    pub written : List (PacketData Info)
    pub over : ℕ
    pub read : Reads ps r.src r.buf batches after.src after.buf source_error
    pub flow : pending r ++ flatten batches ≡ gone ++ (written ++ waiting after source_error)
    pub old : AreOld timestamp (limit_of elapsed after) gone
    pub in_time : InTime timestamp after.first elapsed written
    pub valid : IsValid out
    pub holds : contents out ≡ written
    pub dropped : after.dropped ≡ r.dropped + length gone
    pub received : after.received ≡ r.received + length written + over
    pub ends : DeliveryEnds elapsed after out error written over source_error

  -- A call that begins with a dropExpired that drops some packets.
  dropping :
      (elapsed : ℕ) (r r1 : Replayer Src Info)
      (o : Option (Replayer Src Info × PacketBuffer Info × Option CollectError))
      → Drops timestamp (limit_of elapsed r) r (r1, none)
      → (f : Delivers elapsed r1 o) → r1.first ≤ f.after.first
      → Delivers elapsed r o
  dropping elapsed r r1 o d f le = record {
    after = f.after;
    out = f.out;
    error = f.error;
    found = f.found;
    batches = f.batches;
    source_error = f.source_error;
    gone = lost ++ f.gone;
    written = f.written;
    over = f.over;
    read =
        subst (λ x. Reads ps x.src x.buf f.batches f.after.src f.after.buf f.source_error) d.others
          f.read;
    flow =
        ap (λ qs. qs ++ flatten f.batches) (sym (old_of-fresh_of timestamp limit (pending r)))
        ∙ append_assoc lost (fresh_of timestamp limit (pending r)) (flatten f.batches)
        ∙ ap (λ qs. lost ++ (qs ++ flatten f.batches)) (sym d.waits)
        ∙ ap (λ qs. lost ++ qs) f.flow
        ∙ sym (append_assoc lost f.gone (f.written ++ waiting f.after f.source_error));
    old =
        AreOld-append timestamp (limit_of elapsed f.after) lost f.gone
          (AreOld-later timestamp limit (limit_of elapsed f.after) lost
            (omega (arith, le, ap (λ x. x.first) d.others))
            (old_of-AreOld timestamp limit (pending r)))
          f.old;
    in_time = f.in_time;
    valid = f.valid;
    holds = f.holds;
    dropped = omega (arith, f.dropped, d.counts, length-append lost f.gone);
    received = f.received ∙ ap (λ n. n + length f.written + f.over) (ap (λ x. x.received) d.others);
    ends = f.ends;
  }
    where
      limit : ℕ
      limit = limit_of elapsed r

      lost : List (PacketData Info)
      lost = old_of timestamp limit (pending r)

  -- The loop that fills has failed.
  not_filled :
      (elapsed : ℕ) (r : Replayer Src Info) (pb : PacketBuffer Info)
      (o : Option (Replayer Src Info × Option CollectError))
      → IsValid pb
      → contents pb ≡ []
      → (f : Refills ps timestamp elapsed r o) → (e : CollectError) → f.error ≡ some e
      → (d : Delivers elapsed r (after_loop timestamp elapsed pb o)) × (r.first ≤ d.after.first)
  unfolding after_loop
  not_filled elapsed r pb o v c f e q = (
    record {
      after = f.after;
      out = pb;
      error = some e;
      found = ap (after_loop timestamp elapsed pb) (f.found ∙ ap (λ x. some (f.after, x)) q);
      batches = f.batches;
      source_error = some e;
      gone = f.gone;
      written = [];
      over = 0;
      read = subst (Reads ps r.src r.buf f.batches f.after.src f.after.buf) q f.read;
      flow = subst (λ x. pending r ++ flatten f.batches ≡ f.gone ++ waiting f.after x) q f.flow;
      old = f.old;
      in_time = tt;
      valid = v;
      holds = c;
      dropped = f.counts;
      received = omega (arith, f.received);
      ends = (refl, refl, refl);
    },
    f.later,
  )

  -- The loop that writes follows the one that fills.
  filled_well :
      (elapsed : ℕ) (r : Replayer Src Info) (pb : PacketBuffer Info)
      (o : Option (Replayer Src Info × Option CollectError))
      → IsValid pb
      → contents pb ≡ []
      → packet_cap r.buf ≤ packet_cap pb
      → (f : Refills ps timestamp elapsed r o) → f.error ≡ none
      → (d : Delivers elapsed r (after_loop timestamp elapsed pb o)) × (r.first ≤ d.after.first)
  unfolding after_loop
  filled_well elapsed r pb o v c cap f q = (
    record {
      after = res.0;
      out = res.1;
      error = res.2;
      found = ap (after_loop timestamp elapsed pb) (f.found ∙ ap (λ x. some (f.after, x)) q);
      batches = f.batches;
      source_error = none;
      gone = f.gone;
      written = w.written;
      over = w.over;
      read =
          subst (λ x. Reads ps r.src r.buf f.batches x.src x.buf none) (sym w.others)
            (subst (Reads ps r.src r.buf f.batches f.after.src f.after.buf) q f.read);
      flow =
          subst (λ x. pending r ++ flatten f.batches ≡ f.gone ++ waiting f.after x) q f.flow
          ∙ ap (λ qs. f.gone ++ qs) w.flow;
      old = subst (λ t. AreOld timestamp (t + elapsed) f.gone) (sym same_first) f.old;
      in_time = subst (λ t. InTime timestamp t elapsed w.written) (sym same_first) w.in_time;
      valid = w.valid;
      holds = w.holds ∙ ap (λ qs. qs ++ w.written) c;
      dropped = ap (λ x. x.dropped) w.others ∙ f.counts;
      received = w.counts ∙ ap (λ n. n + length w.written + w.over) f.received;
      ends =
          subst (λ t. WriteStops timestamp t elapsed res.0 res.1 res.2 w.over) (sym same_first)
            w.stops;
    },
    subst (λ t. r.first ≤ t) (sym same_first) f.later,
  )
    where
      res : Replayer Src Info × PacketBuffer Info × Option CollectError
      res = write_loop timestamp elapsed (packet_len f.after.buf - f.after.cursor) f.after pb

      fits : packet_len pb + (packet_len f.after.buf - f.after.cursor) ≤ packet_cap pb
      fits =
          omega (
            arith,
            length-contents pb v,
            ap length c,
            few f.after.buf f.roomy.valid,
            f.as_large,
            cap,
          )

      w : Writes timestamp elapsed f.after pb res
      w =
          write_loop-Writes timestamp elapsed (packet_len f.after.buf - f.after.cursor) f.after pb
            f.roomy.valid v refl fits (f.ready q).2

      same_first : res.0.first ≡ f.after.first
      same_first = ap (λ x. x.first) w.others

  filled :
      (elapsed : ℕ) (r : Replayer Src Info) (pb : PacketBuffer Info)
      (o : Option (Replayer Src Info × Option CollectError))
      → IsValid pb
      → contents pb ≡ []
      → packet_cap r.buf ≤ packet_cap pb
      → (f : Refills ps timestamp elapsed r o) → (e : Option CollectError) → f.error ≡ e
      → (d : Delivers elapsed r (after_loop timestamp elapsed pb o)) × (r.first ≤ d.after.first)
  filled elapsed r pb o v c cap f none q = filled_well elapsed r pb o v c cap f q
  filled elapsed r pb o v c cap f (some e) q = not_filled elapsed r pb o v c f e q

  replay_from-Delivers :
      (left : Src → ℕ) (fuel elapsed : ℕ) (r : Replayer Src Info) (pb : PacketBuffer Info)
      → IsLawful ps
      → ((s : Src) (b : PacketBuffer Info)
          → (ps.collect s b).2 ≡ none
          → left (ps.collect s b).0 < left s)
      → left r.src < fuel
      → IsRoomy r.buf
      → IsValid pb
      → contents pb ≡ []
      → packet_cap r.buf ≤ packet_cap pb
      → AreSnapped (pending r)
      → Delivers elapsed r (replay_from ps timestamp fuel elapsed r pb)
  unfolding replay_from after_drop
  replay_from-Delivers left fuel elapsed r pb law less lt v vp c cap sn =
      let d = drop_expired-Settles timestamp elapsed r v.valid in
      let r1 = d.after in
      let f =
        fill_loop-Refills ps timestamp left law less fuel elapsed r1
          (omega (arith, lt, ap (λ x. left x.src) d.drops.others))
          (subst (λ x. IsRoomy x.buf) (sym d.drops.others) v)
          (Drops-IsSettled timestamp elapsed r r1 none d.drops)
          (Drops-AreSnapped timestamp (limit_of elapsed r) r r1 none d.drops sn) in
      let (g, le) =
        filled elapsed r1 pb (fill_loop ps timestamp fuel elapsed r1) vp c
          (omega (arith, cap, ap (λ x. packet_cap x.buf) d.drops.others)) f f.error refl in
      subst
        (λ x. Delivers elapsed r (
          after_loop timestamp elapsed pb
            (after_drop timestamp (fill_loop ps timestamp fuel elapsed) x)))
        (sym d.runs) (dropping elapsed r r1 _ d.drops g le)

  -- CollectPackets of the replayer, over a source that keeps buffers valid, gives at least one
  -- packet where it returns nil, and gives a bounded number of batches, into a valid buffer at
  -- least as large as its own: with enough fuel it returns, and the packets that waited and
  -- those that the source gave are, in order, those it dropped as expired, counted as dropped,
  -- those it wrote, none of them early, and those that wait; it returns the source's error with
  -- nothing written, or stops with nothing left, no room, or an early packet, which is then
  -- counted as received too.
  pub replay_packets-Delivers :
      (left : Src → ℕ) (fuel now later : ℕ) (r : Replayer Src Info) (pb : PacketBuffer Info)
      → IsLawful ps
      → ((s : Src) (b : PacketBuffer Info)
          → (ps.collect s b).2 ≡ none
          → left (ps.collect s b).0 < left s)
      → left r.src < fuel
      → IsRoomy r.buf
      → IsValid pb
      → packet_cap r.buf ≤ packet_cap pb
      → AreSnapped (pending r)
      → Delivers
          (since later (started now r).start)
          (started now r)
          (replay_packets ps timestamp fuel now later r pb)
  unfolding replay_packets packet_cap clear clear_blocks
  replay_packets-Delivers left fuel now later r pb law less lt v vp cap sn =
      replay_from-Delivers left fuel (since later (started now r).start) (started now r) (clear pb)
        law less lt v (clear-IsValid pb vp).0 (clear-IsValid pb vp).1 cap sn
