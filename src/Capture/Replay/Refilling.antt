-- ===== src/Capture/Replay/Refilling.antt =====
-- The loop of CollectPackets of capture/replay.go that fills.
use memsniff.Capture.Packets.{PacketBuffer, packet_len, packet_cap}
use memsniff.Capture.Packets.Refine.{IsValid, contents}
use memsniff.Capture.Collect.{CollectError}
use memsniff.Capture.Sources.{PacketSource}
use memsniff.Capture.Replay.{Replayer, fill_loop}
use memsniff.Capture.Replay.Expired.{pending, none_pending}
use memsniff.Capture.Replay.Written.{AreSnapped}
use memsniff.Common.{
  false, ℕ, zero, suc, ◌<◌, ◌≡◌, refl, sym, ap, subst, Option, none, some, arith, ltb, Bool-cases,
  inl, inr, ◌⊎◌, ltb_false→le, ltb→lt,
}
use memsniff.Capture.Replay.Settled.{
  limit_of, drop_expired-Settles, IsRoomy, IsLawful, IsSettled, Drops-IsSettled, Drops-AreSnapped,
}
use memsniff.Capture.Replay.Refill.{
  Refills, ready_at, failed_at, filled, fill_ok, loop_ready, loop_failed, loop_again, one_batch,
}

module _ {Src Info : Type 0} (ps : PacketSource Src Info) (timestamp : Info → ℕ) where
  collect_cases :
      (s : Src) (b : PacketBuffer Info)
      → ((s' : Src) × (b' : PacketBuffer Info) × (e : CollectError) × (ps.collect s b
            ≡ (s', b', some e)))
        ⊎ ((s' : Src) × (b' : PacketBuffer Info) × (ps.collect s b ≡ (s', b', none)))
  collect_cases s b = cases (ps.collect s b) refl
    where
      cases :
          (x : Src × PacketBuffer Info × Option CollectError)
          → ps.collect s b ≡ x
          → ((s' : Src) × (b' : PacketBuffer Info) × (e : CollectError) × (ps.collect s b
                ≡ (s', b', some e)))
            ⊎ ((s' : Src) × (b' : PacketBuffer Info) × (ps.collect s b ≡ (s', b', none)))
      cases (s', b', some e) q = inl (s', b', e, q)
      cases (s', b', none) q = inr (s', b', q)

  -- A round of the loop in which the source gives a batch.
  record Round (left : Src → ℕ) (fuel elapsed : ℕ) (r : Replayer Src Info) : Type 0 where
    next : Replayer Src Info
    again : fill_loop ps timestamp (suc fuel) elapsed r ≡ fill_loop ps timestamp fuel elapsed next
    fewer : left next.src < left r.src
    roomy : IsRoomy next.buf
    settled : IsSettled timestamp elapsed next
    snapped : AreSnapped (pending next)
    refills :
        (o : Option (Replayer Src Info × Option CollectError))
        → Refills ps timestamp elapsed next o
        → Refills ps timestamp elapsed r o

  filled-Round :
      (left : Src → ℕ) (fuel elapsed : ℕ) (r : Replayer Src Info) (s : Src) (b : PacketBuffer Info)
      → ltb r.cursor (packet_len r.buf) ≡ false
      → ps.collect r.src r.buf ≡ (s, b, none)
      → left s < left r.src
      → IsValid r.buf
      → IsRoomy b
      → packet_cap b ≡ packet_cap r.buf
      → (0 < packet_len b) × AreSnapped (contents b)
      → Round left fuel elapsed r
  filled-Round left fuel elapsed r s b h c less v v1 large (full, sn) =
      let p = none_pending r v (ltb_false→le r.cursor (packet_len r.buf) h) in
      let (t, f, le, _) = fill_ok ps timestamp r s b c v1.valid full in
      let r1 = filled ps timestamp r s b t in
      let d = drop_expired-Settles timestamp elapsed r1 v1.valid in
      record {
        next = d.after;
        again = loop_again ps timestamp fuel elapsed r r1 d.after h f d.runs;
        fewer = omega (arith, less, ap (λ x. left x.src) d.drops.others);
        roomy = subst (λ x. IsRoomy x.buf) (sym d.drops.others) v1;
        settled = Drops-IsSettled timestamp elapsed r1 d.after none d.drops;
        snapped = Drops-AreSnapped timestamp (limit_of elapsed r1) r1 d.after none d.drops sn;
        refills = λ o f. one_batch ps timestamp elapsed t r d.after s b o c p le large d.drops f;
      }

  pub fill_loop-Refills :
      (left : Src → ℕ)
      → IsLawful ps
      → ((s : Src) (b : PacketBuffer Info)
          → (ps.collect s b).2 ≡ none
          → left (ps.collect s b).0 < left s)
      → (fuel elapsed : ℕ) (r : Replayer Src Info) → left r.src < fuel
      → IsRoomy r.buf
      → IsSettled timestamp elapsed r
      → AreSnapped (pending r)
      → Refills ps timestamp elapsed r (fill_loop ps timestamp fuel elapsed r)
  fill_loop-Refills left law less zero elapsed r lt v st sn = absurd (omega arith)
  fill_loop-Refills left law less (suc fuel) elapsed r lt v st sn =
      elim (Bool-cases (ltb r.cursor (packet_len r.buf))) [
        | inl some_left ↦
            rw (loop_ready ps timestamp fuel elapsed r some_left) (
              ready_at ps timestamp elapsed r v (ltb→lt r.cursor (packet_len r.buf) some_left) st
                sn)
        | inr none_left ↦ elim (collect_cases r.src r.buf) [
          | inl (s, b, e, c) ↦ rw (loop_failed ps timestamp fuel elapsed r s b e none_left c) (
              failed_at ps timestamp elapsed r e s b
                (none_pending r v.valid (ltb_false→le r.cursor (packet_len r.buf) none_left)) c
                (subst (λ x. IsRoomy x.1) c (law.keeps r.src r.buf v))
                (subst (λ x. packet_cap x.1 ≡ packet_cap r.buf) c (law.as_large r.src r.buf)))
          | inr (s, b, c) ↦
              let n =
                filled-Round left fuel elapsed r s b none_left c
                  (subst (λ x. left x.0 < left r.src) c (less r.src r.buf (ap (λ x. x.2) c)))
                  v.valid (subst (λ x. IsRoomy x.1) c (law.keeps r.src r.buf v))
                  (subst (λ x. packet_cap x.1 ≡ packet_cap r.buf) c (law.as_large r.src r.buf))
                  (subst (λ x. (0 < packet_len x.1) × AreSnapped (contents x.1)) c
                    (law.gives r.src r.buf v (ap (λ x. x.2) c))) in
              rw n.again (
                n.refills _ (
                  fill_loop-Refills left law less fuel elapsed n.next (omega (arith, n.fewer))
                    n.roomy n.settled n.snapped))
        ]
      ]
