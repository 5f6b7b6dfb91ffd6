-- ===== src/Capture/Replay/Discards.antt =====
-- (*replayer).DiscardPacket of capture/replay.go.
use memsniff.Capture.Packets.{PacketData, PacketBuffer, packet, packet_len}
use memsniff.Capture.Packets.Refine.{IsValid}
use memsniff.Capture.Collect.{CollectError, not_read, timed_out}
use memsniff.Capture.Sources.{PacketSource}
use memsniff.Capture.Replay.{
  Replayer, replayer_timeout, since, with_timeout, discard_next, discard_replayed,
}
use memsniff.Capture.Replay.Settled.{IsFirstTime, IsLawful, IsRoomy}
use memsniff.Capture.Replay.Refill.{filled, fill_ok, fill_failed}
use memsniff.Capture.Replay.Expired.{pending, next_pending}
use memsniff.Word.{wrap}
use memsniff.Common.{
  ℕ, suc, ◌-◌, ◌^◌, ◌≤◌, ◌<◌, ◌≡◌, refl, ap, ◌∙◌, subst, Bool, true, false, List, ◌∷◌, Option, none,
  some, arith, ◌==◌, lt→ltb, le→ltb_false, Bool-cases, inl, inr, ◌⊎◌, pos, negsuc, ◌-ℤ◌, ltb_ℤ, min,
}

module _ {Src Info : Type 0} (timestamp : Info → ℕ) where
  -- The packet's time, counted from the first packet, is further than the timeout ahead.
  abbrev pub is_ahead : ℕ → Replayer Src Info → PacketData Info → Bool
  is_ahead now r p =
      ltb_ℤ (with_timeout (since now r.start)) (pos (timestamp p.info) -ℤ pos r.first)

  -- The first packet that waits is discarded, or stays.
  abbrev pub Discards : ℕ → Replayer Src Info → Replayer Src Info × Option CollectError → Type 0
  Discards now r res =
      (p : PacketData Info) × (rest : List (PacketData Info)) × (pending r ≡ p ∷ rest)
      × (((is_ahead now r p ≡ false)
            × (pending res.0 ≡ rest)
            × (res.1 ≡ none)
            × (res.0 ≡ record r { cursor = res.0.cursor; received = suc r.received }))
          ⊎ ((is_ahead now r p ≡ true) × (res ≡ (r, some (not_read timed_out)))))

  pub discard_next-Discards :
      (now : ℕ) (r : Replayer Src Info)
      → IsValid r.buf
      → r.cursor < packet_len r.buf
      → Discards now r (discard_next timestamp now r)
  unfolding discard_next
  discard_next-Discards now r v h =
      let (p, g, e) = next_pending r v h in
      elim (Bool-cases (is_ahead now r p)) [
        | inl a ↦ (p, _, e, inr (a, rw (g, a, discard_next) refl))
        | inr b ↦
            let k : discard_next timestamp now r
                ≡ (record r { cursor = suc r.cursor; received = suc r.received }, none) =
              rw (g, b, discard_next) refl in
            rw k (p, _, e, inl (b, refl, refl, refl))
      ]

-- The longest Duration and the timeout wrap round to a time in the past.
since-with_timeout :
    (now : ℕ) → 2 ^ 63 ≤ now → with_timeout (since now 0) ≡ negsuc (2 ^ 63 - replayer_timeout)
unfolding since with_timeout wrap
since-with_timeout now h =
    let e : min (now - 0) (2 ^ 63 - 1) ≡ 2 ^ 63 - 1 = omega arith in rw e refl

module _ {Src Info : Type 0} (timestamp : Info → ℕ) where
  -- Before the first CollectPackets, more than 2^63 nanoseconds after Go's zero time,
  -- DiscardPacket of the replayer returns a timeout for any packet that is not older than the
  -- first one, since the longest Duration plus the timeout wraps round.
  pub discard_unstarted :
      (now : ℕ) (r : Replayer Src Info) (p : PacketData Info)
      → r.start ≡ 0
      → 2 ^ 63 ≤ now
      → packet r.buf r.cursor ≡ some p
      → r.first ≤ timestamp p.info
      → discard_next timestamp now r ≡ (r, some (not_read timed_out))
  unfolding discard_next
  discard_unstarted now r p z h g le =
      let e : with_timeout (since now r.start) ≡ negsuc (2 ^ 63 - replayer_timeout) =
        ap (λ s. with_timeout (since now s)) z ∙ since-with_timeout now h in
      ground (arith, g, e)

module _ {Src Info : Type 0} (ps : PacketSource Src Info) (timestamp : Info → ℕ) where
  -- DiscardPacket with no packet in the buffer, by what the source returns.
  pub record Fetches (now : ℕ) (r : Replayer Src Info)
      (res : Replayer Src Info × Option CollectError) : Type 0 where
    pub failed :
        (s : Src) (b : PacketBuffer Info) (e : CollectError)
        → ps.collect r.src r.buf ≡ (s, b, some e)
        → res ≡ (record r { src = s; buf = b }, some e)
    pub fetched :
        (s : Src) (b : PacketBuffer Info)
        → ps.collect r.src r.buf ≡ (s, b, none)
        → (t : ℕ) × IsFirstTime timestamp r b t
          × Discards timestamp now (record r { src = s; buf = b; cursor = 0; first = t }) res

  -- DiscardPacket of the replayer, over a source that keeps buffers valid and gives at least
  -- one packet where it returns nil: with a packet waiting it passes the first one and counts
  -- it as received, or, if that first one is further ahead than the timeout, returns a timeout
  -- and changes nothing; with none it asks its source, returns the source's error, and
  -- otherwise does the same with the first packet that the source gave, whose time becomes the
  -- first time if there is none yet.
  pub discard_replayed-Discards :
      (now : ℕ) (r : Replayer Src Info)
      → IsLawful ps
      → IsRoomy r.buf
      → (r.cursor < packet_len r.buf
          → Discards timestamp now r (discard_replayed ps timestamp now r))
        × (packet_len r.buf ≤ r.cursor → Fetches now r (discard_replayed ps timestamp now r))
  unfolding discard_replayed
  discard_replayed-Discards now r law v = (
    λ lt.
        rw (lt→ltb r.cursor (packet_len r.buf) lt)
          (discard_next-Discards timestamp now r v.valid lt),
    λ le. record {
      failed = λ s b e c.
          rw (le→ltb_false r.cursor (packet_len r.buf) le, fill_failed ps timestamp r s b e c)
            (elim (Bool-cases (packet_len b == 0)) [ inl z ↦ rw z refl | inr n ↦ rw n refl ]);
      fetched = λ s b c.
          let v1 : IsRoomy b = subst (λ x. IsRoomy x.1) c (law.keeps r.src r.buf v) in
          let full : 0 < packet_len b =
            subst (λ x. 0 < packet_len x.1) c (law.gives r.src r.buf v (ap (λ x. x.2) c)).0 in
          let (t, f, _, up) = fill_ok ps timestamp r s b c v1.valid full in
          let some_left : (packet_len b == 0) ≡ false = ground arith in
          (
            t,
            up,
            rw (le→ltb_false r.cursor (packet_len r.buf) le, f, some_left)
                (discard_next-Discards timestamp now (filled ps timestamp r s b t) v1.valid full),
          );
    },
  )
