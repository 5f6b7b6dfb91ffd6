-- ===== src/Capture/Replay/Expired.antt =====
-- dropExpired of capture/replay.go against a list of the packets that wait in the buffer.
use memsniff.Capture.Packets.{PacketData, packet, packet_len}
use memsniff.Capture.Packets.Refine.{IsValid, contents, packet-contents, length-contents}
use memsniff.Capture.Collect.{CollectError}
use memsniff.Capture.Replay.{Replayer, replayer_timeout, drop_loop, drop_expired}
use memsniff.Common.{
  ℕ, zero, suc, ◌+◌, ◌-◌, ◌/◌, ◌≤◌, ◌<◌, ◌≡◌, refl, ap, ◌∙◌, Bool, false, List, [], ◌∷◌, ◌++◌,
  Option, none, some, arith, length, drop, get_elem?, drop_all, ltb, if◌then◌else◌, Bool-cases, inl,
  inr,
}

-- The packets that the replayer has and did not return yet.
abbrev pub pending : {Src Info : Type 0} → Replayer Src Info → List (PacketData Info)
pending r = drop r.cursor (contents r.buf)

drop_next :
    {A : Type 0} (xs : List A) (n : ℕ)
    → n < length xs
    → (x : A) × (get_elem? xs n ≡ some x) × (drop n xs ≡ x ∷ drop (suc n) xs)
drop_next [] n h = absurd (omega arith)
drop_next (x ∷ xs) zero h = (x, refl, refl)
drop_next (x ∷ xs) (suc n) h = drop_next xs n (omega arith)

pub next_pending :
    {Src Info : Type 0} (r : Replayer Src Info)
    → IsValid r.buf
    → r.cursor < packet_len r.buf
    → (p : PacketData Info) × (packet r.buf r.cursor ≡ some p)
      × (pending r ≡ p ∷ drop (suc r.cursor) (contents r.buf))
next_pending r v h =
    let (p, g, d) = drop_next (contents r.buf) r.cursor (omega (arith, length-contents r.buf v)) in
    (p, packet-contents r.buf r.cursor v ∙ g, d)

pub none_pending :
    {Src Info : Type 0} (r : Replayer Src Info)
    → IsValid r.buf
    → packet_len r.buf ≤ r.cursor
    → pending r ≡ []
none_pending r v h = drop_all r.cursor (contents r.buf) (omega (arith, length-contents r.buf v))

module _ {Info : Type 0} (timestamp : Info → ℕ) where
  abbrev pub is_fresh : ℕ → PacketData Info → Bool
  is_fresh limit p = ltb limit (timestamp p.info + replayer_timeout / 2)

  -- The packets in front that have expired, and the others.
  unfoldable pub old_of : ℕ → List (PacketData Info) → List (PacketData Info)
  old_of limit [] = []
  old_of limit (p ∷ ps) = if is_fresh limit p then [] else p ∷ old_of limit ps

  unfoldable pub fresh_of : ℕ → List (PacketData Info) → List (PacketData Info)
  fresh_of limit [] = []
  fresh_of limit (p ∷ ps) = if is_fresh limit p then p ∷ ps else fresh_of limit ps

  pub old_of-fresh_of :
      (limit : ℕ) (ps : List (PacketData Info)) → old_of limit ps ++ fresh_of limit ps ≡ ps
  unfolding old_of fresh_of
  old_of-fresh_of limit [] = refl
  old_of-fresh_of limit (p ∷ ps) = elim (Bool-cases (is_fresh limit p)) [
    | inl e ↦ rw e refl
    | inr e ↦ rw e (ap (◌∷◌ p) (old_of-fresh_of limit ps))
  ]

  pub fresh_of_twice :
      (limit : ℕ) (ps : List (PacketData Info))
      → fresh_of limit (fresh_of limit ps) ≡ fresh_of limit ps
  unfolding fresh_of
  fresh_of_twice limit [] = refl
  fresh_of_twice limit (p ∷ ps) = elim (Bool-cases (is_fresh limit p)) [
    | inl e ↦ rw (e, e) refl
    | inr e ↦ rw e (fresh_of_twice limit ps)
  ]

  -- No packet of the list is fresh.
  abbrev pub AreOld : ℕ → List (PacketData Info) → Type 0
  AreOld limit [] = Unit
  AreOld limit (p ∷ ps) = (is_fresh limit p ≡ false) × AreOld limit ps

  pub old_of-AreOld : (limit : ℕ) (ps : List (PacketData Info)) → AreOld limit (old_of limit ps)
  unfolding old_of
  old_of-AreOld limit [] = tt
  old_of-AreOld limit (p ∷ ps) = elim (Bool-cases (is_fresh limit p)) [
    | inl e ↦ rw e tt
    | inr e ↦ rw e (e, old_of-AreOld limit ps)
  ]

  pub AreOld-append :
      (limit : ℕ) (ps qs : List (PacketData Info))
      → AreOld limit ps
      → AreOld limit qs
      → AreOld limit (ps ++ qs)
  AreOld-append limit [] qs h g = g
  AreOld-append limit (p ∷ ps) qs h g = (h.0, AreOld-append limit ps qs h.1 g)

  pub AreOld-later : (l m : ℕ) (ps : List (PacketData Info)) → l ≤ m → AreOld l ps → AreOld m ps
  AreOld-later l m [] le h = tt
  AreOld-later l m (p ∷ ps) le h = (ground (arith, h.0), AreOld-later l m ps le h.1)

module _ {Src Info : Type 0} (timestamp : Info → ℕ) where
  pub record Drops (limit : ℕ) (r : Replayer Src Info)
      (res : Replayer Src Info × Option CollectError) : Type 0 where
    pub ok : res.1 ≡ none
    pub waits : pending res.0 ≡ fresh_of timestamp limit (pending r)
    pub counts : res.0.dropped ≡ r.dropped + length (old_of timestamp limit (pending r))
    pub others : res.0 ≡ record r { cursor = res.0.cursor; dropped = res.0.dropped }

  drop_loop-Drops :
      (limit k : ℕ) (r : Replayer Src Info)
      → IsValid r.buf
      → k ≡ packet_len r.buf - r.cursor
      → Drops limit r (drop_loop timestamp limit k r)
  unfolding drop_loop old_of fresh_of
  drop_loop-Drops limit zero r v c =
      let e = none_pending r v (omega arith) in
      record { ok = refl; waits = rw e refl; counts = rw e (omega arith); others = refl }
  drop_loop-Drops limit (suc k) r v c =
      let (p, g, e) = next_pending r v (omega arith) in
      elim (Bool-cases (is_fresh timestamp limit p)) [
        | inl f ↦
            rw (g, f, drop_loop)
              (record {
                ok = refl;
                waits = rw (e, f) refl;
                counts = rw (e, f) (omega arith);
                others = refl;
              })
        | inr f ↦
            let r1 : Replayer Src Info = record r {
              cursor = suc r.cursor;
              dropped = suc r.dropped;
            } in
            let d = drop_loop-Drops limit k r1 v (omega arith) in
            rw (g, f, drop_loop)
              (record {
                ok = d.ok;
                waits = rw (e, f) d.waits;
                counts = rw (e, f) (omega (arith, d.counts));
                others = d.others;
              })
      ]

  pub drop_expired-Drops :
      (elapsed : ℕ) (r : Replayer Src Info)
      → IsValid r.buf
      → Drops (r.first + elapsed) r (drop_expired timestamp elapsed r)
  unfolding drop_expired
  drop_expired-Drops elapsed r v =
      drop_loop-Drops (r.first + elapsed) (packet_len r.buf - r.cursor) r v refl
