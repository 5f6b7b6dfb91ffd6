-- ===== src/Capture/Replay/Settled.antt =====
-- What the replayer of capture/replay.go takes of its source, and what dropExpired leaves.
use memsniff.Capture.Packets.{PacketData, PacketBuffer, packet_len, packet_cap}
use memsniff.Capture.Packets.Refine.{IsValid, contents}
use memsniff.Capture.Collect.{CollectError, snap_len}
use memsniff.Capture.Sources.{PacketSource}
use memsniff.Capture.Replay.{Replayer, drop_expired}
use memsniff.Capture.Replay.Expired.{
  pending, fresh_of, fresh_of_twice, is_fresh, Drops, drop_expired-Drops,
}
use memsniff.Capture.Replay.Written.{AreSnapped}
use memsniff.Common.{
  ◌==◌, if◌then◌else◌, ℕ, ◌+◌, ◌≤◌, ◌<◌, ◌≡◌, sym, ap, subst, List, [], ◌∷◌, Option, none, some,
  arith, Bool-cases, inl, inr,
}

pub record IsRoomy {Info : Type 0} (pb : PacketBuffer Info) : Type 0 where
  pub valid : IsValid pb
  pub blocks : 0 < pb.packed.max_blocks
  pub bytes : snap_len ≤ pb.packed.max_bytes

-- What the replayer needs of its source: the buffer stays valid and as large, and where a call
-- returns nil, it has left packets, none longer than snapLen.
pub record IsLawful {Src Info : Type 0} (ps : PacketSource Src Info) : Type 0 where
  pub keeps : (s : Src) (pb : PacketBuffer Info) → IsRoomy pb → IsRoomy (ps.collect s pb).1
  pub as_large : (s : Src) (pb : PacketBuffer Info) → packet_cap (ps.collect s pb).1 ≡ packet_cap pb
  pub gives :
      (s : Src) (pb : PacketBuffer Info)
      → IsRoomy pb
      → (ps.collect s pb).2 ≡ none
      → (0 < packet_len (ps.collect s pb).1) × AreSnapped (contents (ps.collect s pb).1)

module _ {Src Info : Type 0} (ps : PacketSource Src Info) where
  -- The source gives these batches, one for each call, and a last call fails if there is an error.
  abbrev pub Reads :
      Src
      → PacketBuffer Info
      → List (List (PacketData Info))
      → Src
      → PacketBuffer Info
      → Option CollectError
      → Type 0
  Reads s b [] s' b' none = (s ≡ s') × (b ≡ b')
  Reads s b [] s' b' (some e) = ps.collect s b ≡ (s', b', some e)
  Reads s b (x ∷ xs) s' b' e =
      (s1 : Src) × (b1 : PacketBuffer Info) × (ps.collect s b ≡ (s1, b1, none))
      × (contents b1 ≡ x)
      × Reads s1 b1 xs s' b' e

abbrev pub waiting :
    {Src Info : Type 0} → Replayer Src Info → Option CollectError → List (PacketData Info)
waiting r none = pending r
waiting r (some e) = []

module _ {Src Info : Type 0} where
  abbrev pub limit_of : ℕ → Replayer Src Info → ℕ
  limit_of elapsed r = r.first + elapsed

  -- No packet in front has expired.
  abbrev pub IsSettled : (Info → ℕ) → ℕ → Replayer Src Info → Type 0
  IsSettled timestamp elapsed r = fresh_of timestamp (limit_of elapsed r) (pending r) ≡ pending r

module _ {Info : Type 0} (timestamp : Info → ℕ) where
  AreSnapped-fresh_of :
      (limit : ℕ) (ps : List (PacketData Info))
      → AreSnapped ps
      → AreSnapped (fresh_of timestamp limit ps)
  unfolding fresh_of
  AreSnapped-fresh_of limit [] h = tt
  AreSnapped-fresh_of limit (p ∷ ps) h = elim (Bool-cases (is_fresh timestamp limit p)) [
    | inl e ↦ rw e h
    | inr e ↦ rw e (AreSnapped-fresh_of limit ps h.1)
  ]

module _ {Src Info : Type 0} (timestamp : Info → ℕ) where
  -- A run of dropExpired.
  pub record Settles (elapsed : ℕ) (r : Replayer Src Info) : Type 0 where
    pub after : Replayer Src Info
    pub runs : drop_expired timestamp elapsed r ≡ (after, none)
    pub drops : Drops timestamp (limit_of elapsed r) r (after, none)

  pub drop_expired-Settles :
      (elapsed : ℕ) (r : Replayer Src Info) → IsValid r.buf → Settles elapsed r
  drop_expired-Settles elapsed r v =
      let d = drop_expired-Drops timestamp elapsed r v in
      let r1 : Replayer Src Info = (drop_expired timestamp elapsed r).0 in
      let e : drop_expired timestamp elapsed r ≡ (r1, none) = ap (λ x. (r1, x)) d.ok in
      record { after = r1; runs = e; drops = subst (Drops timestamp (limit_of elapsed r) r) e d }

  -- What dropExpired leaves.
  pub Drops-IsSettled :
      (elapsed : ℕ) (r r2 : Replayer Src Info) (e : Option CollectError)
      → Drops timestamp (limit_of elapsed r) r (r2, e)
      → IsSettled timestamp elapsed r2
  Drops-IsSettled elapsed r r2 e d =
      subst (λ l. fresh_of timestamp l (pending r2) ≡ pending r2) {x = limit_of elapsed r}
        {y = limit_of elapsed r2} (omega (arith, ap (λ x. x.first) d.others))
        (subst (λ ps. fresh_of timestamp (limit_of elapsed r) ps ≡ ps) (sym d.waits)
          (fresh_of_twice timestamp (limit_of elapsed r) (pending r)))

  pub Drops-AreSnapped :
      (limit : ℕ) (r r2 : Replayer Src Info) (e : Option CollectError)
      → Drops timestamp limit r (r2, e)
      → AreSnapped (pending r)
      → AreSnapped (pending r2)
  Drops-AreSnapped limit r r2 e d sn =
      subst AreSnapped (sym d.waits) (AreSnapped-fresh_of timestamp limit (pending r) sn)

-- The time that the replayer counts from once its source gave the packets of `b`: the one it has,
-- or, if it has none yet, that of the first of these packets.
abbrev pub IsFirstTime :
    {Src Info : Type 0} → (Info → ℕ) → Replayer Src Info → PacketBuffer Info → ℕ → Type 0
IsFirstTime {Info = Info} timestamp r b t =
    (p : PacketData Info) × (rest : List (PacketData Info)) × (contents b ≡ p ∷ rest)
    × (t ≡ (if r.first == 0 then timestamp p.info else r.first))
