-- ===== src/Decode/Pool/Counts.antt =====
-- The statistics of decode/pool.go against the packets that workers have.
use memsniff.Capture.Packets.{
  PacketBuffer, packet_len, clear, packet_cap, clear_blocks, block_count,
}
use memsniff.Capture.Collect.{
  CollectError, not_read, not_appended, at_eof, timed_out, other_error, ReadResult, collect_loop,
  collect_packets,
}
use memsniff.Capture.Sources.{PacketSource, source}
use memsniff.Decode.Pool.{
  Worker, Phase, selecting, collecting, draining, exited, Pool, Action, run, join, finish, take_at,
  work, send, drop_packet, join_step, finish_step, run_at, step, runs, new_pool,
}
use memsniff.Common.{
  ℕ, zero, suc, ◌+◌, ◌≡◌, ◌≢◌, refl, ap, List, [], ◌∷◌, Option, none, some, arith, ◌==◌, Bool-cases,
  inl, inr, Option-cases, ==_iff,
}

abbrev pub packets_of : {Info : Type 0} → List (Worker Info) → ℕ
packets_of [] = 0
packets_of (w ∷ ws) = packet_len w.pb + packets_of ws

abbrev pub packets_in : {Info : Type 0} → List (PacketBuffer Info) → ℕ
packets_in [] = 0
packets_in (pb ∷ pbs) = packet_len pb + packets_in pbs

-- At the end of input a source leaves no packets in the buffer.
abbrev pub EofIsEmpty : {Src Info : Type 0} → PacketSource Src Info → Type 0
EofIsEmpty {Src} {Info} ps =
    (s : Src) (pb : PacketBuffer Info)
    → (ps.collect s pb).2 ≡ some (not_read at_eof)
    → packet_len (ps.collect s pb).1 ≡ 0

abbrev pub Tallies : {Src Info : Type 0} → Pool Src Info → Type 0
Tallies p = p.captured ≡ packets_in p.handled + packets_of p.working + packets_of p.lost

packets_of-take_at :
    {Info : Type 0} (xs : List (Worker Info)) (i : ℕ) (r : Worker Info × List (Worker Info))
    → take_at xs i ≡ some r
    → packets_of xs ≡ packet_len r.0.pb + packets_of r.1
unfolding take_at
packets_of-take_at [] i r e = absurd (ground arith)
packets_of-take_at (x ∷ xs) zero r e = ground arith
packets_of-take_at (x ∷ xs) (suc i) r e = elim (Option-cases (take_at xs i)) [
  | inl n ↦ absurd (ground arith)
  | inr (s, h) ↦ ground (arith, packets_of-take_at xs i s h)
]

module _ {Src Info : Type 0} where
  Tallies-send :
      (p : Pool Src Info) (w : Worker Info) (e : Option CollectError)
      → (e ≡ some (not_read at_eof) → packet_len w.pb ≡ 0)
      → Tallies p
      → Tallies (send p w e)
  unfolding send work
  Tallies-send p w none l t = elim (Bool-cases (packet_len w.pb == 0)) [
    | inl e ↦ rw e (omega (arith, t, (==_iff (packet_len w.pb) 0).0 e))
    | inr e ↦ rw e (omega (arith, t))
  ]
  Tallies-send p w (some (not_read timed_out)) l t = t
  Tallies-send p w (some (not_read at_eof)) l t = omega (arith, t, l refl)
  Tallies-send p w (some (not_read other_error)) l t = omega (arith, t)
  Tallies-send p w (some (not_appended e)) l t = omega (arith, t)

  Tallies-drop_packet :
      (p : Pool Src Info) (r : Src × Option CollectError) → Tallies p → Tallies (drop_packet p r)
  unfolding drop_packet
  Tallies-drop_packet p (src, none) t = t
  Tallies-drop_packet p (src, some e) t = t

module _ {Src Info : Type 0} (ps : PacketSource Src Info) where
  Tallies-run_at :
      (p q : Pool Src Info) (ph : Phase Info) (ws : List (Worker Info))
      → EofIsEmpty ps
      → run_at ps p ph ws ≡ some q
      → Tallies p
      → Tallies q
  unfolding run_at
  Tallies-run_at p q selecting [] l e t = ground (arith, Tallies-drop_packet p (ps.discard p.src) t)
  Tallies-run_at p q selecting (w ∷ ws) l e t = ground arith
  Tallies-run_at p q (collecting w) ws l e t =
      let (src, pb, err) = ps.collect p.src w.pb in
      ground
        (arith, Tallies-send (record p { src = src }) (record w { pb = pb }) err (l p.src w.pb) t)
  Tallies-run_at p q (draining zero) ws l e t = ground arith
  Tallies-run_at p q (draining (suc k)) [] l e t = absurd (ground arith)
  Tallies-run_at p q (draining (suc k)) (w ∷ ws) l e t = ground arith
  Tallies-run_at p q exited ws l e t = absurd (ground arith)

  Tallies-join_step : (p q : Pool Src Info) (i : ℕ) → join_step p i ≡ some q → Tallies p → Tallies q
  unfolding join_step
  Tallies-join_step p q i e t = elim (Option-cases (take_at p.joining i)) [
    | inl n ↦ absurd (ground arith)
    | inr (r, h) ↦ ground arith
  ]

  Tallies-finish_step :
      (p q : Pool Src Info) (i : ℕ) → finish_step p i ≡ some q → Tallies p → Tallies q
  unfolding finish_step
  Tallies-finish_step p q i e t = elim (Option-cases (take_at p.working i)) [
    | inl n ↦ absurd (ground arith)
    | inr (r, h) ↦ ground (arith, packets_of-take_at p.working i r h)
  ]

  Tallies-step :
      (a : Action) (p q : Pool Src Info)
      → EofIsEmpty ps
      → step ps a p ≡ some q
      → Tallies p
      → Tallies q
  unfolding step
  Tallies-step run p q l e t = Tallies-run_at p q p.phase p.ready l e t
  Tallies-step (join i) p q l e t = Tallies-join_step p q i e t
  Tallies-step (finish i) p q l e t = Tallies-finish_step p q i e t

  runs-Tallies_from :
      (acts : List Action) (p q : Pool Src Info)
      → EofIsEmpty ps
      → runs ps acts p ≡ some q
      → Tallies p
      → Tallies q
  unfolding runs
  runs-Tallies_from [] p q l e t = ground arith
  runs-Tallies_from (a ∷ acts) p q l e t = elim (Option-cases (step ps a p)) [
    | inl n ↦ absurd (ground arith)
    | inr (r, h) ↦ runs-Tallies_from acts r q l (ground arith) (Tallies-step a p r l h t)
  ]

  -- Over a source that leaves no packets in the buffer at the end of input, after any schedule
  -- PacketsCaptured is the number of packets that handlers were given, that working workers
  -- have, and that the workers lost to errors have.
  pub runs-Tallies :
      (blank : Info) (n : ℕ) (src : Src) (acts : List Action) (p : Pool Src Info)
      → EofIsEmpty ps
      → runs ps acts (new_pool blank n src) ≡ some p
      → Tallies p
  unfolding new_pool
  runs-Tallies blank n src acts p l e = runs-Tallies_from acts (new_pool blank n src) p l e refl

-- A pcap handle is such a source.
module _ {Info Handle : Type 0} (next : Handle → Handle × ReadResult Info) where
  not_eof :
      (k i : ℕ) (h : Handle) (pb : PacketBuffer Info)
      → (collect_loop next k (suc i) h pb).2 ≢ some (not_read at_eof)
  unfolding collect_loop
  not_eof zero i h pb e = ground arith
  not_eof (suc k) i h pb e = grind (arith, not_eof k (suc i))

  eof_first :
      (k : ℕ) (h : Handle) (pb : PacketBuffer Info)
      → (collect_loop next k 0 h pb).2 ≡ some (not_read at_eof)
      → (collect_loop next k 0 h pb).1 ≡ pb
  unfolding collect_loop
  eof_first zero h pb e = ground arith
  eof_first (suc k) h pb e = grind (arith, not_eof k 0)

  pub source-EofIsEmpty : EofIsEmpty (source next)
  unfolding collect_packets clear clear_blocks packet_len block_count
  source-EofIsEmpty s pb e = ap packet_len (eof_first (packet_cap pb) s (clear pb) e)
