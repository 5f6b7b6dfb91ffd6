-- ===== src/Decode/Pool/Closing.antt =====
-- (*Pool).Run of decode/pool.go behind the end of input: how many workers it still closes.
use memsniff.Capture.Packets.{packet_len}
use memsniff.Capture.Collect.{CollectError, not_read, not_appended, at_eof, timed_out, other_error}
use memsniff.Capture.Sources.{PacketSource}
use memsniff.Decode.Pool.{
  Worker, Phase, selecting, collecting, draining, exited, Pool, Action, run, join, finish, take_at,
  work, send, drop_packet, join_step, finish_step, run_at, step, runs, new_pool,
}
use memsniff.Decode.Pool.Places.{total, total-step, size, size-start_workers}
use memsniff.Common.{
  ℕ, zero, suc, ◌+◌, ◌≤◌, ◌<◌, ◌≡◌, refl, List, [], ◌∷◌, Option, none, some, arith, ◌==◌,
  Bool-cases, inl, inr, Option-cases,
}

-- How many workers are closed at a phase.
abbrev pub Closes : {Info : Type 0} → ℕ → ℕ → Phase Info → Type 0
Closes n c selecting = c ≡ 0
Closes n c (collecting w) = c ≡ 0
Closes n c (draining k) = c + k ≡ n
Closes n c exited = c ≡ n

pub record Accounts {Src Info : Type 0} (p : Pool Src Info) : Type 0 where
  pub all : total (λ w. 1) p ≡ p.num_workers
  pub closing : Closes p.num_workers (size p.closed) p.phase

-- What a step keeps of a pool.
abbrev Keeps : {Src Info : Type 0} → Pool Src Info → Pool Src Info → Type 0
Keeps p q = (q.num_workers ≡ p.num_workers) × (size p.lost ≤ size q.lost)

module _ {Src Info : Type 0} where
  Closes-send :
      (p : Pool Src Info) (w : Worker Info) (e : Option CollectError)
      → size p.closed ≡ 0
      → 0 < p.num_workers
      → Closes p.num_workers (size (send p w e).closed) (send p w e).phase × Keeps p (send p w e)
  unfolding send work
  Closes-send p w none h n = elim (Bool-cases (packet_len w.pb == 0)) [
    | inl e ↦ rw e (ground arith)
    | inr e ↦ rw e (ground arith)
  ]
  Closes-send p w (some (not_read timed_out)) h n = ground arith
  Closes-send p w (some (not_read at_eof)) h n = omega arith
  Closes-send p w (some (not_read other_error)) h n = ground arith
  Closes-send p w (some (not_appended e)) h n = ground arith

  Closes-drop_packet :
      (p : Pool Src Info) (r : Src × Option CollectError)
      → ((drop_packet p r).phase ≡ p.phase)
        × ((drop_packet p r).closed ≡ p.closed)
        × Keeps p (drop_packet p r)
  unfolding drop_packet
  Closes-drop_packet p (src, none) = ground arith
  Closes-drop_packet p (src, some e) = ground arith

  pub new_pool-Accounts : (blank : Info) (n : ℕ) (src : Src) → Accounts (new_pool blank n src)
  unfolding new_pool
  new_pool-Accounts blank n src = record {
    all = omega (arith, size-start_workers blank n);
    closing = refl;
  }

module _ {Src Info : Type 0} (ps : PacketSource Src Info) where
  Closes-run_at :
      (p q : Pool Src Info) (ph : Phase Info) (ws : List (Worker Info))
      → p.phase ≡ ph
      → p.ready ≡ ws
      → Accounts p
      → run_at ps p ph ws ≡ some q
      → Closes q.num_workers (size q.closed) q.phase × Keeps p q
  unfolding run_at
  Closes-run_at p q selecting [] ep er a e = ground (arith, Closes-drop_packet p (ps.discard p.src))
  Closes-run_at p q selecting (w ∷ ws) ep er a e = ground arith
  Closes-run_at p q (collecting w) ws ep er a e =
      let (src, pb, err) = ps.collect p.src w.pb in
      ground (arith, Closes-send (record p { src = src }) (record w { pb = pb }) err)
  Closes-run_at p q (draining zero) ws ep er a e = ground arith
  Closes-run_at p q (draining (suc k)) [] ep er a e = absurd (ground arith)
  Closes-run_at p q (draining (suc k)) (w ∷ ws) ep er a e = ground arith
  Closes-run_at p q exited ws ep er a e = absurd (ground arith)

  Closes-join_step :
      (p q : Pool Src Info) (i : ℕ)
      → join_step p i ≡ some q
      → (q.phase ≡ p.phase) × (q.closed ≡ p.closed) × Keeps p q
  unfolding join_step
  Closes-join_step p q i e = elim (Option-cases (take_at p.joining i)) [
    | inl n ↦ absurd (ground arith)
    | inr (r, h) ↦ ground arith
  ]

  Closes-finish_step :
      (p q : Pool Src Info) (i : ℕ)
      → finish_step p i ≡ some q
      → (q.phase ≡ p.phase) × (q.closed ≡ p.closed) × Keeps p q
  unfolding finish_step
  Closes-finish_step p q i e = elim (Option-cases (take_at p.working i)) [
    | inl n ↦ absurd (ground arith)
    | inr (r, h) ↦ ground arith
  ]

  Closes-same :
      (p q : Pool Src Info)
      → (q.phase ≡ p.phase) × (q.closed ≡ p.closed) × Keeps p q
      → Accounts p
      → Closes q.num_workers (size q.closed) q.phase
  Closes-same p q (ep, ec, k) a = rw (ep, ec, k.0) a.closing

  pub step-Accounts :
      (a : Action) (p q : Pool Src Info)
      → step ps a p ≡ some q
      → Accounts p
      → Accounts q × Keeps p q
  unfolding step
  step-Accounts run p q e a =
      let (c, k) = Closes-run_at p q p.phase p.ready refl refl a e in
      (record { all = omega (arith, total-step ps (λ w. 1) run p q e, k, a.all); closing = c }, k)
  step-Accounts (join i) p q e a =
      let (ep, ec, k) = Closes-join_step p q i e in
      (
        record {
          all = omega (arith, total-step ps (λ w. 1) (join i) p q e, k, a.all);
          closing = Closes-same p q (ep, ec, k) a;
        },
        k,
      )
  step-Accounts (finish i) p q e a =
      let (ep, ec, k) = Closes-finish_step p q i e in
      (
        record {
          all = omega (arith, total-step ps (λ w. 1) (finish i) p q e, k, a.all);
          closing = Closes-same p q (ep, ec, k) a;
        },
        k,
      )

  pub runs-Accounts :
      (acts : List Action) (p q : Pool Src Info)
      → runs ps acts p ≡ some q
      → Accounts p
      → Accounts q × Keeps p q
  unfolding runs
  runs-Accounts [] p q e a = ground arith
  runs-Accounts (b ∷ acts) p q e a = elim (Option-cases (step ps b p)) [
    | inl n ↦ absurd (ground arith)
    | inr (r, h) ↦
        let (ar, kr) = step-Accounts b p r h a in
        let (aq, kq) = runs-Accounts acts r q (ground arith) ar in (aq, omega (arith, kr, kq))
  ]
