-- ===== src/Decode/Pool/Places.antt =====
-- decode/pool.go and decode/worker.go: where the workers are, counted by any weight of their ids.
use memsniff.Capture.Packets.{packet_len, new_packet_buffer}
use memsniff.Capture.Collect.{CollectError, not_read, not_appended, at_eof, timed_out, other_error}
use memsniff.Capture.Sources.{PacketSource}
use memsniff.Decode.Pool.{
  Worker, Phase, selecting, collecting, draining, exited, Pool, Action, run, join, finish, take_at,
  work, send, drop_packet, join_step, finish_step, run_at, step, runs, start_workers, new_pool,
}
use memsniff.Common.{
  ℕ, zero, suc, ◌+◌, ◌*◌, ◌≤◌, ◌<◌, ◌≡◌, refl, ap, ◌∙◌, List, [], ◌∷◌, ◌++◌, Option, none, some,
  arith, length, leb, ◌==◌, if◌then◌else◌, Bool-cases, inl, inr, Option-cases,
}

module _ {Info : Type 0} where
  abbrev pub weigh : (ℕ → ℕ) → List (Worker Info) → ℕ
  weigh f [] = 0
  weigh f (w ∷ ws) = f w.id + weigh f ws

  abbrev pub held : (ℕ → ℕ) → Phase Info → ℕ
  held f (collecting w) = f w.id
  held f selecting = 0
  held f (draining k) = 0
  held f exited = 0

  pub weigh-append :
      (f : ℕ → ℕ) (xs ys : List (Worker Info)) → weigh f (xs ++ ys) ≡ weigh f xs + weigh f ys
  weigh-append f [] ys = omega arith
  weigh-append f (x ∷ xs) ys = omega (arith, weigh-append f xs ys)

  pub weigh-take_at :
      (f : ℕ → ℕ) (xs : List (Worker Info)) (i : ℕ) (r : Worker Info × List (Worker Info))
      → take_at xs i ≡ some r
      → weigh f xs ≡ f r.0.id + weigh f r.1
  unfolding take_at
  weigh-take_at f [] i r e = absurd (ground arith)
  weigh-take_at f (x ∷ xs) zero r e = ground arith
  weigh-take_at f (x ∷ xs) (suc i) r e = elim (Option-cases (take_at xs i)) [
    | inl n ↦ absurd (ground arith)
    | inr (s, h) ↦ ground (arith, weigh-take_at f xs i s h)
  ]

module _ {Src Info : Type 0} where
  -- The workers of all places together.
  abbrev pub outside : (ℕ → ℕ) → Pool Src Info → ℕ
  outside f p =
      weigh f p.ready + weigh f p.joining + weigh f p.working + weigh f p.closed + weigh f p.lost

  abbrev pub total : (ℕ → ℕ) → Pool Src Info → ℕ
  total f p = held f p.phase + outside f p

  total-work :
      (f : ℕ → ℕ) (p : Pool Src Info) (w : Worker Info) → total f (work p w) ≡ total f p + f w.id
  unfolding work
  total-work f p w = elim (Bool-cases (packet_len w.pb == 0)) [
    | inl e ↦ rw e (omega (arith, weigh-append f p.ready (w ∷ [])))
    | inr e ↦ rw e (omega arith)
  ]

  total-send :
      (f : ℕ → ℕ) (p : Pool Src Info) (w : Worker Info) (e : Option CollectError)
      → total f (send p w e) ≡ outside f p + f w.id
  unfolding send
  total-send f p w none = omega (
    arith,
    total-work f (record p { captured = p.captured + packet_len w.pb; phase = selecting }) w,
  )
  total-send f p w (some (not_read timed_out)) = omega arith
  total-send f p w (some (not_read at_eof)) = omega arith
  total-send f p w (some (not_read other_error)) = omega arith
  total-send f p w (some (not_appended e)) = omega arith

  total-drop_packet :
      (f : ℕ → ℕ) (p : Pool Src Info) (r : Src × Option CollectError)
      → total f (drop_packet p r) ≡ total f p
  unfolding drop_packet
  total-drop_packet f p (src, none) = refl
  total-drop_packet f p (src, some e) = refl

  total-join_step :
      (f : ℕ → ℕ) (p q : Pool Src Info) (i : ℕ) → join_step p i ≡ some q → total f q ≡ total f p
  unfolding join_step
  total-join_step f p q i e = elim (Option-cases (take_at p.joining i)) [
    | inl n ↦ absurd (ground arith)
    | inr (r, h) ↦
        ground (arith, weigh-take_at f p.joining i r h, weigh-append f p.ready (r.0 ∷ []))
  ]

  total-finish_step :
      (f : ℕ → ℕ) (p q : Pool Src Info) (i : ℕ) → finish_step p i ≡ some q → total f q ≡ total f p
  unfolding finish_step
  total-finish_step f p q i e = elim (Option-cases (take_at p.working i)) [
    | inl n ↦ absurd (ground arith)
    | inr (r, h) ↦ ground (arith, weigh-take_at f p.working i r h)
  ]

module _ {Src Info : Type 0} (ps : PacketSource Src Info) where
  total-run_at :
      (f : ℕ → ℕ) (p q : Pool Src Info) (ph : Phase Info) (ws : List (Worker Info))
      → p.phase ≡ ph
      → p.ready ≡ ws
      → run_at ps p ph ws ≡ some q
      → total f q ≡ total f p
  unfolding run_at
  total-run_at f p q selecting [] ep er e = ground (arith, total-drop_packet f p (ps.discard p.src))
  total-run_at f p q selecting (w ∷ ws) ep er e = ground arith
  total-run_at f p q (collecting w) ws ep er e =
      let (src, pb, err) = ps.collect p.src w.pb in
      ground (arith, total-send f (record p { src = src }) (record w { pb = pb }) err)
  total-run_at f p q (draining zero) ws ep er e = ground arith
  total-run_at f p q (draining (suc k)) [] ep er e = absurd (ground arith)
  total-run_at f p q (draining (suc k)) (w ∷ ws) ep er e = ground arith
  total-run_at f p q exited ws ep er e = absurd (ground arith)

  pub total-step :
      (f : ℕ → ℕ) (a : Action) (p q : Pool Src Info) → step ps a p ≡ some q → total f q ≡ total f p
  unfolding step
  total-step f run p q e = total-run_at f p q p.phase p.ready refl refl e
  total-step f (join i) p q e = total-join_step f p q i e
  total-step f (finish i) p q e = total-finish_step f p q i e

  pub total-runs :
      (f : ℕ → ℕ) (acts : List Action) (p q : Pool Src Info)
      → runs ps acts p ≡ some q
      → total f q ≡ total f p
  unfolding runs
  total-runs f [] p q e = ground arith
  total-runs f (a ∷ acts) p q e = elim (Option-cases (step ps a p)) [
    | inl n ↦ absurd (ground arith)
    | inr (r, h) ↦ total-runs f acts r q (ground arith) ∙ total-step f a p r h
  ]

module _ {Info : Type 0} where
  abbrev pub size : List (Worker Info) → ℕ
  size ws = weigh (λ w. 1) ws

  pub length-size : (ws : List (Worker Info)) → length ws ≡ size ws
  length-size [] = refl
  length-size (w ∷ ws) = ap suc (length-size ws) ∙ omega arith

  pub size-start_workers : (blank : Info) (n : ℕ) → size (start_workers blank n) ≡ n
  unfolding start_workers
  size-start_workers blank zero = refl
  size-start_workers blank (suc n) =
      omega (arith, size-start_workers blank n, weigh-append (λ w. 1) (start_workers blank n) _)

abbrev pub one_id : ℕ → ℕ → ℕ
one_id i j = if j == i then 1 else 0

weigh-start_workers :
    {Info : Type 0} (blank : Info) (n i : ℕ)
    → weigh (one_id i) (start_workers blank n) ≡ (if leb n i then 0 else 1)
unfolding start_workers
weigh-start_workers blank zero i = ground arith
weigh-start_workers blank (suc n) i = ground (
  arith,
  weigh-start_workers blank n i,
  weigh-append (one_id i) (start_workers blank n)
      (record { id = n; pb = new_packet_buffer blank 1000 (8 * 1024 * 1024) } ∷ []),
)

-- Where the workers of a pool of `n` are.
pub record Placed {Src Info : Type 0} (n : ℕ) (p : Pool Src Info) : Type 0 where
  pub once : (i : ℕ) → total (one_id i) p ≡ (if leb n i then 0 else 1)
  pub fits : length p.ready + length p.joining ≤ n
  pub room : (w : Worker Info) → p.phase ≡ collecting w → length p.ready + length p.joining < n

module _ {Src Info : Type 0} (ps : PacketSource Src Info) where
  -- After any schedule of a new pool of n workers, each of the n workers is in exactly one
  -- place, the workers that are ready or on their way to readyQ fit into it, and while Run
  -- holds a worker there is room for that one too, so no goroutine waits to enter readyQ.
  pub runs-Placed :
      (blank : Info) (n : ℕ) (src : Src) (acts : List Action) (p : Pool Src Info)
      → runs ps acts (new_pool blank n src) ≡ some p
      → Placed n p
  unfolding new_pool
  runs-Placed blank n src acts p e = record {
    once = λ i.
        total-runs ps (one_id i) acts (new_pool blank n src) p e
        ∙ omega (arith, weigh-start_workers blank n i);
    fits = omega (arith, all, length-size p.ready, length-size p.joining);
    room =
        λ w c. omega (arith, all, ap (held (λ w. 1)) c, length-size p.ready, length-size p.joining);
  }
    where
      all : total (λ w. 1) p ≡ n
      all =
          total-runs ps (λ w. 1) acts (new_pool blank n src) p e
          ∙ omega (arith, size-start_workers blank n)
