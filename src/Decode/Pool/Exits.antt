-- ===== src/Decode/Pool/Exits.antt =====
-- (*Pool).Run of decode/pool.go behind the end of input: whether it returns.
use memsniff.Capture.Collect.{CollectError, not_read, not_appended, at_eof, timed_out, other_error}
use memsniff.Capture.Sources.{PacketSource}
use memsniff.Decode.Pool.{
  Worker, Phase, selecting, collecting, draining, exited, Pool, Action, run, join, finish, take_at,
  join_step, finish_step, run_at, step, runs, sent, send, new_pool,
}
use memsniff.Decode.Pool.Places.{size, weigh-append, weigh-take_at}
use memsniff.Decode.Pool.Closing.{Closes, Accounts, step-Accounts, runs-Accounts, new_pool-Accounts}
use memsniff.Common.{
  sym, Bool, true, false, Option, none, some, ℕ, zero, suc, ◌+◌, ◌*◌, ◌≤◌, ◌<◌, ◌≡◌, ◌≢◌, refl, ap,
  ◌∙◌, subst, List, [], ◌∷◌, ◌++◌, some, arith, inl, inr, Option-cases,
}

abbrev pub IsClosing : {Info : Type 0} → Phase Info → Type 0
IsClosing (draining k) = Unit
IsClosing exited = Unit
IsClosing selecting = ⊥
IsClosing (collecting w) = ⊥

-- Every schedule comes to an end, where Run has returned: something can run until then, and
-- whatever runs next, the rest ends as well.
pub data Ends {Src Info : Type 0} (ps : PacketSource Src Info) : Pool Src Info → Type 0 where
  returned : (p : Pool Src Info) → p.phase ≡ exited → size p.closed ≡ p.num_workers → Ends ps p
  runs_on :
      (p : Pool Src Info) (a : Action) (q : Pool Src Info)
      → step ps a p ≡ some q
      → ((b : Action) (r : Pool Src Info) → step ps b p ≡ some r → Ends ps r)
      → Ends ps p

abbrev phase_cost : {Info : Type 0} → Phase Info → ℕ
phase_cost (draining k) = 1
phase_cost _ = 0

-- Steps that are left, at most.
abbrev cost : {Src Info : Type 0} → Pool Src Info → ℕ
cost p = 3 * size p.working + 2 * size p.joining + size p.ready + phase_cost p.phase

-- Every error of CollectPackets but a timeout and the end of input.
abbrev pub loses : CollectError → Bool
loses (not_read timed_out) = false
loses (not_read at_eof) = false
loses (not_read other_error) = true
loses (not_appended e) = true

send-lost :
    {Src Info : Type 0} (p : Pool Src Info) (w : Worker Info) (e : CollectError)
    (r : Option CollectError)
    → r ≡ some e
    → loses e ≡ true
    → (send p w r).lost ≢ []
unfolding send
send-lost p w (not_read timed_out) r f l h = absurd (ground arith)
send-lost p w (not_read at_eof) r f l h = absurd (ground arith)
send-lost p w (not_read other_error) r f l h = absurd (ground (arith, f, h))
send-lost p w (not_appended e) r f l h = absurd (ground (arith, f, h))

none_lost : {Info : Type 0} (ws : List (Worker Info)) → size ws ≡ 0 → ws ≡ []
none_lost [] h = refl
none_lost (w ∷ ws) h = absurd (omega arith)

module _ {Src Info : Type 0} (ps : PacketSource Src Info) where
  cost-run_at :
      (p q : Pool Src Info) (ph : Phase Info) (ws : List (Worker Info))
      → p.phase ≡ ph
      → p.ready ≡ ws
      → IsClosing ph
      → run_at ps p ph ws ≡ some q
      → (cost q < cost p) × IsClosing q.phase × (q.lost ≡ p.lost)
  unfolding run_at
  cost-run_at p q selecting ws ep er c e = absurd c
  cost-run_at p q (collecting w) ws ep er c e = absurd c
  cost-run_at p q (draining zero) ws ep er c e = ground arith
  cost-run_at p q (draining (suc k)) [] ep er c e = absurd (ground arith)
  cost-run_at p q (draining (suc k)) (w ∷ ws) ep er c e = ground arith
  cost-run_at p q exited ws ep er c e = absurd (ground arith)

  cost-join_step :
      (p q : Pool Src Info) (i : ℕ)
      → join_step p i ≡ some q
      → (cost q < cost p) × (q.phase ≡ p.phase) × (q.lost ≡ p.lost)
  unfolding join_step
  cost-join_step p q i e = elim (Option-cases (take_at p.joining i)) [
    | inl n ↦ absurd (ground arith)
    | inr (r, h) ↦
        ground
          (arith, weigh-take_at (λ w. 1) p.joining i r h, weigh-append (λ w. 1) p.ready (r.0 ∷ []))
  ]

  cost-finish_step :
      (p q : Pool Src Info) (i : ℕ)
      → finish_step p i ≡ some q
      → (cost q < cost p) × (q.phase ≡ p.phase) × (q.lost ≡ p.lost)
  unfolding finish_step
  cost-finish_step p q i e = elim (Option-cases (take_at p.working i)) [
    | inl n ↦ absurd (ground arith)
    | inr (r, h) ↦ ground (arith, weigh-take_at (λ w. 1) p.working i r h)
  ]

  cost-step :
      (a : Action) (p q : Pool Src Info)
      → IsClosing p.phase
      → step ps a p ≡ some q
      → (cost q < cost p) × IsClosing q.phase × (q.lost ≡ p.lost)
  unfolding step
  cost-step run p q c e = cost-run_at p q p.phase p.ready refl refl c e
  cost-step (join i) p q c e = let (lt, ep, el) = cost-join_step p q i e in (lt, rw ep c, el)
  cost-step (finish i) p q c e = let (lt, ep, el) = cost-finish_step p q i e in (lt, rw ep c, el)

  -- With workers still to close, one of them is not closed yet, and can run or be closed.
  enabled_draining :
      (k : ℕ) (p : Pool Src Info) (ready joining working : List (Worker Info))
      → p.phase ≡ draining (suc k)
      → p.ready ≡ ready
      → p.joining ≡ joining
      → p.working ≡ working
      → 0 < p.num_workers
      → 0 < size ready + size joining + size working
      → (a : Action) × (q : Pool Src Info) × (step ps a p ≡ some q)
  unfolding step run_at join_step finish_step take_at
  enabled_draining k p (w ∷ ready) joining working ep er ej ew n h =
      (run, record p { ready = ready; closed = w ∷ p.closed; phase = draining k }, rw (ep, er) refl)
  enabled_draining k p [] (w ∷ joining) working ep er ej ew n h =
      (join 0, record p { joining = joining; ready = p.ready ++ w ∷ [] }, ground arith)
  enabled_draining k p [] [] (w ∷ working) ep er ej ew n h = (
    finish 0,
    record p { working = working; joining = w ∷ p.joining; handled = w.pb ∷ p.handled },
    ground arith,
  )
  enabled_draining k p [] [] [] ep er ej ew n h = absurd (omega arith)

  can_run :
      (p : Pool Src Info) (k : ℕ)
      → p.phase ≡ draining k
      → p.lost ≡ []
      → Accounts p
      → (a : Action) × (q : Pool Src Info) × (step ps a p ≡ some q)
  unfolding step run_at
  can_run p zero e l a = (run, record p { phase = exited }, rw e refl)
  can_run p (suc k) e l a =
      enabled_draining k p p.ready p.joining p.working e refl refl refl (ground (arith, a.closing))
        (ground (arith, a.closing, a.all))

  draining-Ends :
      (fuel : ℕ) (p : Pool Src Info) (ph : Phase Info)
      → p.phase ≡ ph
      → cost p ≤ fuel
      → IsClosing ph
      → p.lost ≡ []
      → Accounts p
      → Ends ps p
  draining-Ends fuel p selecting ep le c l a = absurd c
  draining-Ends fuel p (collecting w) ep le c l a = absurd c
  draining-Ends fuel p exited ep le c l a = returned p ep (let h = a.closing in ground arith)
  draining-Ends zero p (draining k) ep le c l a =
      absurd (let e : phase_cost p.phase ≡ 1 = ap phase_cost ep in omega arith)
  draining-Ends (suc fuel) p (draining k) ep le c l a =
      let (b, q, h) = can_run p k ep l a in
      runs_on p b q h (λ d r s.
        let (lt, cr, lr) = cost-step d p r (rw ep c) s in
        draining-Ends fuel r r.phase refl (omega arith) cr (lr ∙ l) (step-Accounts ps d p r s a).0)

  -- Once Run has met the end of input, and no worker was lost before, it returns, with every
  -- worker closed, however its goroutine and the workers' interleave.
  pub runs-Ends :
      (blank : Info) (n : ℕ) (src : Src) (acts : List Action) (p : Pool Src Info) (k : ℕ)
      → runs ps acts (new_pool blank n src) ≡ some p
      → p.phase ≡ draining k
      → p.lost ≡ []
      → Ends ps p
  runs-Ends blank n src acts p k e ep l =
      draining-Ends (cost p) p (draining k) ep (omega arith) tt l
        (runs-Accounts ps acts (new_pool blank n src) p e (new_pool-Accounts blank n src)).0

  lost-runs :
      (more : List Action) (p q : Pool Src Info)
      → Accounts p
      → p.lost ≢ []
      → runs ps more p ≡ some q
      → q.phase ≢ exited
  lost-runs more p q a l m x =
      let (b, k) = runs-Accounts ps more p q m a in
      let c : size q.closed ≡ q.num_workers =
        subst (Closes q.num_workers (size q.closed)) x b.closing in
      l (none_lost p.lost (omega (arith, c, k, b.all)))

  -- Once CollectPackets has returned to Run an error that is no timeout and not the end of
  -- input, Run never returns, whatever is scheduled.
  pub failed-runs :
      (blank : Info) (n : ℕ) (src : Src) (acts more : List Action) (p q : Pool Src Info)
      (w : Worker Info) (e : CollectError)
      → runs ps acts (new_pool blank n src) ≡ some p
      → p.phase ≡ collecting w
      → (ps.collect p.src w.pb).2 ≡ some e
      → loses e ≡ true
      → runs ps (run ∷ more) p ≡ some q
      → q.phase ≢ exited
  unfolding runs step run_at
  failed-runs blank n src acts more p q w e r c f l m =
      let a =
        (runs-Accounts ps acts (new_pool blank n src) p r (new_pool-Accounts blank n src)).0 in
      let p1 = sent ps p w (ps.collect p.src w.pb) in
      let s : step ps run p ≡ some p1 = rw c refl in
      lost-runs more p1 q (step-Accounts ps run p p1 s a).0
        (send-lost (record p { src = (ps.collect p.src w.pb).0 })
          (record w { pb = (ps.collect p.src w.pb).1 }) e (ps.collect p.src w.pb).2 f l)
        (ap (λ o. elim o [ none ↦ none | some x ↦ runs ps more x ]) (sym s) ∙ m)
