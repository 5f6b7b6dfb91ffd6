-- ===== src/Assembly/Pool/Calls.antt =====
-- What calls of HandlePackets (assembly/pool.go) wait for.
use memsniff.Assembly.Pool.{
  WorkItem, Worker, Call, Pool, Action, handle, take_item, tick, answer, new_pool, send_batches,
  handle_packets, take_work, flush_old, step, runs,
}
use memsniff.Partition.{spread}
use memsniff.Common.{
  ℕ, ◌+◌, ◌≤◌, ◌<◌, ◌≡◌, ◌↔◌, refl, sym, ap, ◌∙◌, subst, List, [], ◌∷◌, ◌++◌, Option, some, arith,
  ltb, length, length-append, get_elem?, replicate, Bool-cases, inl, inr, Option-cases, ltb→lt,
  ltb_false→le, ℤ,
}
use memsniff.Assembly.Pool.Queued.{
  queued, queued-replicate, queued-send_batches, queued-take_work, queued-flush_old,
}
use memsniff.Assembly.Pool.Answers.{length-answer, get-answer, get-snoc, get_some, get_none}

-- Every batch of a call is answered, queued or refused.
pub record Waits {Packet Asm : Type 0} (p : Pool Packet Asm) : Type 0 where
  pub known : (j : ℕ) → length p.calls ≤ j → queued j p.workers ≡ 0
  pub kept :
      (j : ℕ) (c : Call)
      → get_elem? p.calls j ≡ some c
      → c.sent ≡ c.done + queued j p.workers + c.refused

-- What stays of a call.
abbrev pub Lasts : {Packet Asm : Type 0} → Pool Packet Asm → Pool Packet Asm → Type 0
Lasts p q =
    (j : ℕ) (c : Call)
    → get_elem? p.calls j ≡ some c
    → (d : Call) × (get_elem? q.calls j ≡ some d) × (d.sent ≡ c.sent) × (d.refused ≡ c.refused)

module _ {Packet Asm : Type 0} (assemble : Asm → Packet → Asm) (flush : Asm → ℤ → Asm)
    (time_of : Packet → ℕ) where
  answered :
      (p : Pool Packet Asm) (i : ℕ) (r : WorkItem Packet × List (Worker Packet Asm))
      → take_work assemble flush time_of p.workers i ≡ some r
      → Waits p
      → Waits {Packet = Packet} {Asm = Asm}
          (record { workers = r.1; calls = answer p.calls r.0.call })
  answered p i r e w = record {
    known = λ j h. omega (
      arith,
      queued-take_work assemble flush time_of j i p.workers r e,
      w.known j (omega (arith, length-answer p.calls r.0.call)),
    );
    kept = λ j d g.
        let (c, h) = get_some p.calls j (
          omega
            (arith, length-answer p.calls r.0.call, get_none (answer p.calls r.0.call) j d g)) in
        ground (
          arith,
          get-answer p.calls r.0.call j c h,
          w.kept j c h,
          queued-take_work assemble flush time_of j i p.workers r e,
        );
  }

  handled :
      (p : Pool Packet Asm) (batches : List (List Packet))
      → Waits p
      → let (ws, s, r) = send_batches (length p.calls) p.workers batches in
        Waits {Packet = Packet} {Asm = Asm} (record {
          workers = ws;
          calls = p.calls ++ record { sent = s; refused = r; done = 0 } ∷ [];
        })
  handled p batches w = record {
    known = λ j h.
        let size : length p.calls < j = omega (arith, length-append p.calls (call ∷ [])) in
        ground (
          arith,
          queued-send_batches j (length p.calls) p.workers batches,
          w.known j (omega arith),
        );
    kept = λ j d g. elim (Bool-cases (ltb j (length p.calls))) [
      | inl old ↦
          let lt : j < length p.calls = ltb→lt j (length p.calls) old in
          ground (
            arith,
            queued-send_batches j (length p.calls) p.workers batches,
            w.kept j d (sym ((get-snoc p.calls call j).0 lt) ∙ g),
          )
      | inr new ↦
          let e : j ≡ length p.calls = omega (
            arith,
            ltb_false→le j (length p.calls) new,
            get_none (p.calls ++ call ∷ []) j d g,
            length-append p.calls (call ∷ []),
          ) in
          let same : some call ≡ some d = sym ((get-snoc p.calls call j).1 e) ∙ g in
          ground (
            arith,
            same,
            queued-send_batches j (length p.calls) p.workers batches,
            w.known j (omega arith),
          )
    ];
  }
    where
      call : Call
      call = record {
        sent = (send_batches (length p.calls) p.workers batches).1;
        refused = (send_batches (length p.calls) p.workers batches).2;
        done = 0;
      }

  step-Waits :
      (slot_of : ℕ → Packet → Option ℕ) (a : Action Packet) (p q : Pool Packet Asm)
      → step assemble flush time_of slot_of a p ≡ some q
      → Waits p
      → Waits q × Lasts p q
  unfolding step handle_packets
  step-Waits slot_of (handle dps) p q e w =
      elim (Option-cases
        (spread (slot_of (length p.workers)) (replicate (length p.workers) []) dps)) [
          | inl n ↦ absurd (ground (arith, n))
          | inr (batches, h) ↦
              let r = send_batches (length p.calls) p.workers batches in
              let c : Call = record { sent = r.1; refused = r.2; done = 0 } in
              let same : record { workers = r.0; calls = p.calls ++ c ∷ [] } ≡ q =
                ground (arith, h, e) in
              subst (λ x. Waits x × Lasts p x) same
                (
                  handled p batches w,
                  λ j d g. (d, (get-snoc p.calls c j).0 (get_none p.calls j d g) ∙ g, refl, refl),
                )
        ]
  step-Waits slot_of (tick i) p q e w =
      let same : record p { workers = flush_old assemble flush time_of p.workers i } ≡ q =
        ground (arith, e) in
      subst (λ x. Waits x × Lasts p x) same
        (
          record {
            known = λ j h. queued-flush_old assemble flush time_of j i p.workers ∙ w.known j h;
            kept = λ j d g.
                w.kept j d g
                ∙ ap (λ n. d.done + n + d.refused)
                    (sym (queued-flush_old assemble flush time_of j i p.workers));
          },
          λ j d g. (d, g, refl, refl),
        )
  step-Waits slot_of (take_item i) p q e w =
      elim (Option-cases (take_work assemble flush time_of p.workers i)) [
        | inl n ↦ absurd (ground (arith, n))
        | inr (r, h) ↦
            let same : record { workers = r.1; calls = answer p.calls r.0.call } ≡ q =
              ground (arith, h, e) in
            subst (λ x. Waits x × Lasts p x) same
              (answered p i r h w, λ j d g. (_, get-answer p.calls r.0.call j d g, refl, refl))
      ]

  runs-Waits :
      (slot_of : ℕ → Packet → Option ℕ) (acts : List (Action Packet)) (p q : Pool Packet Asm)
      → runs assemble flush time_of slot_of acts p ≡ some q
      → Waits p
      → Waits q × Lasts p q
  unfolding runs
  runs-Waits slot_of [] p q e w =
      let same : p ≡ q = ground arith in
      subst (λ x. Waits x × Lasts p x) same (w, λ j d g. (d, g, refl, refl))
  runs-Waits slot_of (a ∷ acts) p q e w =
      elim (Option-cases (step assemble flush time_of slot_of a p)) [
        | inl n ↦ absurd (ground (arith, n))
        | inr (r, h) ↦
            let (wr, lr) = step-Waits slot_of a p r h w in
            let (wq, lq) = runs-Waits slot_of acts r q (ground (arith, h, e)) wr in
            (
              wq,
              λ j c g.
                  let (d, gd, sd, rd) = lr j c g in
                  let (x, gx, sx, rx) = lq j d gd in (x, gx, sx ∙ sd, rx ∙ rd),
            )
      ]

  new_pool-Waits : (fresh : Asm) (n : ℕ) → Waits {Packet = Packet} (new_pool fresh n)
  unfolding new_pool
  new_pool-Waits fresh n = record {
    known = λ j h.
        queued-replicate j n (record { assembler = fresh; queue = []; most_recent = 0 }) refl;
    kept = λ j c g. absurd (ground (arith, g));
  }

  -- When a call has had as many answers as it waits for.
  pub record Returns (p : Pool Packet Asm) : Type 0 where
    pub returns :
        (j : ℕ) (c : Call)
        → get_elem? p.calls j ≡ some c
        → (c.done ≡ c.sent) ↔ ((queued j p.workers ≡ 0) × (c.refused ≡ 0))
    pub no_more : (j : ℕ) (c : Call) → get_elem? p.calls j ≡ some c → c.done ≤ c.sent

  -- After any sequence of calls of HandlePackets, rounds of workers and ticks on a new pool, a
  -- call has had the answers it waits for exactly when none of its batches is queued and none
  -- was refused, and never more.
  pub runs-Returns :
      (slot_of : ℕ → Packet → Option ℕ) (fresh : Asm) (n : ℕ) (acts : List (Action Packet))
      (p : Pool Packet Asm)
      → runs assemble flush time_of slot_of acts (new_pool fresh n) ≡ some p
      → Returns p
  runs-Returns slot_of fresh n acts p e =
      let w = (runs-Waits slot_of acts (new_pool fresh n) p e (new_pool-Waits fresh n)).0 in
      record {
        returns = λ j c g.
            let k = w.kept j c g in
            ((λ h. (omega (arith, h, k), omega (arith, h, k))), (λ h. omega (arith, h, k)));
        no_more = λ j c g. omega (arith, w.kept j c g);
      }

  -- A call of HandlePackets one of whose batches met a full queue never has the answers it
  -- waits for, whatever happens later.
  pub refused-runs :
      (slot_of : ℕ → Packet → Option ℕ) (fresh : Asm) (n : ℕ) (acts more : List (Action Packet))
      (p q : Pool Packet Asm) (j : ℕ) (c : Call)
      → runs assemble flush time_of slot_of acts (new_pool fresh n) ≡ some p
      → get_elem? p.calls j ≡ some c
      → 0 < c.refused
      → runs assemble flush time_of slot_of more p ≡ some q
      → (d : Call) × (get_elem? q.calls j ≡ some d) × (d.done < d.sent)
  refused-runs slot_of fresh n acts more p q j c e g lt m =
      let w = (runs-Waits slot_of acts (new_pool fresh n) p e (new_pool-Waits fresh n)).0 in
      let (v, l) = runs-Waits slot_of more p q m w in
      let (d, h, s, r) = l j c g in (d, h, omega (arith, v.kept j d h, r, lt))
