-- ===== src/Assembly/Pool/Queued.antt =====
-- How many batches of a call of HandlePackets the workers of assembly/worker.go hold.
use memsniff.Assembly.Pool.{
  WorkItem, Worker, enqueue, send_batch, send_batches, assemble_all, take_work, flush_old,
}
use memsniff.Common.{
  ℕ, zero, suc, ◌+◌, ◌≡◌, refl, List, [], ◌∷◌, ◌++◌, some, arith, ◌==◌, if◌then◌else◌, replicate,
  inl, inr, Option-cases, ℤ,
}

module _ {Packet : Type 0} where
  -- The work items of call `j`.
  abbrev pub items_of : ℕ → List (WorkItem Packet) → ℕ
  items_of j [] = 0
  items_of j (item ∷ items) = (if item.call == j then 1 else 0) + items_of j items

  items_of-append :
      (j : ℕ) (xs ys : List (WorkItem Packet))
      → items_of j (xs ++ ys) ≡ items_of j xs + items_of j ys
  items_of-append j [] ys = omega arith
  items_of-append j (x ∷ xs) ys = omega (arith, items_of-append j xs ys)

module _ {Packet Asm : Type 0} where
  abbrev pub queued : ℕ → List (Worker Packet Asm) → ℕ
  queued j [] = 0
  queued j (w ∷ ws) = items_of j w.queue + queued j ws

  pub queued-replicate :
      (j n : ℕ) (w : Worker Packet Asm) → items_of j w.queue ≡ 0 → queued j (replicate n w) ≡ 0
  queued-replicate j zero w h = refl
  queued-replicate j (suc n) w h = omega (arith, queued-replicate j n w h, h)

  -- What a batch adds to the work items of call `j`.
  queued-send_batch :
      (j call : ℕ) (w : Worker Packet Asm) (b : List Packet)
      → (items_of j (send_batch call w b).0.queue
            + (if call == j then (send_batch call w b).2 else 0)
          ≡ items_of j w.queue + (if call == j then (send_batch call w b).1 else 0))
  unfolding send_batch enqueue
  queued-send_batch j call w [] = ground arith
  queued-send_batch j call w (p ∷ ps) =
      ground (arith, items_of-append j w.queue (record { dps = p ∷ ps; call = call } ∷ []))

  pub queued-send_batches :
      (j call : ℕ) (ws : List (Worker Packet Asm)) (bs : List (List Packet))
      → (queued j (send_batches call ws bs).0
            + (if call == j then (send_batches call ws bs).2 else 0)
          ≡ queued j ws + (if call == j then (send_batches call ws bs).1 else 0))
  unfolding send_batches
  queued-send_batches j call [] bs = ground arith
  queued-send_batches j call (w ∷ ws) [] = ground arith
  queued-send_batches j call (w ∷ ws) (b ∷ bs) =
      ground (arith, queued-send_batch j call w b, queued-send_batches j call ws bs)

module _ {Packet Asm : Type 0} (assemble : Asm → Packet → Asm) (flush : Asm → ℤ → Asm)
    (time_of : Packet → ℕ) where
  assemble_all_queue :
      (dps : List Packet) (w : Worker Packet Asm)
      → (assemble_all assemble flush time_of w dps).queue ≡ w.queue
  unfolding assemble_all
  assemble_all_queue [] w = refl
  assemble_all_queue (dp ∷ dps) w =
      assemble_all_queue dps
        (record w { most_recent = time_of dp; assembler = assemble w.assembler dp })

  first_item :
      (j : ℕ) (w : Worker Packet Asm) (ws : List (Worker Packet Asm)) (q : List (WorkItem Packet))
      (r : WorkItem Packet × List (Worker Packet Asm))
      → w.queue ≡ q
      → take_work assemble flush time_of (w ∷ ws) zero ≡ some r
      → queued j (w ∷ ws) ≡ queued j r.1 + (if r.0.call == j then 1 else 0)
  unfolding take_work
  first_item j w ws [] r h e = absurd (ground arith)
  first_item j w ws (item ∷ rest) r h e =
      ground (arith, assemble_all_queue item.dps (record w { queue = rest }))

  pub queued-take_work :
      (j i : ℕ) (ws : List (Worker Packet Asm)) (r : WorkItem Packet × List (Worker Packet Asm))
      → take_work assemble flush time_of ws i ≡ some r
      → queued j ws ≡ queued j r.1 + (if r.0.call == j then 1 else 0)
  unfolding take_work
  queued-take_work j i [] r e = absurd (ground arith)
  queued-take_work j zero (w ∷ ws) r e = first_item j w ws w.queue r refl e
  queued-take_work j (suc i) (w ∷ ws) r e =
      elim (Option-cases (take_work assemble flush time_of ws i)) [
        | inl n ↦ absurd (ground arith)
        | inr (s, h) ↦ ground (arith, queued-take_work j i ws s h)
      ]

  pub queued-flush_old :
      (j i : ℕ) (ws : List (Worker Packet Asm))
      → queued j (flush_old assemble flush time_of ws i) ≡ queued j ws
  unfolding flush_old
  queued-flush_old j i [] = refl
  queued-flush_old j zero (w ∷ ws) = refl
  queued-flush_old j (suc i) (w ∷ ws) = omega (arith, queued-flush_old j i ws)
