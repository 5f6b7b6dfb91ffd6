-- ===== src/Log/Written.antt =====
-- Messages through a proxy, kept in a buffer and written out (log/logger.go), as main.go does.
use memsniff.Log.{
  sink, buffer, proxy, Logger, Logs, put, with_contexts, set_logger, log_to, log, log_all, reaches,
  write_to,
}
use memsniff.Common.{
  ℕ, suc, ◌≡◌, refl, sym, ap, ap₂, ◌∙◌, List, [], ◌∷◌, ◌++◌, append_assoc, append-nil, map, Option,
  none, some, arith,
}

put_here : {A : Type 0} (f : ℕ → A) (i : ℕ) (a : A) → put f i a i ≡ a
put_here f i a = ground arith

module _ {Item : Type 0} where
  abbrev through : ℕ → Logger Item
  through p = record { contexts = []; base = proxy p }

  log_again :
      (fuel : ℕ) (s s1 : Logs Item) (l : Logger Item) (m : List Item) (ms : List (List Item))
      → log fuel s l m ≡ some s1
      → log_all fuel s l (m ∷ ms) ≡ log_all fuel s1 l ms
  unfolding log_all
  log_again fuel s s1 l m ms q = ap (λ o. elim o [ none ↦ none | some x ↦ log_all fuel x l ms ]) q

  -- Every message of a list reaches the sink behind a proxy, with the proxied logger's contexts.
  abbrev Sinks : Logs Item → ℕ → List (List Item) → Option (Logs Item) → Type 0
  Sinks s k ms r =
      (t : Logs Item) × (r ≡ some t)
      × (t.sinks k ≡ s.sinks k ++ ms)
      × (t.buffers ≡ s.buffers)
      × (t.proxies ≡ s.proxies)

  to_sink :
      (fuel p k : ℕ) (s : Logs Item) (cs : List Item) (ms : List (List Item))
      → s.proxies p ≡ some (record { contexts = cs; base = sink k })
      → Sinks s k (map (with_contexts cs) ms) (log_all (suc fuel) s (through p) ms)
  unfolding log_all log log_to with_contexts
  to_sink fuel p k s cs [] e = (s, refl, sym (append-nil (s.sinks k)), refl, refl)
  to_sink fuel p k s cs (m ∷ ms) e =
      let s1 : Logs Item = record s {
        sinks = put s.sinks k (s.sinks k ++ with_contexts cs m ∷ []);
      } in
      let (t, f, a, b, c) = to_sink fuel p k s1 cs ms e in
      let q : log (suc fuel) s (through p) m ≡ some s1 = rw (e, log_to) refl in
      (
        t,
        log_again (suc fuel) s s1 (through p) m ms q ∙ f,
        a
            ∙ ap (λ xs. xs ++ map (with_contexts cs) ms) (put_here s.sinks k _)
            ∙ append_assoc (s.sinks k) (with_contexts cs m ∷ []) (map (with_contexts cs) ms),
        b,
        c,
      )

  -- The same for a buffer behind the proxy, without contexts.
  abbrev Buffers : Logs Item → ℕ → List (List Item) → Option (Logs Item) → Type 0
  Buffers s b ms r =
      (t : Logs Item) × (r ≡ some t)
      × (t.buffers b ≡ s.buffers b ++ ms)
      × (t.sinks ≡ s.sinks)
      × (t.proxies ≡ s.proxies)

  to_buffer :
      (fuel p b : ℕ) (s : Logs Item) (ms : List (List Item))
      → s.proxies p ≡ some (record { contexts = []; base = buffer b })
      → Buffers s b ms (log_all (suc fuel) s (through p) ms)
  unfolding log_all log log_to with_contexts
  to_buffer fuel p b s [] e = (s, refl, sym (append-nil (s.buffers b)), refl, refl)
  to_buffer fuel p b s (m ∷ ms) e =
      let s1 : Logs Item = record s { buffers = put s.buffers b (s.buffers b ++ m ∷ []) } in
      let (t, f, a, x, c) = to_buffer fuel p b s1 ms e in
      let q : log (suc fuel) s (through p) m ≡ some s1 = rw (e, log_to) refl in
      (
        t,
        log_again (suc fuel) s s1 (through p) m ms q ∙ f,
        a ∙ ap (λ xs. xs ++ ms) (put_here s.buffers b _) ∙ append_assoc (s.buffers b) (m ∷ []) ms,
        x,
        c,
      )

  -- How messages fare that are logged while a proxy leads to a buffer, which is written out once
  -- the proxy leads to a sink.
  pub record WrittenOut (fuel p b k : ℕ) (s : Logs Item) (cs : List Item) (ms : List (List Item))
      : Type 0 where
    pub kept : Logs Item
    pub shown : Logs Item
    pub logged : log_all fuel s (record { contexts = []; base = proxy p }) ms ≡ some kept
    pub written :
        write_to fuel
          (set_logger kept p (record { contexts = cs; base = sink k }))
          b
          (record { contexts = []; base = proxy p })
        ≡ some shown
    pub in_order : shown.sinks k ≡ s.sinks k ++ map (with_contexts cs) (s.buffers b ++ ms)
    pub still_kept : shown.buffers b ≡ s.buffers b ++ ms

  -- Messages that are logged through a proxy that leads to a BufferLogger, which is then
  -- written out through the same proxy once that leads to a sink behind some contexts, reach
  -- the sink in order, behind what it had and what the buffer had, each behind the contexts;
  -- the buffer still holds them.
  pub logged-WrittenOut :
      (fuel p b k : ℕ) (s : Logs Item) (cs : List Item) (ms : List (List Item))
      → s.proxies p ≡ some (record { contexts = []; base = buffer b })
      → WrittenOut (suc fuel) p b k s cs ms
  unfolding write_to reaches set_logger
  logged-WrittenOut fuel p b k s cs ms e =
      let (t, f, kept, same, proxies) = to_buffer fuel p b s ms e in
      let t1 : Logs Item = set_logger t p (record { contexts = cs; base = sink k }) in
      let now : t1.proxies p ≡ some (record { contexts = cs; base = sink k }) =
        put_here t.proxies p _ in
      let (u, g, a, bufs, c) = to_sink fuel p k t1 cs (t1.buffers b) now in
      record {
        kept = t;
        shown = u;
        logged = f;
        written = rw (now, write_to, reaches) g;
        in_order = a ∙ ap₂ (λ x y. x k ++ map (with_contexts cs) y) same kept;
        still_kept = ap (λ x. x b) bufs ∙ kept;
      }
