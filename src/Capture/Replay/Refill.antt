-- ===== src/Capture/Replay/Refill.antt =====
-- fill and the loop round it, in (*replayer).CollectPackets of capture/replay.go.
use mathlib.Core.List.{flatten}
use memsniff.Capture.Packets.{PacketData, PacketBuffer, packet_len, packet_cap}
use memsniff.Capture.Packets.Refine.{IsValid, contents}
use memsniff.Capture.Collect.{CollectError}
use memsniff.Capture.Sources.{PacketSource}
use memsniff.Capture.Replay.{
  Replayer, set_first, fill, fill_with, fill_loop, after_fill, after_drop, drop_expired,
}
use memsniff.Capture.Replay.Expired.{
  pending, next_pending, fresh_of, old_of, old_of-fresh_of, AreOld, old_of-AreOld, AreOld-append,
  AreOld-later, Drops,
}
use memsniff.Capture.Replay.Written.{AreSnapped}
use memsniff.Common.{
  ℕ, suc, ◌+◌, ◌≤◌, ◌<◌, ◌≡◌, refl, sym, ap, ◌∙◌, subst, true, false, List, [], ◌∷◌, ◌++◌,
  append_assoc, append-nil, Option, none, some, arith, length, length-append, ltb, ◌==◌, Bool-cases,
  inl, inr,
}
use memsniff.Capture.Replay.Settled.{IsFirstTime, IsRoomy, Reads, waiting, limit_of, IsSettled}

module _ {Src Info : Type 0} (ps : PacketSource Src Info) (timestamp : Info → ℕ) where
  pub record Refills (elapsed : ℕ) (r : Replayer Src Info)
      (o : Option (Replayer Src Info × Option CollectError)) : Type 0 where
    pub after : Replayer Src Info
    pub error : Option CollectError
    pub found : o ≡ some (after, error)
    pub batches : List (List (PacketData Info))
    pub gone : List (PacketData Info)
    pub read : Reads ps r.src r.buf batches after.src after.buf error
    pub flow : pending r ++ flatten batches ≡ gone ++ waiting after error
    pub old : AreOld timestamp (limit_of elapsed after) gone
    pub later : r.first ≤ after.first
    pub counts : after.dropped ≡ r.dropped + length gone
    pub received : after.received ≡ r.received
    pub roomy : IsRoomy after.buf
    pub as_large : packet_cap after.buf ≡ packet_cap r.buf
    pub ready :
        error ≡ none
        → (after.cursor < packet_len after.buf)
          × IsSettled timestamp elapsed after
          × AreSnapped (pending after)

  pub ready_at :
      (elapsed : ℕ) (r : Replayer Src Info)
      → IsRoomy r.buf
      → r.cursor < packet_len r.buf
      → IsSettled timestamp elapsed r
      → AreSnapped (pending r)
      → Refills elapsed r (some (r, none))
  unfolding flatten
  ready_at elapsed r v lt st sn = record {
    after = r;
    error = none;
    found = refl;
    batches = [];
    gone = [];
    read = (refl, refl);
    flow = append-nil (pending r);
    old = tt;
    later = omega arith;
    counts = omega arith;
    received = refl;
    roomy = v;
    as_large = refl;
    ready = λ e. (lt, st, sn);
  }

  abbrev pub failed_fill : Replayer Src Info → Src → PacketBuffer Info → Replayer Src Info
  failed_fill r s b = record r { src = s; buf = b }

  pub failed_at :
      (elapsed : ℕ) (r : Replayer Src Info) (e : CollectError)
      → (s : Src) (b : PacketBuffer Info) → pending r ≡ []
      → ps.collect r.src r.buf ≡ (s, b, some e)
      → IsRoomy b
      → packet_cap b ≡ packet_cap r.buf
      → Refills elapsed r (some (failed_fill r s b, some e))
  unfolding flatten
  failed_at elapsed r e s b p c v l = record {
    after = failed_fill r s b;
    error = some e;
    found = refl;
    batches = [];
    gone = [];
    read = c;
    flow = rw p refl;
    old = tt;
    later = omega arith;
    counts = omega arith;
    received = refl;
    roomy = v;
    as_large = l;
    ready = λ e. absurd (ground arith);
  }

  abbrev pub filled : Replayer Src Info → Src → PacketBuffer Info → ℕ → Replayer Src Info
  filled r s b t = record r { src = s; buf = b; cursor = 0; first = t }

  set_first_ok :
      (r : Replayer Src Info)
      → IsValid r.buf
      → 0 < packet_len r.buf
      → (t : ℕ) × (set_first timestamp r ≡ (record r { first = t }, none))
        × (r.first ≤ t)
        × IsFirstTime timestamp r r.buf t
  unfolding set_first
  set_first_ok r v h = elim (Bool-cases (r.first == 0)) [
    | inl z ↦
        let (p, g, d) = next_pending (record r { cursor = 0 }) v h in
        (timestamp p.info, rw (z, g) refl, ground arith, (p, _, d, rw z refl))
    | inr nz ↦
        let (p, g, d) = next_pending (record r { cursor = 0 }) v h in
        (r.first, rw nz refl, omega arith, (p, _, d, rw nz refl))
  ]

  pub fill_ok :
      (r : Replayer Src Info) (s : Src) (b : PacketBuffer Info)
      → ps.collect r.src r.buf ≡ (s, b, none)
      → IsValid b
      → 0 < packet_len b
      → (t : ℕ) × (fill ps timestamp r ≡ (filled r s b t, none))
        × (r.first ≤ t)
        × IsFirstTime timestamp r b t
  unfolding fill fill_with
  fill_ok r s b c v h =
      let (t, e, le, first) = set_first_ok (record r { src = s; buf = b; cursor = 0 }) v h in
      (t, ap (fill_with timestamp r) c ∙ e, le, first)

  pub fill_failed :
      (r : Replayer Src Info) (s : Src) (b : PacketBuffer Info) (e : CollectError)
      → ps.collect r.src r.buf ≡ (s, b, some e)
      → fill ps timestamp r ≡ (failed_fill r s b, some e)
  unfolding fill fill_with
  fill_failed r s b e c = ap (fill_with timestamp r) c

  pub loop_ready :
      (fuel elapsed : ℕ) (r : Replayer Src Info)
      → ltb r.cursor (packet_len r.buf) ≡ true
      → fill_loop ps timestamp (suc fuel) elapsed r ≡ some (r, none)
  unfolding fill_loop
  loop_ready fuel elapsed r h = rw (h, fill_loop) refl

  loop_fills :
      (fuel elapsed : ℕ) (r : Replayer Src Info)
      → ltb r.cursor (packet_len r.buf) ≡ false
      → fill_loop ps timestamp (suc fuel) elapsed r
        ≡ after_fill timestamp (fill_loop ps timestamp fuel elapsed) elapsed (fill ps timestamp r)
  unfolding fill_loop
  loop_fills fuel elapsed r h = rw (h, fill_loop) refl

  pub loop_failed :
      (fuel elapsed : ℕ) (r : Replayer Src Info) (s : Src) (b : PacketBuffer Info)
      (e : CollectError)
      → ltb r.cursor (packet_len r.buf) ≡ false
      → ps.collect r.src r.buf ≡ (s, b, some e)
      → fill_loop ps timestamp (suc fuel) elapsed r ≡ some (failed_fill r s b, some e)
  unfolding after_fill
  loop_failed fuel elapsed r s b e h c =
      loop_fills fuel elapsed r h
      ∙ ap (after_fill timestamp (fill_loop ps timestamp fuel elapsed) elapsed)
          (fill_failed r s b e c)

  pub loop_again :
      (fuel elapsed : ℕ) (r r1 r2 : Replayer Src Info)
      → ltb r.cursor (packet_len r.buf) ≡ false
      → fill ps timestamp r ≡ (r1, none)
      → drop_expired timestamp elapsed r1 ≡ (r2, none)
      → fill_loop ps timestamp (suc fuel) elapsed r ≡ fill_loop ps timestamp fuel elapsed r2
  unfolding after_fill after_drop
  loop_again fuel elapsed r r1 r2 h f d =
      loop_fills fuel elapsed r h
      ∙ ap (after_fill timestamp (fill_loop ps timestamp fuel elapsed) elapsed) f
      ∙ ap (after_drop timestamp (fill_loop ps timestamp fuel elapsed)) d

  -- A batch that the source gave to a replayer with nothing pending, and what follows.
  pub one_batch :
      (elapsed t : ℕ) (r r2 : Replayer Src Info) (s : Src) (b : PacketBuffer Info)
      (o : Option (Replayer Src Info × Option CollectError))
      → ps.collect r.src r.buf ≡ (s, b, none)
      → pending r ≡ []
      → r.first ≤ t
      → packet_cap b ≡ packet_cap r.buf
      → Drops timestamp (limit_of elapsed (filled r s b t)) (filled r s b t) (r2, none)
      → Refills elapsed r2 o
      → Refills elapsed r o
  unfolding flatten
  one_batch elapsed t r r2 s b o c none_left le l d f = record {
    after = f.after;
    error = f.error;
    found = f.found;
    batches = contents b ∷ f.batches;
    gone = old ++ f.gone;
    read = (
      s,
      b,
      c,
      refl,
      subst (λ x. Reads ps x.src x.buf f.batches f.after.src f.after.buf f.error) d.others f.read,
    );
    flow =
        ap (λ ps. ps ++ (contents b ++ flatten f.batches)) none_left
        ∙ ap (λ ps. ps ++ flatten f.batches)
            (sym (old_of-fresh_of timestamp (t + elapsed) (contents b)))
        ∙ append_assoc old (fresh_of timestamp (t + elapsed) (contents b)) (flatten f.batches)
        ∙ ap (λ ps. old ++ (ps ++ flatten f.batches)) (sym d.waits)
        ∙ ap (λ ps. old ++ ps) f.flow
        ∙ sym (append_assoc old f.gone (waiting f.after f.error));
    old =
        AreOld-append timestamp (limit_of elapsed f.after) old f.gone
          (AreOld-later timestamp (t + elapsed) (limit_of elapsed f.after) old
            (omega (arith, f.later, first_kept))
            (old_of-AreOld timestamp (t + elapsed) (contents b)))
          f.old;
    later = omega (arith, f.later, first_kept, le);
    counts = omega (arith, f.counts, d.counts, length-append old f.gone);
    received = f.received ∙ ap (λ x. x.received) d.others;
    roomy = f.roomy;
    as_large = f.as_large ∙ ap (λ x. packet_cap x.buf) d.others ∙ l;
    ready = f.ready;
  }
    where
      old : List (PacketData Info)
      old = old_of timestamp (limit_of elapsed (filled r s b t)) (contents b)

      first_kept : r2.first ≡ t
      first_kept = ap (λ x. x.first) d.others
