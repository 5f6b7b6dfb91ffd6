-- ===== src/Mctext/Run.antt =====
-- The loop of (*Consumer).run in protocol/mctext/consumer.go.
use memsniff.Error.{Error}
use memsniff.Source.Laws.{reset-SourceIsValid}
use memsniff.Mctext.{Conversation, client, server, step, resync, run_loop, fuel, run, waits}
use memsniff.Mctext.Sound.{IsSound, measure, measure-lt-fuel}
use memsniff.Mctext.Steps.{step-StepIsSound}
use memsniff.Common.{
  ℕ, zero, suc, ◌+◌, ◌<◌, ◌≡◌, refl, sym, ap, none, some, arith, inl, inr, Option-cases, Bool-cases,
  if◌then◌else◌, ◌∙◌, subst,
}

resync-IsSound : (c : Conversation) → IsSound c → IsSound (resync c)
unfolding resync
resync-IsSound c v = record {
  client_valid = reset-SourceIsValid (client c) v.client_valid;
  server_valid = reset-SourceIsValid (server c) v.server_valid;
  few_events = v.few_events;
  state_ok = tt;
}

-- How a run ends: with fuel for every round, in a sound conversation.
record Ends (f : ℕ) (c : Conversation) : Type 0 where
  last : Conversation
  ends : run_loop f c ≡ some last
  sound : IsSound last

pub run_loop_next :
    (f : ℕ) (c : Conversation) → (step c).1 ≡ none → run_loop (suc f) c ≡ run_loop f (step c).0
unfolding run_loop
run_loop_next f c e = rw (e, run_loop) refl

pub run_loop_last :
    (f : ℕ) (c : Conversation) (err : Error)
    → (step c).1 ≡ some err
    → run_loop (suc f) c ≡ (if waits err then some (step c).0 else some (resync (step c).0))
unfolding run_loop
run_loop_last f c err e = rw (e, run_loop) refl

last-Ends :
    (f : ℕ) (c : Conversation) (err : Error) → IsSound c → (step c).1 ≡ some err → Ends (suc f) c
last-Ends f c err v e = elim (Bool-cases (waits err)) [
  | inl h ↦ record {
    last = (step c).0;
    ends = run_loop_last f c err e ∙ rw h refl;
    sound = (step-StepIsSound c v).sound;
  }
  | inr h ↦ record {
    last = resync (step c).0;
    ends = run_loop_last f c err e ∙ rw h refl;
    sound = resync-IsSound (step c).0 (step-StepIsSound c v).sound;
  }
]

run_loop-Ends : (f : ℕ) (c : Conversation) → IsSound c → measure c < f → Ends f c
run_loop-Ends zero c v h = absurd (omega arith)
run_loop-Ends (suc f) c v h = elim (Option-cases (step c).1) [
  | inl e ↦
      let after = step-StepIsSound c v in
      let rest = run_loop-Ends f (step c).0 after.sound (omega (arith, after.progress e)) in
      record { last = rest.last; ends = run_loop_next f c e ∙ rest.ends; sound = rest.sound }
  | inr (err, e) ↦ last-Ends f c err v e
]

-- More fuel changes nothing.
run_loop_more :
    (f k : ℕ) (c : Conversation) {c' : Conversation}
    → run_loop f c ≡ some c'
    → run_loop (f + k) c ≡ some c'
run_loop_more zero k c e = absurd (unfold run_loop in ground arith)
run_loop_more (suc f) k c {c'} e =
    let shift : suc f + k ≡ suc (f + k) = omega arith in
    rw shift (elim (Option-cases (step c).1) [
      | inl going ↦
          run_loop_next (f + k) c going
          ∙ run_loop_more f k (step c).0 (sym (run_loop_next f c going) ∙ e)
      | inr (err, stopped) ↦
          run_loop_last (f + k) c err stopped ∙ sym (run_loop_last f c err stopped) ∙ e
    ])

some_inj : {c d : Conversation} → some c ≡ some d → c ≡ d
some_inj e = ground arith

run-eq-last : (c : Conversation) (e : Ends (fuel c) c) → run c ≡ e.last
unfolding run
run-eq-last c e = rw (e.ends, run) refl

-- The loop of run ends on a sound conversation: with any fuel above the bytes that both streams
-- hold, plus one in the state peekMagicByte, it stops in the conversation that run returns, and
-- that conversation is sound.
pub run_loop-run :
    (f : ℕ) (c : Conversation)
    → IsSound c
    → measure c < f
    → (run_loop f c ≡ some (run c)) × IsSound (run c)
run_loop-run f c v h =
    (a.ends ∙ ap some (same ∙ sym (run-eq-last c b)), subst IsSound (sym (run-eq-last c b)) b.sound)
  where
    a : Ends f c
    a = run_loop-Ends f c v h

    b : Ends (fuel c) c
    b = run_loop-Ends (fuel c) c v (measure-lt-fuel c)

    swapped : run_loop (f + fuel c) c ≡ run_loop (fuel c + f) c
    swapped = ap (λ n. run_loop n c) {x = f + fuel c} {y = fuel c + f} (omega arith)

    same : a.last ≡ b.last
    same =
        some_inj
          (sym (run_loop_more f (fuel c) c a.ends) ∙ swapped ∙ run_loop_more (fuel c) f c b.ends)

pub run-IsSound : (c : Conversation) → IsSound c → IsSound (run c)
run-IsSound c v = (run_loop-run (fuel c) c v (measure-lt-fuel c)).1
