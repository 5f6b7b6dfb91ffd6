-- ===== src/Mctext/History.antt =====
-- The events of whole conversations of protocol/mctext/consumer.go.
use memsniff.Reader.{Reassembly}
use memsniff.Source
use memsniff.Source.{data_len}
use memsniff.Model
use memsniff.Model.{
  Event, event_get_hit, Consumer, Session, with_client, with_server, flush_events, add_event,
}
use memsniff.Model.Events.{all_events, all_events-flush_events}
use memsniff.Mctext.{
  Conversation, client, server, step, resync, run_loop, run, fuel, waits, client_reassembled,
  server_reassembled,
}
use memsniff.Mctext.Run.{run_loop_next, run_loop_last}
use memsniff.Mctext.Feed.{Input, from_client, from_server, client_ends, server_ends, feed, feed_all}
use memsniff.Common.{
  ℕ, zero, suc, ◌≡◌, refl, sym, subst, ◌∙◌, Bool, true, false, List, [], ◌∷◌, append-nil, some,
  arith, Option-cases, inl, inr, if◌then◌else◌,
}
use memsniff.Mctext.Kept.{
  Extends, SameEvents, same-Extends, Extends-self, Extends-trans, same_left, step_in-Extends,
}

some_eq : {c d : Conversation} → some c ≡ some d → c ≡ d
some_eq e = ground arith

resync-Same : (c : Conversation) → SameEvents c (resync c)
unfolding resync
resync-Same c = record { buffered = refl; handed_on = refl }

stops-Extends :
    (c d : Conversation) (stay : Bool)
    → (if stay then some c else some (resync c)) ≡ some d
    → Extends c d
stops-Extends c d true e = same-Extends c d (ground (arith, some_eq e))
stops-Extends c d false e =
    subst (Extends c) (some_eq e) (same-Extends c (resync c) (resync-Same c))

run_loop-Extends : (f : ℕ) (c d : Conversation) → run_loop f c ≡ some d → Extends c d
run_loop-Extends zero c d e = absurd (unfold run_loop in ground arith)
run_loop-Extends (suc f) c d e = elim (Option-cases (step c).1) [
  | inl n ↦
      Extends-trans c (step c).0 d (step_in-Extends c.own.state c)
        (run_loop-Extends f (step c).0 d (sym (run_loop_next f c n) ∙ e))
  | inr (err, n) ↦
      Extends-trans c (step c).0 d (step_in-Extends c.own.state c)
        (stops-Extends (step c).0 d (waits err) (sym (run_loop_last f c err n) ∙ e))
]

run-Extends : (c : Conversation) → Extends c (run c)
unfolding run
run-Extends c = elim (Option-cases (run_loop (fuel c) c)) [
  | inl e ↦ rw (e, run) (Extends-self c)
  | inr (d, e) ↦ rw (e, run) (run_loop-Extends (fuel c) c d e)
]

either-Extends : (c : Conversation) (b : Bool) → Extends c (if b then run c else c)
either-Extends c true = run-Extends c
either-Extends c false = Extends-self c

guarded_run-Extends : (c : Conversation) → Extends c (Model.run run c)
unfolding Model.run
guarded_run-Extends c = either-Extends c c.base.running

client_reassembled-Extends :
    (rs : List Reassembly) (c : Conversation) → Extends c (client_reassembled c rs)
unfolding client_reassembled Model.client_reassembled
client_reassembled-Extends [] c = Extends-self c
client_reassembled-Extends (r ∷ rs) c =
    let d = with_client c (Source.reassembled (client c) (r ∷ [])) in
    same_left c d _ (record { buffered = refl; handed_on = refl })
      (Extends-trans d (Model.run run d) _ (guarded_run-Extends d)
        (client_reassembled-Extends rs (Model.run run d)))

server_reassembled-Extends :
    (rs : List Reassembly) (c : Conversation) → Extends c (server_reassembled c rs)
unfolding server_reassembled Model.server_reassembled
server_reassembled-Extends [] c = Extends-self c
server_reassembled-Extends (r ∷ rs) c =
    let d = with_server c (Source.reassembled (server c) (r ∷ [])) in
    same_left c d _ (record { buffered = refl; handed_on = refl })
      (Extends-trans d (Model.run run d) _ (guarded_run-Extends d)
        (server_reassembled-Extends rs (Model.run run d)))

feed-Extends : (i : Input) (c : Conversation) → Extends c (feed c i)
unfolding feed Model.client_complete Model.server_complete all_events flush_events
feed-Extends (from_client rs) c = client_reassembled-Extends rs c
feed-Extends (from_server rs) c = server_reassembled-Extends rs c
feed-Extends client_ends c = record {
  more = [];
  events = all_events-flush_events c.base ∙ sym (append-nil (all_events c.base));
}
feed-Extends server_ends c = record {
  more = [];
  events = all_events-flush_events c.base ∙ sym (append-nil (all_events c.base));
}

-- Whatever segments and ends of stream a conversation is fed, in whatever order, no event is
-- taken back, changed or reordered: the events delivered and waiting afterwards are those of
-- before, in order, and more behind them.
pub feed_all-Extends : (is : List Input) (c : Conversation) → Extends c (feed_all c is)
unfolding feed_all
feed_all-Extends [] c = Extends-self c
feed_all-Extends (i ∷ is) c =
    Extends-trans c (feed c i) (feed_all (feed c i) is) (feed-Extends i c)
      (feed_all-Extends is (feed c i))
