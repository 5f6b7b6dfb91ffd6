-- ===== src/Mctext/Binary.antt =====
-- A connection that protocol/mctext/consumer.go takes for one of the binary protocol.
use memsniff.Error.{eof}
use memsniff.Buffer.Reading.{peek_n-read_n}
use memsniff.Reader
use memsniff.Reader.{Reassembly}
use memsniff.Source
use memsniff.Source.{Source, eof_source, reader}
use memsniff.Source.Plain.{SourceHolds, read_n-SourceHolds}
use memsniff.Model
use memsniff.Model.{Session, Consumer, flush_events, with_client, with_server}
use memsniff.Model.Events.{all_events, all_events-flush_events}
use memsniff.Mctext.{
  Conversation, Step, client, server, peek_magic_byte, step_in, step, step_peek_magic_byte,
  first_byte, run, run_loop, fuel, client_reassembled, server_reassembled,
}
use memsniff.Mctext.Run.{run_loop_last}
use memsniff.Mctext.Feed.{Input, from_client, from_server, client_ends, server_ends, feed, feed_all}
use memsniff.Common.{ℕ, suc, ◌≡◌, refl, sym, ap, subst, ◌-◌, ◌∙◌, false, List, [], ◌∷◌, some, arith}

peek_n-source :
    (s : Source) (n : ℕ) → Source.peek_n s n ≡ ((Source.read_n s n).1, (Source.read_n s n).2)
unfolding Source.peek_n Source.read_n Reader.peek_n Reader.read_n
peek_n-source eof_source n = refl
peek_n-source (reader r) n = ground (arith, peek_n-read_n r.buffer n)

-- A conversation that has been closed, with the events `es`.
pub record Ignores (c d : Conversation) : Type 0 where
  pub stopped : d.base.running ≡ false
  pub no_events : all_events d.base ≡ all_events c.base

run_stopped : (c : Conversation) → c.base.running ≡ false → Model.run run c ≡ c
unfolding Model.run
run_stopped c e = rw e refl

stopped_run : (c : Conversation) (d : Conversation) → Ignores c d → Ignores c (Model.run run d)
stopped_run c d i = rw (run_stopped d i.stopped) i

-- What a reader holds is no matter.
with_client-Ignores : (c d : Conversation) (r : Source) → Ignores c d → Ignores c (with_client d r)
unfolding all_events
with_client-Ignores c d r i = record { stopped = i.stopped; no_events = i.no_events }

with_server-Ignores : (c d : Conversation) (r : Source) → Ignores c d → Ignores c (with_server d r)
unfolding all_events
with_server-Ignores c d r i = record { stopped = i.stopped; no_events = i.no_events }

flush_events-Ignores :
    (c d : Conversation) → Ignores c d → Ignores c (record d { base = flush_events d.base })
unfolding flush_events
flush_events-Ignores c d i = record {
  stopped = i.stopped;
  no_events = all_events-flush_events d.base ∙ i.no_events;
}

client_ignored :
    (rs : List Reassembly) (c d : Conversation) → Ignores c d → Ignores c (client_reassembled d rs)
unfolding client_reassembled Model.client_reassembled
client_ignored [] c d i = i
client_ignored (r ∷ rs) c d i =
    client_ignored rs c _
      (stopped_run c _ (with_client-Ignores c d (Source.reassembled (client d) (r ∷ [])) i))

server_ignored :
    (rs : List Reassembly) (c d : Conversation) → Ignores c d → Ignores c (server_reassembled d rs)
unfolding server_reassembled Model.server_reassembled
server_ignored [] c d i = i
server_ignored (r ∷ rs) c d i =
    server_ignored rs c _
      (stopped_run c _ (with_server-Ignores c d (Source.reassembled (server d) (r ∷ [])) i))

feed_ignored : (i : Input) (c d : Conversation) → Ignores c d → Ignores c (feed d i)
unfolding feed Model.client_complete Model.server_complete
feed_ignored (from_client rs) c d i = client_ignored rs c d i
feed_ignored (from_server rs) c d i = server_ignored rs c d i
feed_ignored client_ends c d i = with_client-Ignores c _ eof_source (
    flush_events-Ignores c (with_client d (Source.reassembly_complete (client d)))
      (with_client-Ignores c d (Source.reassembly_complete (client d)) i))
feed_ignored server_ends c d i = with_server-Ignores c _ eof_source (
    flush_events-Ignores c (with_server d (Source.reassembly_complete (server d)))
      (with_server-Ignores c d (Source.reassembly_complete (server d)) i))

feed_all_ignored : (is : List Input) (c d : Conversation) → Ignores c d → Ignores c (feed_all d is)
unfolding feed_all
feed_all_ignored [] c d i = i
feed_all_ignored (x ∷ xs) c d i = feed_all_ignored xs c (feed d x) (feed_ignored x c d i)

round_first : (c : Conversation) → c.own.state ≡ peek_magic_byte → step c ≡ step_peek_magic_byte c
unfolding step_in
round_first c s = ap (λ t. step_in t c) s

peek_binary :
    (c : Conversation) (rest : List ℕ)
    → SourceHolds (client c) (0x80 ∷ rest)
    → ((step_peek_magic_byte c).1 ≡ some eof) × Ignores c (step_peek_magic_byte c).0
unfolding step_peek_magic_byte first_byte Model.close all_events
peek_binary c rest h =
    let (bytes, e, _) = read_n-SourceHolds (client c) (0x80 ∷ []) rest 1 h refl in
    ground (arith, peek_n-source (client c) 1)

step_binary :
    (c : Conversation) (rest : List ℕ)
    → c.own.state ≡ peek_magic_byte
    → SourceHolds (client c) (0x80 ∷ rest)
    → ((step c).1 ≡ some eof) × Ignores c (step c).0
step_binary c rest s h =
    subst (λ (r : Step). (r.1 ≡ some eof) × Ignores c r.0) (sym (round_first c s))
      (peek_binary c rest h)

run_binary : (c : Conversation) → (step c).1 ≡ some eof → run c ≡ (step c).0
unfolding run
run_binary c e = rw (loop, run) refl
  where
    loop : run_loop (fuel c) c ≡ some (step c).0
    loop =
        ap (λ f. run_loop f c) {x = fuel c} {y = suc (fuel c - 1)} (omega arith)
        ∙ run_loop_last (fuel c - 1) c eof e

-- A conversation in the state peekMagicByte whose client has sent 0x80 first, the magic byte of
-- a binary request, is closed by run: whatever segments and ends of stream follow, in whatever
-- order, it stays closed and no event is added.
pub binary_ignored :
    (c : Conversation) (rest : List ℕ) (is : List Input)
    → c.own.state ≡ peek_magic_byte
    → SourceHolds (client c) (0x80 ∷ rest)
    → Ignores c (feed_all (run c) is)
binary_ignored c rest is s h =
    let (e, i) = step_binary c rest s h in rw (run_binary c e) (feed_all_ignored is c (step c).0 i)
