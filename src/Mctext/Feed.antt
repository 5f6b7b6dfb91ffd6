-- ===== src/Mctext/Feed.antt =====
-- Whole conversations of protocol/mctext/consumer.go: what a connection feeds to a consumer.
use memsniff.Error.{AllReturned}
use memsniff.Buffer
use memsniff.Reader
use memsniff.Reader.{Reassembly}
use memsniff.Source.Laws.{ReaderIsValid, reassembled-IsValid}
use memsniff.Model
use memsniff.Model.{Session, Consumer, with_client, with_server, new_consumer, flush_events}
use memsniff.Mctext.{
  Conversation, client, server, new_conversation, step, run, client_reassembled, server_reassembled,
}
use memsniff.Mctext.Sound.{IsSound}
use memsniff.Mctext.Steps.{step-StepIsSound}
use memsniff.Common.{refl, List, [], ◌∷◌, arith, inl}
use memsniff.Mctext.Run.{run-IsSound}

-- What a TCP connection tells a conversation: segments from either side, or the end of a side.
pub data Input : Type 0 where
  from_client from_server : List Reassembly → Input
  client_ends server_ends : Input

unfoldable pub feed : Conversation → Input → Conversation
feed c (from_client rs) = client_reassembled c rs
feed c (from_server rs) = server_reassembled c rs
feed c client_ends = Model.client_complete c
feed c server_ends = Model.server_complete c

unfoldable pub feed_all : Conversation → List Input → Conversation
feed_all c [] = c
feed_all c (i ∷ is) = feed_all (feed c i) is

guarded_run-IsSound : (c : Conversation) → IsSound c → IsSound (Model.run run c)
unfolding Model.run
guarded_run-IsSound c v = ground (arith, run-IsSound c v)

client_reassembled-IsSound :
    (rs : List Reassembly) (c : Conversation) → IsSound c → IsSound (client_reassembled c rs)
unfolding client_reassembled Model.client_reassembled
client_reassembled-IsSound [] c v = v
client_reassembled-IsSound (r ∷ rs) c v = client_reassembled-IsSound rs _ (
    guarded_run-IsSound _ (record {
      client_valid = reassembled-IsValid (client c) (r ∷ []) v.client_valid;
      server_valid = v.server_valid;
      few_events = v.few_events;
      state_ok = v.state_ok;
    }))

server_reassembled-IsSound :
    (rs : List Reassembly) (c : Conversation) → IsSound c → IsSound (server_reassembled c rs)
unfolding server_reassembled Model.server_reassembled
server_reassembled-IsSound [] c v = v
server_reassembled-IsSound (r ∷ rs) c v = server_reassembled-IsSound rs _ (
    guarded_run-IsSound _ (record {
      client_valid = v.client_valid;
      server_valid = reassembled-IsValid (server c) (r ∷ []) v.server_valid;
      few_events = v.few_events;
      state_ok = v.state_ok;
    }))

complete-IsSound :
    (c : Conversation)
    → IsSound c
    → IsSound (Model.client_complete c) × IsSound (Model.server_complete c)
unfolding Model.client_complete Model.server_complete flush_events
complete-IsSound c v = ground arith

feed-IsSound : (c : Conversation) (i : Input) → IsSound c → IsSound (feed c i)
unfolding feed
feed-IsSound c (from_client rs) v = client_reassembled-IsSound rs c v
feed-IsSound c (from_server rs) v = server_reassembled-IsSound rs c v
feed-IsSound c client_ends v = (complete-IsSound c v).0
feed-IsSound c server_ends v = (complete-IsSound c v).1

feed_all-IsSound : (is : List Input) (c : Conversation) → IsSound c → IsSound (feed_all c is)
unfolding feed_all
feed_all-IsSound [] c v = v
feed_all-IsSound (i ∷ is) c v = feed_all-IsSound is (feed c i) (feed-IsSound c i v)

pub new_conversation-IsSound : IsSound new_conversation
unfolding new_conversation new_consumer Reader.new_reader Buffer.new_buffer Buffer.total_data
    Buffer.total_len
new_conversation-IsSound = record {
  client_valid = fresh;
  server_valid = fresh;
  few_events = omega arith;
  state_ok = tt;
}
  where
    fresh : ReaderIsValid Reader.new_reader
    fresh = record {
      buffer_valid = record { held = refl; counted = refl; bounded = omega arith; idle = inl refl };
      failure = tt;
    }

-- Whatever segments from either side and ends of either side a connection brings to a new
-- conversation, in whatever order, and with whatever bytes lost: the conversation is sound, and
-- its next State method raises no panic and needs no more fuel than it has.
pub feed_all_safe :
    (is : List Input)
    → IsSound (feed_all new_conversation is) × AllReturned (step (feed_all new_conversation is)).1
feed_all_safe is =
    let v = feed_all-IsSound is new_conversation new_conversation-IsSound in
    (v, (step-StepIsSound (feed_all new_conversation is) v).returned)
