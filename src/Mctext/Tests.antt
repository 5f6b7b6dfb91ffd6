-- ===== src/Mctext/Tests.antt =====
-- The test of protocol/mctext/consumer_test.go, and other conversations run on concrete segments.
mod Requests
use memsniff.Buffer
use memsniff.Reader
use memsniff.Reader.{Reassembly}
use memsniff.Source
use memsniff.Model
use memsniff.Model.{Event, event_get_hit, flush_events}
use memsniff.Mctext.{
  Conversation, new_conversation, client_reassembled, server_reassembled, run, run_loop, step_in,
  step_peek_magic_byte, step_read_command, step_read_args, step_handle_get, step_handle_set,
  step_handle_quit, step_handle_unknown, step_discard_response, first_byte, command_state,
  read_word, after_command, after_arg, value_fields, take_value, get_sized, get_line, get_loop,
  size_arg, resync,
}
use memsniff.Mctext.Text.{
  codes, equal, trim_right, split, all_letters, ascii_word, digits, in_range, signed, atoi,
}
use memsniff.Error.{AllReturned}
use memsniff.Reader.{buffer_size}
use memsniff.Buffer.Cells.{cells}
use memsniff.Source.{Source, reader}
use memsniff.Source.Plain.{ReaderHolds}
use memsniff.Model.{new_consumer}
use memsniff.Mctext.{State, step, read_command, handle_get}
use memsniff.Mctext.Sound.{IsSound, StepIsSound}
use memsniff.Mctext.Steps.{step-StepIsSound}
use memsniff.Mctext.Run.{run_loop-run}
use memsniff.Mctext.Feed.{Input, from_client, from_server, client_ends, feed_all, feed_all_safe}
use memsniff.Mctext.Reply.{Item, IsWellFormed, render}
use memsniff.Mctext.Answer.{Answers, handle_get-render}
use memsniff.Mctext.Args.{IsArg, Parses, render_args, request-Parses}
use memsniff.Mctext.Request.{crlf, ReadsCommand, read_command-ReadsCommand}
use memsniff.Word.{wrap}
use memsniff.Common.{
  ℕ, ◌++◌, ◌≡◌, refl, List, [], ◌∷◌, none, some, true, false, pos, length, arith, inl,
}

data Segment : Type 0 where
  client_sends server_sends : List ℕ → Segment

abbrev bytes_of : List ℕ → List Reassembly
bytes_of bytes = record { skip = pos 0; bytes = bytes } ∷ []

play : Conversation → List Segment → Conversation
unfolding new_conversation client_reassembled server_reassembled run run_loop step_in
    step_peek_magic_byte step_read_command step_read_args step_handle_get step_handle_set
    step_handle_quit step_handle_unknown step_discard_response first_byte command_state read_word
    after_command after_arg value_fields take_value get_sized get_line get_loop size_arg resync
    equal trim_right split all_letters ascii_word digits in_range signed atoi wrap Model.run
    Model.client_reassembled Model.server_reassembled Model.new_consumer Model.add_event
    Model.flush_events Model.close Source.reassembled Source.discard Source.read_n Source.index_any
    Source.peek_n Source.read_line Source.close Source.reset Source.truncate Reader.new_reader
    Reader.write_all Reader.reassembled Reader.reset Reader.truncate Reader.close Reader.end_error
    Reader.discard Reader.read_n Reader.index_any Reader.peek_n Reader.read_line Buffer.new_buffer
    Buffer.reset Buffer.extend_last Buffer.add_block Buffer.append_data Buffer.write
    Buffer.contiguous Buffer.contiguous_available Buffer.block_discard Buffer.total_len
    Buffer.total_data Buffer.drop_blocks Buffer.discard_loop Buffer.discard Buffer.read_n
    Buffer.peek_n Buffer.contains Buffer.position_any Buffer.not_found Buffer.find_any
    Buffer.index_any Buffer.trim_cr Buffer.read_line
play c [] = c
play c (client_sends bytes ∷ ss) = play (client_reassembled c (bytes_of bytes)) ss
play c (server_sends bytes ∷ ss) = play (server_reassembled c (bytes_of bytes)) ss

hit : List ℕ → ℕ → Event
hit key size = record { type = event_get_hit; key = key; size = pos size }

get_multi :
    (play new_conversation (
      client_sends (codes "get key1 key2 key3\r\n")
      ∷ server_sends (codes "VALUE key1 0 5\r\nhel")
      ∷ server_sends (codes "lo\r\nVALUE key2 10 5\r\nworld\r\n")
      ∷ [])).base.event_buf
    ≡ hit (codes "key1") 5 ∷ hit (codes "key2") 5 ∷ []
unfolding play hit
get_multi = refl

-- A reader that has received `bytes`, with nothing lost.
abbrev pub holding : List ℕ → Reader.Reader
holding bytes = record {
  buffer = record {
    buf = bytes;
    len = length bytes;
    cap = buffer_size;
    blocks = record { gap = 0; data_len = length bytes } ∷ [];
    to_discard = pos 0;
  };
  closed = false;
  at_eof = false;
  failed = none;
}

abbrev pub conversation : State → List (List ℕ) → List ℕ → List ℕ → Conversation
conversation s args client_bytes server_bytes = record {
  base = record new_consumer {
    client_reader = reader (holding client_bytes);
    server_reader = reader (holding server_bytes);
  };
  own = record { state = s; cmd = codes "get"; args = args };
}

abbrev quit_line : List ℕ
quit_line = codes "quit\r\nget a b\r\n"

-- The client has sent two lines, and the server a hit with more behind it.
abbrev asking : Conversation
asking = conversation read_command [] quit_line (codes "VALUE")

asking-IsSound : IsSound asking
unfolding new_consumer Buffer.total_data Buffer.total_len
asking-IsSound = record {
  client_valid = record {
    buffer_valid = record { held = refl; counted = refl; bounded = omega arith; idle = inl refl };
    failure = tt;
  };
  server_valid = record {
    buffer_valid = record { held = refl; counted = refl; bounded = omega arith; idle = inl refl };
    failure = tt;
  };
  few_events = omega arith;
  state_ok = tt;
}

step-StepIsSound_example : StepIsSound asking (step asking)
step-StepIsSound_example = step-StepIsSound asking asking-IsSound

run_loop-run_example : (run_loop 40 asking ≡ some (run asking)) × IsSound (run asking)
run_loop-run_example = run_loop-run 40 asking asking-IsSound (omega arith)

abbrev pub inputs : List Input
inputs =
    from_client (bytes_of (codes "get a\r\n"))
    ∷ from_server (record { skip = pos 3; bytes = codes "VALUE a 0 -9\r\n" } ∷ [])
    ∷ client_ends
    ∷ []

feed_all_safe_example :
    IsSound (feed_all new_conversation inputs)
    × AllReturned (step (feed_all new_conversation inputs)).1
feed_all_safe_example = feed_all_safe inputs

holding-quit : ReaderHolds (holding quit_line) quit_line
unfolding Buffer.total_data Buffer.total_len cells
holding-quit = record {
  working = refl;
  held = record {
    valid = record { held = refl; counted = refl; bounded = omega arith; idle = inl refl };
    shown = refl;
    pending = refl;
  };
}

quit_word : ascii_word (codes "quit") ≡ true
unfolding ascii_word all_letters
quit_word = refl

read_command-ReadsCommand_example :
    ReadsCommand asking (codes "quit") (codes "get a b\r\n") (step_read_command asking)
read_command-ReadsCommand_example =
    read_command-ReadsCommand asking (codes "quit") (codes "get a b\r\n") crlf quit_word
      holding-quit

abbrev hello : Item
hello = record {
  key = codes "key";
  flags = codes "0";
  size_text = codes "5";
  value = codes "he\nlo";
}

hello-IsWellFormed : IsWellFormed hello
unfolding atoi signed digits in_range Buffer.contains
hello-IsWellFormed = record {
  key_ok = (refl, (refl, (refl, tt)));
  flags_ok = (refl, tt);
  size_ok = (refl, tt);
  size_is = refl;
  fits = omega arith;
}

abbrev reply : List ℕ
reply = codes "VALUE key 0 5\r\nhe\nlo\r\nEND\r\nSTORED"

abbrev answering : Conversation
answering = conversation handle_get (codes "key" ∷ []) [] reply

holding-reply : ReaderHolds (holding reply) (render (hello ∷ []) (codes "STORED"))
unfolding Buffer.total_data Buffer.total_len cells render
holding-reply = record {
  working = refl;
  held = record {
    valid = record { held = refl; counted = refl; bounded = omega arith; idle = inl refl };
    shown = refl;
    pending = refl;
  };
}

handle_get-render_example :
    Answers answering (hello ∷ []) (codes "STORED") (step_handle_get answering)
handle_get-render_example =
    handle_get-render answering (hello ∷ []) (codes "STORED") (omega arith) (hello-IsWellFormed, tt)
      holding-reply
