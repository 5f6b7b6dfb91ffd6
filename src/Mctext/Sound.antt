-- ===== src/Mctext/Sound.antt =====
-- The invariant of protocol/mctext/consumer.go, for the State methods that read the client's stream.
use memsniff.Error.{Error, AllReturned}
use memsniff.Source.{Source, eof_source, reader, data_len}
use memsniff.Reader
use memsniff.Buffer
use memsniff.Source
use memsniff.Source.Laws.{
  SourceIsValid, read_n-Kept, read_line-Kept, peek_n_returned, index_any_returned, length-peek_n,
  index_any_found, truncate-IsValid,
}
use memsniff.Model.{Event, Consumer, with_server, add_event, flush_events, close, event_cap}
use memsniff.Mctext.{
  State, Conversation, Step, client, server, delimiters, first_byte, step_peek_magic_byte,
  command_state, past, read_word, after_command, step_read_command, after_arg, step_read_args,
  step_discard_response, fuel, peek_magic_byte, read_command, read_args, unset,
}
use memsniff.Common.{
  ℕ, ◌+◌, ◌≤◌, ◌<◌, ◌≡◌, ◌≢◌, refl, List, [], ◌∷◌, Option, none, some, arith, length, length-append,
  inl, inr, Option-cases, subst,
}

-- The state that a command's arguments lead to is a State.
abbrev pub StateOk : State → List ℕ → Type 0
StateOk read_args cmd = command_state cmd ≢ none
StateOk unset cmd = ⊥
StateOk _ cmd = Unit

pub record IsSound (c : Conversation) : Type 0 where
  pub client_valid : SourceIsValid (client c)
  pub server_valid : SourceIsValid (server c)
  pub few_events : length c.base.event_buf < event_cap
  pub state_ok : StateOk c.own.state c.own.cmd

abbrev rank : State → ℕ
rank peek_magic_byte = 1
rank _ = 0

-- The rounds that `run` has left at most: the data of both streams, and one for the first byte.
abbrev pub measure : Conversation → ℕ
measure c = data_len (client c) + data_len (server c) + rank c.own.state

rank-le : (s : State) → rank s ≤ 1
rank-le peek_magic_byte = omega arith
rank-le _ = omega arith

pub measure-lt-fuel : (c : Conversation) → measure c < fuel c
measure-lt-fuel c = omega (arith, rank-le c.own.state)

pub record StepIsSound (c : Conversation) (r : Step) : Type 0 where
  pub sound : IsSound r.0
  pub returned : AllReturned r.1
  pub progress : r.1 ≡ none → measure r.0 < measure c

data_len-truncate : (s : Source) → data_len (Source.truncate s) ≤ data_len s
unfolding Source.truncate Reader.truncate Buffer.reset
data_len-truncate eof_source = omega arith
data_len-truncate (reader r) = omega arith

pub add_event_few :
    (c : Consumer) (e : Event)
    → length c.event_buf < event_cap
    → length (add_event c e).event_buf < event_cap
unfolding add_event flush_events
add_event_few c e h = ground (arith, length-append c.event_buf (e ∷ []))

pub discard_response-StepIsSound :
    (c : Conversation) → IsSound c → StepIsSound c (step_discard_response c)
unfolding step_discard_response
discard_response-StepIsSound c v = ground (arith, read_line-Kept (server c) v.server_valid)

first_byte-StepIsSound :
    (c : Conversation) (bytes : List ℕ)
    → IsSound c
    → c.own.state ≡ peek_magic_byte
    → length bytes ≡ 1
    → StepIsSound c (first_byte c bytes)
unfolding first_byte close
first_byte-StepIsSound c [] v e h = absurd (omega arith)
first_byte-StepIsSound c (b ∷ bs) v e h = ground arith

command_state_ok :
    (cmd cmd' : List ℕ) (s : State) → command_state cmd ≡ some s → StateOk s cmd' × (rank s ≡ 0)
unfolding command_state
command_state_ok cmd cmd' s e = ground arith

after_command-StepIsSound :
    (c0 c : Conversation) (word : List ℕ)
    → IsSound c
    → data_len (client c) + data_len (server c) < measure c0
    → c.own.state ≡ read_command
    → StepIsSound c0 (after_command c word)
unfolding after_command
after_command-StepIsSound c0 c word v h e = ground arith

-- What reading a word does: an error, or a word of at least one byte, which is used up.
record WordIsRead (c : Conversation) (r : Conversation × List ℕ × Option Error) : Type 0 where
  sound : IsSound r.0
  returned : AllReturned r.2
  word : r.2 ≡ none → (r.1 ≢ []) × (data_len (client r.0) + 1 ≤ data_len (client c))
  same_own : r.0.own ≡ c.own
  same_server : server r.0 ≡ server c

read_word-Kept : (c : Conversation) → IsSound c → WordIsRead c (read_word c)
unfolding read_word
read_word-Kept c v =
    let i = (Source.index_any (client c) delimiters).0 in
    ground (
      arith,
      index_any_found (client c) delimiters,
      index_any_returned (client c) delimiters v.client_valid,
      read_n-Kept (client c) (past i) v.client_valid,
    )

-- The start of three of the methods: what the server sent before a command is not its reply.
abbrev truncated : Conversation → Conversation
truncated c = with_server c (Source.truncate (server c))

truncated-IsSound : (c : Conversation) → IsSound c → IsSound (truncated c)
truncated-IsSound c v = record {
  client_valid = v.client_valid;
  server_valid = truncate-IsValid (server c) v.server_valid;
  few_events = v.few_events;
  state_ok = v.state_ok;
}

pub peek_magic_byte-StepIsSound :
    (c : Conversation)
    → IsSound c
    → c.own.state ≡ peek_magic_byte
    → StepIsSound c (step_peek_magic_byte c)
unfolding step_peek_magic_byte
peek_magic_byte-StepIsSound c v e = ground (
  arith,
  truncated-IsSound c v,
  first_byte-StepIsSound (truncated c) (Source.peek_n (client c) 1).0 (truncated-IsSound c v) e,
  length-peek_n (client c) 1 v.client_valid,
  peek_n_returned (client c) 1 v.client_valid,
  truncate-IsValid (client c) v.client_valid,
  data_len-truncate (client c),
  data_len-truncate (server c),
)

pub read_command-StepIsSound :
    (c : Conversation)
    → IsSound c
    → c.own.state ≡ read_command
    → StepIsSound c (step_read_command c)
unfolding step_read_command
read_command-StepIsSound c v e = ground (
  arith,
  kept,
  after_command-StepIsSound c (read_word c').0 (read_word c').1,
  data_len-truncate (server c),
)
  where
    c' : Conversation
    c' = truncated (record c { own = record c.own { args = [] } })

    kept : WordIsRead c' (read_word c')
    kept = read_word-Kept c' (
        truncated-IsSound (record c { own = record c.own { args = [] } })
          (record {
            client_valid = v.client_valid;
            server_valid = v.server_valid;
            few_events = v.few_events;
            state_ok = v.state_ok;
          }))

after_arg-StepIsSound :
    (c0 c : Conversation) (word : List ℕ)
    → IsSound c
    → data_len (client c) + data_len (server c) < measure c0
    → c.own.state ≡ read_args
    → word ≢ []
    → StepIsSound c0 (after_arg c word)
unfolding after_arg
after_arg-StepIsSound c0 c [] v h e ne = absurd (ne refl)
after_arg-StepIsSound c0 c (w ∷ ws) v h e ne = elim (Option-cases (command_state c.own.cmd)) [
  | inl none_such ↦ absurd (subst (λ s. StateOk s c.own.cmd) e v.state_ok none_such)
  | inr (s, found) ↦ ground (arith, command_state_ok c.own.cmd c.own.cmd s found)
]

pub read_args-StepIsSound :
    (c : Conversation) → IsSound c → c.own.state ≡ read_args → StepIsSound c (step_read_args c)
unfolding step_read_args
read_args-StepIsSound c v e = ground (
  arith,
  read_word-Kept (truncated c) (truncated-IsSound c v),
  after_arg-StepIsSound c (read_word (truncated c)).0 (read_word (truncated c)).1,
  data_len-truncate (server c),
)
