-- ===== src/Mctext/Steps.antt =====
-- The invariant of protocol/mctext/consumer.go, for handleGet, handleSet, handleQuit and the State
-- methods together.
use memsniff.Error.{AllReturned}
use memsniff.Source.{Source, eof_source, reader, data_len}
use memsniff.Source
use memsniff.Source.Laws.{discard-Kept, read_line-Kept, close-IsValid}
use memsniff.Model.{event_get_hit, with_client, with_server}
use memsniff.Model.Events.{add_event_same}
use memsniff.Mctext.Text.{split, atoi}
use memsniff.Mctext.{
  State, Conversation, Step, client, server, value_fields, take_value, get_sized, get_line,
  get_loop, step_handle_get, size_arg, step_handle_set, step_handle_quit, step_handle_unknown,
  step_in, step, with_crlf, peek_magic_byte, read_command, read_args, handle_get, handle_set,
  handle_quit, handle_unknown, discard_response, at_end, unset,
}
use memsniff.Common.{
  ℕ, zero, suc, ◌+◌, ◌≤◌, ◌<◌, ◌≡◌, refl, List, Option, none, some, arith, ℤ, inl, inr,
  Option-cases, subst,
}
use memsniff.Mctext.Sound.{
  StateOk, IsSound, measure, StepIsSound, add_event_few, discard_response-StepIsSound,
  peek_magic_byte-StepIsSound, read_command-StepIsSound, read_args-StepIsSound,
}

-- What taking a value keeps.
record ValueIsTaken (c : Conversation) (r : Step) : Type 0 where
  sound : IsSound r.0
  returned : AllReturned r.1
  same_own : r.0.own ≡ c.own
  same_client : client r.0 ≡ client c
  not_more : data_len (server r.0) ≤ data_len (server c)

take_value-ValueIsTaken :
    (c : Conversation) (key : List ℕ) (size : ℤ)
    → IsSound c
    → ValueIsTaken c (take_value c key size)
unfolding take_value
take_value-ValueIsTaken c key size v = ground (
  arith,
  add_event_few c.base (record { type = event_get_hit; key = key; size = size }) v.few_events,
  add_event_same c.base (record { type = event_get_hit; key = key; size = size }),
  discard-Kept (server c) (with_crlf size) v.server_valid,
)

module _ (c0 : Conversation) (f : ℕ) (again : Conversation → Step)
    (ih : (c : Conversation)
      → IsSound c
      → data_len (server c) < f
      → data_len (client c) + data_len (server c) ≤ measure c0
      → StepIsSound c0 (again c)) where
  get_sized-StepIsSound :
      (c : Conversation) (key : List ℕ) (size : Option ℤ)
      → IsSound c
      → data_len (server c) < f
      → data_len (client c) + data_len (server c) < measure c0
      → StepIsSound c0 (get_sized again c key size)
  unfolding get_sized
  get_sized-StepIsSound c key none v h k = ground arith
  get_sized-StepIsSound c key (some size) v h k =
      ground (arith, take_value-ValueIsTaken c key size v, ih (take_value c key size).0)

  get_line-StepIsSound :
      (c : Conversation) (fields : Option (List ℕ × List ℕ))
      → IsSound c
      → data_len (server c) < f
      → data_len (client c) + data_len (server c) < measure c0
      → StepIsSound c0 (get_line again c fields)
  unfolding get_line
  get_line-StepIsSound c none v h k = ground arith
  get_line-StepIsSound c (some (key, text)) v h k = get_sized-StepIsSound c key (atoi text) v h k

get_loop-StepIsSound :
    (f : ℕ) (c0 c : Conversation)
    → IsSound c
    → data_len (server c) < f
    → data_len (client c) + data_len (server c) ≤ measure c0
    → StepIsSound c0 (get_loop f c)
unfolding get_loop
get_loop-StepIsSound zero c0 c v h k = absurd (omega arith)
get_loop-StepIsSound (suc f) c0 c v h k =
    let (r, line, e) = Source.read_line (server c) in
    ground (
      arith,
      read_line-Kept (server c) v.server_valid,
      get_line-StepIsSound c0 f (get_loop f) (get_loop-StepIsSound f c0) (with_server c r)
          (value_fields (split b' ' line)),
    )

handle_get-StepIsSound : (c : Conversation) → IsSound c → StepIsSound c (step_handle_get c)
unfolding step_handle_get
handle_get-StepIsSound c v = ground (
  arith,
  discard_response-StepIsSound c v,
  get_loop-StepIsSound (suc (data_len (server c))) c c v,
)

handle_set-StepIsSound : (c : Conversation) → IsSound c → StepIsSound c (step_handle_set c)
unfolding step_handle_set
handle_set-StepIsSound c v = elim (Option-cases (size_arg c.own.args)) [
  | inl e ↦ rw (e, step_handle_set) (discard_response-StepIsSound c v)
  | inr (size, e) ↦
      let kept = discard-Kept (client c) (with_crlf size) v.client_valid in
      rw (e, step_handle_set)
        (ground (
          arith,
          discard_response-StepIsSound
              (with_client c (Source.discard (client c) (with_crlf size)).0),
        ))
]

handle_quit-StepIsSound : (c : Conversation) → IsSound c → StepIsSound c (step_handle_quit c)
unfolding step_handle_quit
handle_quit-StepIsSound c v =
    ground (arith, close-IsValid (client c) v.client_valid, close-IsValid (server c) v.server_valid)

-- The methods together: a sound conversation stays sound, the error returned is no panic, and a
-- method that returns nil has used up data or looked at the first byte.
pub step_in-StepIsSound :
    (s : State) (c : Conversation) → IsSound c → c.own.state ≡ s → StepIsSound c (step_in s c)
unfolding step_in step_handle_unknown
step_in-StepIsSound peek_magic_byte c v e = peek_magic_byte-StepIsSound c v e
step_in-StepIsSound read_command c v e = read_command-StepIsSound c v e
step_in-StepIsSound read_args c v e = read_args-StepIsSound c v e
step_in-StepIsSound handle_get c v e = handle_get-StepIsSound c v
step_in-StepIsSound handle_set c v e = handle_set-StepIsSound c v
step_in-StepIsSound handle_quit c v e = handle_quit-StepIsSound c v
step_in-StepIsSound handle_unknown c v e = discard_response-StepIsSound c v
step_in-StepIsSound discard_response c v e = discard_response-StepIsSound c v
step_in-StepIsSound at_end c v e = record {
  sound = v;
  returned = tt;
  progress = λ h. absurd (ground arith);
}
step_in-StepIsSound unset c v e = absurd (subst (λ s. StateOk s c.own.cmd) e v.state_ok)

-- Every State method of a sound conversation leaves it sound (valid buffers, fewer than eight
-- events waiting, a State that is set), returns no panic, and when it returns nil has used up a
-- byte of a stream or looked at the first byte.
pub step-StepIsSound : (c : Conversation) → IsSound c → StepIsSound c (step c)
step-StepIsSound c v = step_in-StepIsSound c.own.state c v refl
