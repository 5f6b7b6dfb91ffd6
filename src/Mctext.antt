-- ===== src/Mctext.antt =====
-- protocol/mctext/consumer.go: the memcached text protocol as a state machine over two streams.
-- The calls of `log` are left out: the Logger is nil, and the debug level filters them all.
pub mod Text
pub mod Sound
pub mod Steps
pub mod Run
pub mod Feed
pub mod Reply
pub mod Answer
pub mod Request
pub mod Args
pub mod Binary
pub mod Kept
pub mod History
mod Tests
use memsniff.Error.{
  Error, short_read, lost_data, short_write, eof, unexpected_eof, protocol_desync, num_error,
  go_panic, out_of_fuel,
}
use memsniff.Reader.{Reassembly}
use memsniff.Source.{Source, data_len}
use memsniff.Source
use memsniff.Model.{
  Event, event_get_hit, Consumer, new_consumer, add_event, close, Session, with_client, with_server,
}
use memsniff.Model
use Text.{codes, equal, trim_right, split, ascii_word, atoi}
use memsniff.Word.{wrap}
use memsniff.Common.{
  ℕ, zero, suc, ◌+◌, ◌-◌, Bool, true, false, ◌||◌, List, [], ◌∷◌, ◌++◌, Option, none, some, ltb,
  leb, ◌==◌, if◌then◌else◌, length, take, get_elem?, ℤ, pos, ◌+ℤ◌,
}

-- The methods that `c.State` is set to. `at_end` is the function of handleQuit that returns
-- io.EOF; `unset` is a nil State, whose call is a panic.
pub data State : Type 0 where
  peek_magic_byte read_command read_args handle_get handle_set handle_quit : State
  handle_unknown discard_response at_end unset : State

pub record Fields : Type 0 where
  pub state : State
  pub cmd : List ℕ
  pub args : List (List ℕ)

abbrev pub Conversation : Type 0
Conversation = Session Fields

abbrev pub Step : Type 0
Step = Conversation × Option Error

unfoldable pub new_conversation : Conversation
new_conversation = record {
  base = new_consumer;
  own = record { state = peek_magic_byte; cmd = []; args = [] };
}

abbrev pub goto : Conversation → State → Conversation
goto c s = record c { own = record c.own { state = s } }

abbrev pub client : Conversation → Source
client c = c.base.client_reader

abbrev pub server : Conversation → Source
server c = c.base.server_reader

-- `" \n"`
abbrev pub delimiters : List ℕ
delimiters = codes " \n"

abbrev pub is_lost : Error → Bool
is_lost (lost_data g) = true
is_lost _ = false

unfoldable pub first_byte : Conversation → List ℕ → Step
first_byte c [] = (c, some go_panic)
first_byte c (b ∷ bs) =
    if b == 0x80 then (record c { base = close c.base }, some eof) else (goto c read_command, none)

unfoldable pub step_peek_magic_byte : Conversation → Step
step_peek_magic_byte c0 =
    let c = with_server c0 (Source.truncate (server c0)) in
    let (bytes, e) = Source.peek_n (client c) 1 in
    elim e [
      | none ↦ first_byte c bytes
      | some err ↦
          if is_lost err
          then (with_client c (Source.truncate (client c)), some short_read)
          else (c, some err)
    ]

unfoldable pub command_state : List ℕ → Option State
command_state cmd =
    if equal cmd (codes "get") || equal cmd (codes "gets")
    then some handle_get
    else if equal cmd (codes "set")
        || equal cmd (codes "add")
        || equal cmd (codes "replace")
        || equal cmd (codes "append")
        || equal cmd (codes "prepend")
        || equal cmd (codes "cas")
    then some handle_set
    else if equal cmd (codes "quit")
    then some handle_quit
    else none

-- `pos + 1`, where -1 is no position.
abbrev pub past : Option ℕ → ℕ
past none = 0
past (some n) = n + 1

-- IndexAny up to a delimiter, then ReadN with it: a word of the client's line.
unfoldable pub read_word : Conversation → Conversation × List ℕ × Option Error
read_word c =
    let (i, e) = Source.index_any (client c) delimiters in
    elim e [
      | some err ↦ (c, [], some err)
      | none ↦ let (r, word, e') = Source.read_n (client c) (past i) in (with_client c r, word, e')
    ]

unfoldable pub after_command : Conversation → List ℕ → Step
after_command c word =
    let cmd = trim_right (codes " \r\n") word in
    let c' = record c { own = record c.own { cmd = cmd } } in
    if ascii_word cmd
    then elim (command_state cmd) [
      | some s ↦ (goto c' read_args, none)
      | none ↦ (goto c' handle_unknown, none)
    ]
    else (c', some protocol_desync)

unfoldable pub step_read_command : Conversation → Step
step_read_command c0 =
    let c1 = record c0 { own = record c0.own { args = [] } } in
    let c = with_server c1 (Source.truncate (server c1)) in
    let (c', word, e) = read_word c in
    elim e [ some err ↦ (c', some err) | none ↦ after_command c' word ]

abbrev pub or_unset : Option State → State
or_unset none = unset
or_unset (some s) = s

-- `word[:len(word)-1]` and `word[len(word)-1]`, of the word `w ∷ ws`.
abbrev pub init : ℕ → List ℕ → List ℕ
init w ws = take (length ws) (w ∷ ws)

abbrev pub last : ℕ → List ℕ → ℕ
last w [] = w
last w (x ∷ xs) = last x xs

unfoldable pub after_arg : Conversation → List ℕ → Step
after_arg c [] = (c, some go_panic)
after_arg c (w ∷ ws) =
    let c' = record c {
      own = record c.own { args = c.own.args ++ trim_right (codes "\r") (init w ws) ∷ [] };
    } in
    if last w ws == b' ' then (c', none) else (goto c' (or_unset (command_state c.own.cmd)), none)

unfoldable pub step_read_args : Conversation → Step
step_read_args c0 =
    let c = with_server c0 (Source.truncate (server c0)) in
    let (c', word, e) = read_word c in
    elim e [ some err ↦ (c', some err) | none ↦ after_arg c' word ]

unfoldable pub step_discard_response : Conversation → Step
step_discard_response c0 =
    let c = goto c0 discard_response in
    let (r, line, e) = Source.read_line (server c) in
    let c' = with_server c r in
    elim e [ some err ↦ (c', some err) | none ↦ (goto c' read_command, none) ]

-- `len(crlf)`, and `size + len(crlf)` as a 64-bit int.
abbrev pub with_crlf : ℤ → ℤ
with_crlf size = wrap (size +ℤ pos 2)

-- The fields of a line "VALUE <key> <flags> <size>": its key, and the text of its size.
unfoldable pub value_fields : List (List ℕ) → Option (List ℕ × List ℕ)
value_fields (name ∷ key ∷ flags ∷ size ∷ more) =
    if equal name (codes "VALUE") then some (key, size) else none
value_fields _ = none

-- One hit: the event is added, and the value and its line end are passed.
unfoldable pub take_value : Conversation → List ℕ → ℤ → Step
take_value c key size =
    let c1 = record c {
      base = add_event c.base (record { type = event_get_hit; key = key; size = size });
    } in
    let (r, e) = Source.discard (server c1) (with_crlf size) in (with_server c1 r, e)

-- The body of the loop of handleGet behind ReadLine, on what the line says; `again` is the next round.
module _ (again : Conversation → Step) where
  unfoldable pub get_sized : Conversation → List ℕ → Option ℤ → Step
  get_sized c key none = (c, some num_error)
  get_sized c key (some size) =
      let (c', e) = take_value c key size in elim e [ some err ↦ (c', some err) | none ↦ again c' ]

  unfoldable pub get_line : Conversation → Option (List ℕ × List ℕ) → Step
  get_line c none = (goto c read_command, none)
  get_line c (some (key, size_text)) = get_sized c key (atoi size_text)

-- The loop of handleGet over the lines of the reply. Each round reads a line, so its fuel is the
-- number of bytes that the server's reader holds, and one round more.
unfoldable pub get_loop : ℕ → Conversation → Step
get_loop zero c = (c, some out_of_fuel)
get_loop (suc f) c0 =
    let (r, line, e) = Source.read_line (server c0) in
    let c = with_server c0 r in
    elim e [
      | some err ↦ (c, some err)
      | none ↦ get_line (get_loop f) c (value_fields (split b' ' line))
    ]

unfoldable pub step_handle_get : Conversation → Step
step_handle_get c =
    if ltb (length c.own.args) 1
    then step_discard_response c
    else get_loop (suc (data_len (server c))) c

unfoldable pub size_arg : List (List ℕ) → Option ℤ
size_arg args = elim (get_elem? args 3) [ none ↦ none | some text ↦ atoi text ]

-- With fewer than four arguments, or no number as the fourth, only the reply is passed.
unfoldable pub step_handle_set : Conversation → Step
step_handle_set c = elim (size_arg c.own.args) [
  | none ↦ step_discard_response c
  | some size ↦
      let (r, e) = Source.discard (client c) (with_crlf size) in
      let c' = with_client c r in
      elim e [ some err ↦ (c', some err) | none ↦ step_discard_response c' ]
]

unfoldable pub step_handle_quit : Conversation → Step
step_handle_quit c0 =
    let c1 = with_client c0 (Source.close (client c0)) in
    let c2 = with_server c1 (Source.close (server c1)) in (goto c2 at_end, some eof)

unfoldable pub step_handle_unknown : Conversation → Step
step_handle_unknown c = step_discard_response c

-- `c.State()`
unfoldable pub step_in : State → Conversation → Step
step_in peek_magic_byte c = step_peek_magic_byte c
step_in read_command c = step_read_command c
step_in read_args c = step_read_args c
step_in handle_get c = step_handle_get c
step_in handle_set c = step_handle_set c
step_in handle_quit c = step_handle_quit c
step_in handle_unknown c = step_handle_unknown c
step_in discard_response c = step_discard_response c
step_in at_end c = (c, some eof)
step_in unset c = (c, some go_panic)

abbrev pub step : Conversation → Step
step c = step_in c.own.state c

-- Resynchronisation at the next command.
unfoldable pub resync : Conversation → Conversation
resync c0 =
    let c1 = with_client c0 (Source.reset (client c0)) in
    let c2 = with_server c1 (Source.reset (server c1)) in goto c2 read_command

abbrev pub waits : Error → Bool
waits short_read = true
waits eof = true
waits _ = false

-- The loop of (*Consumer).run; `none` means that the fuel ran out.
unfoldable pub run_loop : ℕ → Conversation → Option Conversation
run_loop zero c = none
run_loop (suc f) c =
    let (c', e) = step c in
    elim e [ none ↦ run_loop f c' | some err ↦ if waits err then some c' else some (resync c') ]

-- Each round but that of peek_magic_byte uses up a byte of a stream.
abbrev pub fuel : Conversation → ℕ
fuel c = data_len (client c) + data_len (server c) + 2

unfoldable pub run : Conversation → Conversation
run c = elim (run_loop (fuel c) c) [ none ↦ c | some c' ↦ c' ]

-- The methods of the two streams of a conversation of this protocol.
unfoldable pub client_reassembled : Conversation → List Reassembly → Conversation
client_reassembled = Model.client_reassembled run

unfoldable pub server_reassembled : Conversation → List Reassembly → Conversation
server_reassembled = Model.server_reassembled run
