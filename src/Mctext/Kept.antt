-- ===== src/Mctext/Kept.antt =====
-- The events of a conversation of protocol/mctext/consumer.go over its State methods and its inputs.
use mathlib.Core.List.{flatten}
use memsniff.Source
use memsniff.Source.{data_len}
use memsniff.Model
use memsniff.Model.{
  Event, event_get_hit, Consumer, Session, with_client, with_server, flush_events, add_event,
}
use memsniff.Model.Events.{all_events, all_events-add_event}
use memsniff.Mctext.Text.{split, atoi}
use memsniff.Mctext.{
  Conversation, State, Step, client, server, peek_magic_byte, read_command, read_args, handle_get,
  handle_set, handle_quit, handle_unknown, discard_response, at_end, unset, step_in,
  step_peek_magic_byte, first_byte, step_read_command, step_read_args, read_word, after_command,
  after_arg, step_discard_response, step_handle_get, step_handle_set, step_handle_quit,
  step_handle_unknown, get_loop, get_line, get_sized, take_value, value_fields, with_crlf, size_arg,
}
use memsniff.Common.{
  ℕ, zero, suc, ◌≡◌, refl, sym, ap, ap₂, ◌∙◌, List, [], ◌∷◌, ◌++◌, append_assoc, append-nil, Option,
  none, some, arith, Option-cases, Bool-cases, inl, inr, ℤ, length, ltb,
}

-- The events of `d` are those of `c`, in order, and more behind them.
pub record Extends (c d : Conversation) : Type 0 where
  pub more : List Event
  pub events : all_events d.base ≡ all_events c.base ++ more

-- The events are the same, where they are kept.
pub record SameEvents (c d : Conversation) : Type 0 where
  pub buffered : d.base.event_buf ≡ c.base.event_buf
  pub handed_on : d.base.delivered ≡ c.base.delivered

pub same-Extends : (c d : Conversation) → SameEvents c d → Extends c d
unfolding all_events
same-Extends c d s = record {
  more = [];
  events =
      ap₂ (λ ds es. flatten ds ++ es) s.handed_on s.buffered ∙ sym (append-nil (all_events c.base));
}

pub Extends-self : (c : Conversation) → Extends c c
Extends-self c = record { more = []; events = sym (append-nil (all_events c.base)) }

pub Extends-trans : (c d e : Conversation) → Extends c d → Extends d e → Extends c e
Extends-trans c d e p q = record {
  more = p.more ++ q.more;
  events =
      q.events ∙ ap (λ es. es ++ q.more) p.events ∙ append_assoc (all_events c.base) p.more q.more;
}

discard_response-Same : (c : Conversation) → SameEvents c (step_discard_response c).0
unfolding step_discard_response
discard_response-Same c = ground arith

first_byte-Same : (c : Conversation) (bytes : List ℕ) → SameEvents c (first_byte c bytes).0
unfolding first_byte Model.close
first_byte-Same c [] = ground arith
first_byte-Same c (b ∷ bs) = ground arith

peek-Same : (c : Conversation) → SameEvents c (step_peek_magic_byte c).0
unfolding step_peek_magic_byte
peek-Same c =
    let d = with_server c (Source.truncate (server c)) in
    ground (arith, first_byte-Same d (Source.peek_n (client d) 1).0)

read_word-Same : (c : Conversation) → SameEvents c (read_word c).0
unfolding read_word
read_word-Same c = ground arith

after_command-Same : (c : Conversation) (word : List ℕ) → SameEvents c (after_command c word).0
unfolding after_command
after_command-Same c word = ground arith

after_arg-Same : (c : Conversation) (word : List ℕ) → SameEvents c (after_arg c word).0
unfolding after_arg
after_arg-Same c [] = ground arith
after_arg-Same c (w ∷ ws) = ground arith

read_command-Same : (c : Conversation) → SameEvents c (step_read_command c).0
unfolding step_read_command
read_command-Same c =
    let d =
      with_server (record c { own = record c.own { args = [] } }) (Source.truncate (server c)) in
    ground (arith, read_word-Same d, after_command-Same (read_word d).0 (read_word d).1)

read_args-Same : (c : Conversation) → SameEvents c (step_read_args c).0
unfolding step_read_args
read_args-Same c =
    let d = with_server c (Source.truncate (server c)) in
    ground (arith, read_word-Same d, after_arg-Same (read_word d).0 (read_word d).1)

handle_set-Same : (c : Conversation) → SameEvents c (step_handle_set c).0
unfolding step_handle_set
handle_set-Same c = elim (Option-cases (size_arg c.own.args)) [
  | inl e ↦ rw (e, step_handle_set) (discard_response-Same c)
  | inr (size, e) ↦ ground (
    arith,
    e,
    discard_response-Same (with_client c (Source.discard (client c) (with_crlf size)).0),
  )
]

handle_quit-Same : (c : Conversation) → SameEvents c (step_handle_quit c).0
unfolding step_handle_quit
handle_quit-Same c = ground arith

pub same_left : (c d e : Conversation) → SameEvents c d → Extends d e → Extends c e
same_left c d e s x = Extends-trans c d e (same-Extends c d s) x

take_value-Extends :
    (c : Conversation) (key : List ℕ) (size : ℤ) → Extends c (take_value c key size).0
unfolding take_value all_events
take_value-Extends c key size =
    let hit : Event = record { type = event_get_hit; key = key; size = size } in
    record { more = hit ∷ []; events = all_events-add_event c.base hit }

module _ (again : Conversation → Step) (more : (c : Conversation) → Extends c (again c).0) where
  get_sized-Extends :
      (c : Conversation) (key : List ℕ) (size : Option ℤ) → Extends c (get_sized again c key size).0
  unfolding get_sized
  get_sized-Extends c key none = Extends-self c
  get_sized-Extends c key (some size) = elim (Option-cases (take_value c key size).1) [
    | inl e ↦
        rw (e, get_sized)
          (Extends-trans c (take_value c key size).0 _ (take_value-Extends c key size)
            (more (take_value c key size).0))
    | inr (err, e) ↦ rw (e, get_sized) (take_value-Extends c key size)
  ]

  get_line-Extends :
      (c : Conversation) (fields : Option (List ℕ × List ℕ)) → Extends c (get_line again c fields).0
  unfolding get_line
  get_line-Extends c none = same-Extends c _ (record { buffered = refl; handed_on = refl })
  get_line-Extends c (some (key, text)) = get_sized-Extends c key (atoi text)

get_loop-Extends : (f : ℕ) (c : Conversation) → Extends c (get_loop f c).0
unfolding get_loop
get_loop-Extends zero c = Extends-self c
get_loop-Extends (suc f) c =
    let d = with_server c (Source.read_line (server c)).0 in
    let same : SameEvents c d = record { buffered = refl; handed_on = refl } in
    elim (Option-cases (Source.read_line (server c)).2) [
      | inl e ↦
          rw (e, get_loop)
            (same_left c d _ same (
              get_line-Extends (get_loop f) (get_loop-Extends f) d
                (value_fields (split b' ' (Source.read_line (server c)).1))))
      | inr (err, e) ↦ rw (e, get_loop) (same-Extends c d same)
    ]

handle_get-Extends : (c : Conversation) → Extends c (step_handle_get c).0
unfolding step_handle_get
handle_get-Extends c = elim (Bool-cases (ltb (length c.own.args) 1)) [
  | inl e ↦ rw (e, step_handle_get) (same-Extends c _ (discard_response-Same c))
  | inr e ↦ rw (e, step_handle_get) (get_loop-Extends (suc (data_len (server c))) c)
]

pub step_in-Extends : (s : State) (c : Conversation) → Extends c (step_in s c).0
unfolding step_in step_handle_unknown
step_in-Extends peek_magic_byte c = same-Extends c _ (peek-Same c)
step_in-Extends read_command c = same-Extends c _ (read_command-Same c)
step_in-Extends read_args c = same-Extends c _ (read_args-Same c)
step_in-Extends handle_get c = handle_get-Extends c
step_in-Extends handle_set c = same-Extends c _ (handle_set-Same c)
step_in-Extends handle_quit c = same-Extends c _ (handle_quit-Same c)
step_in-Extends handle_unknown c = same-Extends c _ (discard_response-Same c)
step_in-Extends discard_response c = same-Extends c _ (discard_response-Same c)
step_in-Extends at_end c = Extends-self c
step_in-Extends unset c = Extends-self c
