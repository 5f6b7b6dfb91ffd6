-- ===== src/Mctext/Answer.antt =====
-- The loop of handleGet of protocol/mctext/consumer.go on a well-formed reply.
use memsniff.Buffer.{contains, trim_cr}
use memsniff.Buffer.Data.{length-plain}
use memsniff.Source
use memsniff.Source.{Source, eof_source, reader, data_len}
use memsniff.Source.Plain.{SourceHolds, read_line-SourceHolds, discard-SourceHolds}
use memsniff.Model.{with_server}
use memsniff.Model.Events.{all_events, all_events-add_event, add_event_same}
use memsniff.Mctext.Text.{codes, equal, split, atoi}
use memsniff.Mctext.{
  Conversation, Fields, Step, goto, client, server, read_command, value_fields, take_value,
  get_sized, get_line, get_loop, step_handle_get,
}
use memsniff.Common.{
  ℕ, zero, suc, ◌+◌, ◌≤◌, ◌<◌, ◌≡◌, refl, sym, ap, ◌∙◌, List, [], ◌∷◌, ◌++◌, append_assoc,
  append-nil, none, some, arith, length, length-append, ℤ, pos, map,
}
use memsniff.Mctext.Reply.{
  Item, IsWellFormed, header, crlf, render, hit, AllWellFormed, trim_cr-snoc, value_fields-header,
  with_crlf_small, header-Free,
}

get_loop_line :
    (f : ℕ) (c : Conversation)
    → (Source.read_line (server c)).2 ≡ none
    → get_loop (suc f) c
      ≡ get_line
          (get_loop f)
          (with_server c (Source.read_line (server c)).0)
          (value_fields (split b' ' (Source.read_line (server c)).1))
unfolding get_loop
get_loop_line f c e = rw (e, get_loop) refl

get_line_value :
    (again : Conversation → Step) (c : Conversation) (key text : List ℕ) (size : ℤ)
    → atoi text ≡ some size
    → (take_value c key size).1 ≡ none
    → get_line again c (some (key, text)) ≡ again (take_value c key size).0
unfolding get_line get_sized
get_line_value again c key text size e h = rw e (rw (h, get_sized) refl)

-- What one round of the loop does to a conversation, whatever comes next.
record TakesItem (c c' : Conversation) (it : Item) (rest : List ℕ) : Type 0 where
  holds : SourceHolds (server c') rest
  client_same : client c' ≡ client c
  own_same : c'.own ≡ c.own
  events : all_events c'.base ≡ all_events c.base ++ hit it ∷ []

get_loop-item :
    (f : ℕ) (c : Conversation) (it : Item) (its : List Item) (rest : List ℕ)
    → IsWellFormed it
    → SourceHolds (server c) (render (it ∷ its) rest)
    → (c' : Conversation) × (get_loop (suc f) c ≡ get_loop f c')
      × TakesItem c c' it (render its rest)
unfolding take_value render all_events
get_loop-item f c it its rest w h = (
  (take_value c1 it.key (pos n)).0,
  get_loop_line f c line.1
      ∙ ap (λ l. get_line (get_loop f) c1 (value_fields (split b' ' l)))
          (line.0 ∙ trim_cr-snoc (header it))
      ∙ ap (get_line (get_loop f) c1) (value_fields-header it w)
      ∙ get_line_value (get_loop f) c1 it.key it.size_text (pos n) w.size_is taken.0,
  record {
    holds = taken.1;
    client_same = (add_event_same c1.base (hit it)).0;
    own_same = refl;
    events = added;
  },
)
  where
    n : ℕ
    n = length it.value

    line :
        ((Source.read_line (server c)).1 ≡ trim_cr (header it ++ b'\r' ∷ []))
        × ((Source.read_line (server c)).2 ≡ none)
        × SourceHolds (Source.read_line (server c)).0 ((it.value ++ crlf) ++ render its rest)
    line =
        read_line-SourceHolds (server c) (header it ++ b'\r' ∷ [])
          ((it.value ++ crlf) ++ render its rest) h (header-Free it w)

    c1 : Conversation
    c1 = with_server c (Source.read_line (server c)).0

    taken :
        ((take_value c1 it.key (pos n)).1 ≡ none)
        × SourceHolds (server (take_value c1 it.key (pos n)).0) (render its rest)
    taken =
        rw ((add_event_same c1.base (hit it)).1, with_crlf_small n w.fits)
          (discard-SourceHolds (server c1) (it.value ++ crlf) (render its rest) (n + 2) line.2
            (length-append it.value crlf))

    added : all_events (take_value c1 it.key (pos n)).0.base ≡ all_events c.base ++ hit it ∷ []
    added = all_events-add_event c1.base (hit it)

-- The end of the reply leaves the loop, for the next command.
get_loop-end :
    (f : ℕ) (c : Conversation) (rest : List ℕ)
    → SourceHolds (server c) (render [] rest)
    → (c' : Conversation) × (get_loop (suc f) c ≡ (goto c' read_command, none))
      × SourceHolds (server c') rest
      × (client c' ≡ client c)
      × (c'.own ≡ c.own)
      × (all_events c'.base ≡ all_events c.base)
unfolding render value_fields split equal trim_cr contains all_events get_line
get_loop-end f c rest h =
    let line =
      read_line-SourceHolds (server c) (codes "END\r") rest h (refl, (refl, (refl, (refl, tt)))) in
    let c1 = with_server c (Source.read_line (server c)).0 in
    (
      c1,
      get_loop_line f c line.1
          ∙ ap (λ l. get_line (get_loop f) c1 (value_fields (split b' ' l))) line.0,
      line.2,
      refl,
      refl,
      refl,
    )

abbrev pub at_next_command : Fields → Fields
at_next_command o = record o { state = read_command }

-- The loop of handleGet on the reply to a get, with the fuel that handleGet gives it: it reports
-- each hit in order, with the key and size of the item, ends at the next command, and leaves
-- whatever the server sends behind the reply.
pub record Answers (c : Conversation) (its : List Item) (rest : List ℕ) (r : Step) : Type 0 where
  pub ended : r.1 ≡ none
  pub next_state : r.0.own ≡ at_next_command c.own
  pub client_same : client r.0 ≡ client c
  pub holds : SourceHolds (server r.0) rest
  pub events : all_events r.0.base ≡ all_events c.base ++ map hit its

get_loop-Answers :
    (f : ℕ) (c : Conversation) (its : List Item) (rest : List ℕ)
    → AllWellFormed its
    → SourceHolds (server c) (render its rest)
    → length its < f
    → Answers c its rest (get_loop f c)
get_loop-Answers zero c its rest w h k = absurd (omega arith)
get_loop-Answers (suc f) c [] rest w h k =
    let (c', e, holds, cl, own, ev) = get_loop-end f c rest h in
    rw e (record {
      ended = refl;
      next_state = ap at_next_command own;
      client_same = cl;
      holds = holds;
      events = ev ∙ sym (append-nil (all_events c.base));
    })
get_loop-Answers (suc f) c (it ∷ its) rest w h k =
    let (c', e, t) = get_loop-item f c it its rest w.0 h in
    let a = get_loop-Answers f c' its rest w.1 t.holds (omega arith) in
    rw e (record {
      ended = a.ended;
      next_state = a.next_state ∙ ap at_next_command t.own_same;
      client_same = a.client_same ∙ t.client_same;
      holds = a.holds;
      events =
          a.events
          ∙ ap (λ es. es ++ map hit its) t.events
          ∙ append_assoc (all_events c.base) (hit it ∷ []) (map hit its);
    })

length-render : (its : List Item) (rest : List ℕ) → length its ≤ length (render its rest)
unfolding render
length-render [] rest = omega arith
length-render (it ∷ its) rest = omega (
  arith,
  length-append (header it ++ b'\r' ∷ []) (b'\n' ∷ ((it.value ++ crlf) ++ render its rest)),
  length-append (it.value ++ crlf) (render its rest),
  length-append it.value crlf,
  length-render its rest,
)

data_len-SourceHolds :
    (s : Source) (bytes : List ℕ) → SourceHolds s bytes → data_len s ≡ length bytes
data_len-SourceHolds eof_source bytes h = absurd h
data_len-SourceHolds (reader r) bytes h = length-plain r.buffer bytes h.held.valid h.held.shown

-- handleGet with at least one argument, on a server stream that holds the hits of a well-formed
-- reply, END and then anything: it returns nil, adds one event for each hit in order with the
-- hit's key and the size of its value, passes the values whatever bytes they hold, and leaves
-- the state readCommand and the server stream behind the reply.
pub handle_get-render :
    (c : Conversation) (its : List Item) (rest : List ℕ)
    → 1 ≤ length c.own.args
    → AllWellFormed its
    → SourceHolds (server c) (render its rest)
    → Answers c its rest (step_handle_get c)
unfolding step_handle_get
handle_get-render c its rest args w h = ground (
  arith,
  get_loop-Answers (suc (data_len (server c))) c its rest w h,
  length-render its rest,
  data_len-SourceHolds (server c) (render its rest) h,
)
