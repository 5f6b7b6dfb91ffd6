-- ===== src/Model/Events.antt =====
-- Events of protocol/model/consumer.go on their way to the handler.
use mathlib.Core.List.{flatten}
use memsniff.Model.{Event, Consumer, event_cap, add_event, flush_events}
use memsniff.Common.{
  flatten-snoc, ◌≡◌, sym, ◌∙◌, inl, inr, Bool-cases, List, [], ◌∷◌, ◌++◌, append_assoc, append-nil,
  arith, length, ◌==◌,
}

-- All events of a consumer in order: those delivered, then those in its buffer.
unfoldable pub all_events : Consumer → List Event
all_events c = flatten c.delivered ++ c.event_buf

pub all_events-flush_events : (c : Consumer) → all_events (flush_events c) ≡ all_events c
unfolding all_events flush_events
all_events-flush_events c = append-nil _ ∙ flatten-snoc c.delivered c.event_buf

-- AddEvent loses, repeats and reorders no event: the events delivered to the handler, then
-- those waiting, are those of before and then the new one, whether or not the buffer is
-- flushed.
pub all_events-add_event :
    (c : Consumer) (e : Event) → all_events (add_event c e) ≡ all_events c ++ e ∷ []
unfolding add_event
all_events-add_event c e = elim (Bool-cases (length (c.event_buf ++ e ∷ []) == event_cap)) [
  | inl full ↦
      rw (full, add_event)
        (all_events-flush_events (record c { event_buf = c.event_buf ++ e ∷ [] }) ∙ added)
  | inr room ↦ rw (room, add_event) added
]
  where
    added : all_events (record c { event_buf = c.event_buf ++ e ∷ [] }) ≡ all_events c ++ e ∷ []
    added = unfold all_events in sym (append_assoc (flatten c.delivered) c.event_buf (e ∷ []))

-- An event leaves the readers alone.
pub add_event_same :
    (c : Consumer) (e : Event)
    → ((add_event c e).client_reader ≡ c.client_reader)
      × ((add_event c e).server_reader ≡ c.server_reader)
unfolding add_event flush_events
add_event_same c e = ground arith
