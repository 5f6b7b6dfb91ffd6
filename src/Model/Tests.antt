-- ===== src/Model/Tests.antt =====
-- Runs of protocol/model/consumer.go: a consumer whose eighth event fills its buffer.
use memsniff.Model.{Event, event_get_hit, Consumer, new_consumer, add_event}
use memsniff.Model.Events.{all_events, all_events-add_event}
use memsniff.Common.{◌≡◌, [], ◌∷◌, ◌++◌, pos, replicate}

abbrev event : Event
event = record { type = event_get_hit; key = b'k' ∷ []; size = pos 3 }

abbrev nearly_full : Consumer
nearly_full = record new_consumer { event_buf = replicate 7 event }

all_events-add_event_example :
    all_events (add_event nearly_full event) ≡ all_events nearly_full ++ event ∷ []
all_events-add_event_example = all_events-add_event nearly_full event
