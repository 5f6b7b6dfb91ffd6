-- ===== src/Model.antt =====
-- protocol/model/consumer.go: what a reader of one datastore conversation keeps, and how stream
-- data reaches it.
pub mod Events
mod Tests
use memsniff.Reader.{Reader, Reassembly, new_reader}
use memsniff.Source.{Source, eof_source, reader}
use memsniff.Source
use memsniff.Common.{
  ℕ, suc, ◌+◌, Bool, true, false, List, [], ◌∷◌, ◌++◌, ◌==◌, if◌then◌else◌, length, ℤ,
}

pub data EventType : Type 0 where
  event_unknown event_get_hit event_get_miss : EventType

pub record Event : Type 0 where
  pub type : EventType
  pub key : List ℕ
  pub size : ℤ

-- `make([]Event, 0, 8)`; the slice keeps this capacity when it is cut back to length 0.
abbrev pub event_cap : ℕ
event_cap = 8

-- The handler is a caller's function: `delivered` lists the batches that it was called with.
-- `running` is false once Close has replaced Run by a function that does nothing.
pub record Consumer : Type 0 where
  pub client_reader : Source
  pub server_reader : Source
  pub running : Bool
  pub event_buf : List Event
  pub delivered : List (List Event)

unfoldable pub new_consumer : Consumer
new_consumer = record {
  client_reader = reader new_reader;
  server_reader = reader new_reader;
  running = true;
  event_buf = [];
  delivered = [];
}

unfoldable pub flush_events : Consumer → Consumer
flush_events c = record c { delivered = c.delivered ++ c.event_buf ∷ []; event_buf = [] }

unfoldable pub add_event : Consumer → Event → Consumer
add_event c evt =
    let c' = record c { event_buf = c.event_buf ++ evt ∷ [] } in
    if length c'.event_buf == event_cap then flush_events c' else c'

-- Each source that is not the end-of-file source is reset and goes back to the pool of buffers.
unfoldable pub close : Consumer → Consumer
close c = record c { client_reader = eof_source; server_reader = eof_source; running = false }

-- A conversation: the Consumer, and what the protocol that embeds it keeps beside it.
pub record Session (S : Type 0) : Type 0 where
  pub base : Consumer
  pub own : S

abbrev pub with_client : {S : Type 0} → Session S → Source → Session S
with_client s r = record s { base = record s.base { client_reader = r } }

abbrev pub with_server : {S : Type 0} → Session S → Source → Session S
with_server s r = record s { base = record s.base { server_reader = r } }

-- The methods of ClientStream and ServerStream; `protocol` is what Run is set to.
module _ {S : Type 0} (protocol : Session S → Session S) where
  unfoldable pub run : Session S → Session S
  run s = if s.base.running then protocol s else s

  unfoldable pub client_reassembled : Session S → List Reassembly → Session S
  client_reassembled s [] = s
  client_reassembled s (r ∷ rs) =
      client_reassembled (run (with_client s (Source.reassembled s.base.client_reader (r ∷ [])))) rs

  unfoldable pub server_reassembled : Session S → List Reassembly → Session S
  server_reassembled s [] = s
  server_reassembled s (r ∷ rs) =
      server_reassembled (run (with_server s (Source.reassembled s.base.server_reader (r ∷ [])))) rs

-- The events are flushed, and the reader goes back to the pool; Run is not called.
unfoldable pub client_complete : {S : Type 0} → Session S → Session S
client_complete s =
    let c = record s.base { client_reader = Source.reassembly_complete s.base.client_reader } in
    record s { base = record (flush_events c) { client_reader = eof_source } }

unfoldable pub server_complete : {S : Type 0} → Session S → Session S
server_complete s =
    let c = record s.base { server_reader = Source.reassembly_complete s.base.server_reader } in
    record s { base = record (flush_events c) { server_reader = eof_source } }
