-- ===== src/Assembly.antt =====
-- assembly/streamfactory.go: which consumer gets a new TCP stream, and as which of its sides.
pub mod Pairs
pub mod Pool
mod Tests
use memsniff.Common.{
  ℕ, suc, Bool, true, false, ◌&&◌, List, [], ◌∷◌, Option, none, some, ◌==◌, if◌then◌else◌,
}

-- gopacket.Flow, by its two endpoints: of a network flow two addresses, of a transport flow two
-- ports, with whether they are TCP ports.
pub record NetFlow : Type 0 where
  pub src : ℕ
  pub dst : ℕ

pub record TransportFlow : Type 0 where
  pub tcp : Bool
  pub src : ℕ
  pub dst : ℕ

pub record ConnectionKey : Type 0 where
  pub net : NetFlow
  pub transport : TransportFlow

abbrev pub reverse_net : NetFlow → NetFlow
reverse_net f = record { src = f.dst; dst = f.src }

abbrev pub reverse_transport : TransportFlow → TransportFlow
reverse_transport f = record f { src = f.dst; dst = f.src }

abbrev pub reverse : ConnectionKey → ConnectionKey
reverse k = record { net = reverse_net k.net; transport = reverse_transport k.transport }

abbrev same_flag : Bool → Bool → Bool
same_flag true b = b
same_flag false true = false
same_flag false false = true

-- Go's comparison of two keys.
unfoldable pub same_key : ConnectionKey → ConnectionKey → Bool
same_key a b =
    a.net.src == b.net.src
    && a.net.dst == b.net.dst
    && same_flag a.transport.tcp b.transport.tcp
    && a.transport.src == b.transport.src
    && a.transport.dst == b.transport.dst

pub record HalfOpen : Type 0 where
  pub key : ConnectionKey
  pub consumer : ℕ

-- A consumer is known by its number; `made` have been created.
pub record StreamFactory : Type 0 where
  pub memcache_ports : List ℕ
  pub half_open : List HalfOpen
  pub made : ℕ

-- `sf.halfOpen[ck]` and `delete(sf.halfOpen, ck)`
unfoldable pub find : ConnectionKey → List HalfOpen → Option ℕ
find k [] = none
find k (h ∷ hs) = let rest = find k hs in if same_key k h.key then some h.consumer else rest

unfoldable pub delete : ConnectionKey → List HalfOpen → List HalfOpen
delete k [] = []
delete k (h ∷ hs) = let rest = delete k hs in if same_key k h.key then rest else h ∷ rest

unfoldable pub is_in_portlist : List ℕ → ℕ → Bool
is_in_portlist [] port = false
is_in_portlist (p ∷ ps) port = let rest = is_in_portlist ps port in if port == p then true else rest

-- `none` is a panic, of a flow that is not TCP.
unfoldable pub src_port : TransportFlow → Option ℕ
src_port f = if f.tcp then some f.src else none

unfoldable pub is_from_server : StreamFactory → TransportFlow → Option Bool
is_from_server sf f = elim (src_port f) [
  | none ↦ none
  | some port ↦ some (is_in_portlist sf.memcache_ports port)
]

pub data Side : Type 0 where
  client_stream server_stream : Side

-- The stream that New returns: a side of a consumer.
pub record Stream : Type 0 where
  pub side : Side
  pub consumer : ℕ

-- The consumer of the key of a connection.
unfoldable pub take_consumer : StreamFactory → ConnectionKey → StreamFactory × ℕ
take_consumer sf k = elim (find k sf.half_open) [
  | some c ↦ (record sf { half_open = delete k sf.half_open }, c)
  | none ↦ (
    record sf {
      half_open = record { key = k; consumer = sf.made } ∷ sf.half_open;
      made = suc sf.made;
    },
    sf.made,
  )
]

abbrev pub key_of : Bool → NetFlow → TransportFlow → ConnectionKey
key_of true net transport = record { net = net; transport = transport }
key_of false net transport = reverse (record { net = net; transport = transport })

abbrev pub side_of : Bool → Side
side_of true = server_stream
side_of false = client_stream

-- New; `none` is a panic.
unfoldable pub new : StreamFactory → NetFlow → TransportFlow → Option (StreamFactory × Stream)
new sf net transport = elim (is_from_server sf transport) [
  | none ↦ none
  | some from_server ↦
      let (sf', c) = take_consumer sf (key_of from_server net transport) in
      some (sf', record { side = side_of from_server; consumer = c })
]
