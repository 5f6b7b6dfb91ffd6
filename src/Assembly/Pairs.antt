-- ===== src/Assembly/Pairs.antt =====
-- New of assembly/streamfactory.go, called for the two streams of a connection.
use memsniff.Assembly.{
  NetFlow, TransportFlow, ConnectionKey, reverse_net, reverse_transport, reverse, same_key,
  HalfOpen, StreamFactory, find, delete, is_from_server, client_stream, server_stream,
  take_consumer, new, key_of, side_of,
}
use memsniff.Common.{
  ℕ, suc, ◌≡◌, refl, ap, ◌∙◌, Bool, true, false, List, [], ◌∷◌, none, some, arith, if◌then◌else◌,
}

same_key_self : (k : ConnectionKey) → same_key k k ≡ true
unfolding same_key
same_key_self k = ground arith

delete-absent : (k : ConnectionKey) (hs : List HalfOpen) → find k hs ≡ none → delete k hs ≡ hs
unfolding find delete
delete-absent k [] h = refl
delete-absent k (x ∷ xs) h = ground (arith, delete-absent k xs)

-- The factory with a consumer made for a key, and with that consumer's second stream opened.
abbrev pub opened : StreamFactory → ConnectionKey → StreamFactory
opened sf k = record sf {
  half_open = record { key = k; consumer = sf.made } ∷ sf.half_open;
  made = suc sf.made;
}

abbrev pub paired : StreamFactory → StreamFactory
paired sf = record sf { made = suc sf.made }

take_first :
    (sf : StreamFactory) (k : ConnectionKey)
    → find k sf.half_open ≡ none
    → take_consumer sf k ≡ (opened sf k, sf.made)
unfolding take_consumer
take_first sf k h = rw (h, take_consumer) refl

find-head :
    (k : ConnectionKey) (c : ℕ) (hs : List HalfOpen)
    → find k (record { key = k; consumer = c } ∷ hs) ≡ some c
unfolding find
find-head k c hs = ap (λ b. if b then some c else find k hs) (same_key_self k)

delete-head :
    (k : ConnectionKey) (c : ℕ) (hs : List HalfOpen)
    → find k hs ≡ none
    → delete k (record { key = k; consumer = c } ∷ hs) ≡ hs
unfolding delete
delete-head k c hs h =
    ap (λ b. if b then delete k hs else record { key = k; consumer = c } ∷ delete k hs)
      (same_key_self k)
    ∙ delete-absent k hs h

take_found :
    (sf : StreamFactory) (k : ConnectionKey) (c : ℕ)
    → find k sf.half_open ≡ some c
    → take_consumer sf k ≡ (record sf { half_open = delete k sf.half_open }, c)
unfolding take_consumer
take_found sf k c h = rw (h, take_consumer) refl

take_second :
    (sf : StreamFactory) (k : ConnectionKey)
    → find k sf.half_open ≡ none
    → take_consumer (opened sf k) k ≡ (paired sf, sf.made)
take_second sf k h =
    take_found (opened sf k) k sf.made (find-head k sf.made sf.half_open)
    ∙ ap (λ hs. (record (paired sf) { half_open = hs }, sf.made))
        (delete-head k sf.made sf.half_open h)

new_of :
    (sf sf' : StreamFactory) (net : NetFlow) (transport : TransportFlow) (from_server : Bool)
    (c : ℕ)
    → is_from_server sf transport ≡ some from_server
    → take_consumer sf (key_of from_server net transport) ≡ (sf', c)
    → new sf net transport ≡ some (sf', record { side = side_of from_server; consumer = c })
unfolding new
new_of sf sf' net transport from_server c e t =
    rw (e, new) (ap (λ r. some (r.0, record { side = side_of from_server; consumer = r.1 })) t)

pub record Pairs (sf : StreamFactory) (net : NetFlow) (transport : TransportFlow) : Type 0 where
  pub between : StreamFactory
  pub client_first :
      new sf net transport ≡ some (between, record { side = client_stream; consumer = sf.made })
  pub server_first :
      new sf (reverse_net net) (reverse_transport transport)
      ≡ some (between, record { side = server_stream; consumer = sf.made })
  pub client_next :
      new between net transport
      ≡ some (paired sf, record { side = client_stream; consumer = sf.made })
  pub server_next :
      new between (reverse_net net) (reverse_transport transport)
      ≡ some (paired sf, record { side = server_stream; consumer = sf.made })

-- For a connection whose client port is no memcache port and whose server port is one, and
-- which has no half-open entry: New for the stream of either side makes the next consumer and
-- gives that side of it; New for the next stream of the connection, of either side again, gives
-- the same consumer and leaves the table of half-open connections as it was before.
pub new-Pairs :
    (sf : StreamFactory) (net : NetFlow) (transport : TransportFlow)
    → is_from_server sf transport ≡ some false
    → is_from_server sf (reverse_transport transport) ≡ some true
    → find (reverse (record { net = net; transport = transport })) sf.half_open ≡ none
    → Pairs sf net transport
unfolding is_from_server
new-Pairs sf net transport c s h =
    let k = reverse (record { net = net; transport = transport }) in
    record {
      between = opened sf k;
      client_first = new_of sf (opened sf k) net transport false sf.made c (take_first sf k h);
      server_first =
          new_of sf (opened sf k) (reverse_net net) (reverse_transport transport) true sf.made s
            (take_first sf k h);
      client_next =
          new_of (opened sf k) (paired sf) net transport false sf.made c (take_second sf k h);
      server_next =
          new_of (opened sf k) (paired sf) (reverse_net net) (reverse_transport transport) true
            sf.made s (take_second sf k h);
    }
