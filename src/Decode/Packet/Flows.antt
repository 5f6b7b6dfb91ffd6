-- ===== src/Decode/Packet/Flows.antt =====
-- The hash that decode/decode.go gives the packets of the two directions of a connection.
use memsniff.Capture.Packets.{PacketData}
use memsniff.Decode.Packet.{
  LayerType, ethernet, loopback, dot1q, ipv4, ipv6, tcp, payload, Layers, Parsed, DecodedPacket,
  hash_combine, see_layer, see_layers, parse, decode,
}
use memsniff.Common.{ℕ, ◌≡◌, refl, ap, ap₂, ◌∙◌, List, [], ◌∷◌, ◌⊎◌, inl, inr}

-- An IP layer stands before the TCP layer, if there is one.
abbrev pub IsOverIp : List LayerType → Type 0
IsOverIp [] = Unit
IsOverIp (ipv4 ∷ ls) = Unit
IsOverIp (ipv6 ∷ ls) = Unit
IsOverIp (tcp ∷ ls) = ⊥
IsOverIp (ethernet ∷ ls) = IsOverIp ls
IsOverIp (loopback ∷ ls) = IsOverIp ls
IsOverIp (dot1q ∷ ls) = IsOverIp ls
IsOverIp (payload ∷ ls) = IsOverIp ls

module _ {Net Tcp : Type 0} (reverse_net : Net → Net) (reverse_tcp : Tcp → Tcp) where
  -- In each decoded layer that has a flow, the second packet goes the other way.
  abbrev pub Mirrors : List LayerType → Layers Net Tcp → Layers Net Tcp → Type 0
  Mirrors [] a b = Unit
  Mirrors (ipv4 ∷ ls) a b = (b.ip4 ≡ reverse_net a.ip4) × Mirrors ls a b
  Mirrors (ipv6 ∷ ls) a b = (b.ip6 ≡ reverse_net a.ip6) × Mirrors ls a b
  Mirrors (tcp ∷ ls) a b = (b.transport ≡ reverse_tcp a.transport) × Mirrors ls a b
  Mirrors (ethernet ∷ ls) a b = Mirrors ls a b
  Mirrors (loopback ∷ ls) a b = Mirrors ls a b
  Mirrors (dot1q ∷ ls) a b = Mirrors ls a b
  Mirrors (payload ∷ ls) a b = Mirrors ls a b

module _ {Info Net Tcp : Type 0} (reverse_net : Net → Net) (reverse_tcp : Tcp → Tcp)
    (net_hash : Net → ℕ) (tcp_hash : Tcp → ℕ)
    (net_both : (f : Net) → net_hash (reverse_net f) ≡ net_hash f)
    (tcp_both : (f : Tcp) → tcp_hash (reverse_tcp f) ≡ tcp_hash f) where
  see_layers_hash :
      (ls : List LayerType) (a b : DecodedPacket Info Net Tcp)
      → Mirrors reverse_net reverse_tcp ls a.layers b.layers
      → b.flow_hash ≡ a.flow_hash
      → (net_hash b.net_flow ≡ net_hash a.net_flow) ⊎ IsOverIp ls
      → (see_layers net_hash tcp_hash b ls).flow_hash
        ≡ (see_layers net_hash tcp_hash a ls).flow_hash
  unfolding see_layers see_layer
  see_layers_hash [] a b m h n = h
  see_layers_hash (ipv4 ∷ ls) a b m h n =
      see_layers_hash ls (record a { net_flow = a.layers.ip4 })
        (record b { net_flow = b.layers.ip4 }) m.1 h (inl (ap net_hash m.0 ∙ net_both a.layers.ip4))
  see_layers_hash (ipv6 ∷ ls) a b m h n =
      see_layers_hash ls (record a { net_flow = a.layers.ip6 })
        (record b { net_flow = b.layers.ip6 }) m.1 h (inl (ap net_hash m.0 ∙ net_both a.layers.ip6))
  see_layers_hash (tcp ∷ ls) a b m h (inr no_ip) = absurd no_ip
  see_layers_hash (tcp ∷ ls) a b m h (inl n) =
      see_layers_hash ls
        (record a { flow_hash = hash_combine (net_hash a.net_flow) (tcp_hash a.layers.transport) })
        (record b { flow_hash = hash_combine (net_hash b.net_flow) (tcp_hash b.layers.transport) })
        m.1 (ap₂ hash_combine n (ap tcp_hash m.0 ∙ tcp_both a.layers.transport)) (inl n)
  see_layers_hash (ethernet ∷ ls) a b m h n = see_layers_hash ls a b m h n
  see_layers_hash (loopback ∷ ls) a b m h n = see_layers_hash ls a b m h n
  see_layers_hash (dot1q ∷ ls) a b m h n = see_layers_hash ls a b m h n
  see_layers_hash (payload ∷ ls) a b m h n = see_layers_hash ls a b m h n

  -- Where FastHash gives a flow and its reverse the same hash, two packets that parse to the
  -- same layers, an IP layer before any TCP layer, and whose decoded flows are each other's
  -- reverse, get the same FlowHash, whatever was decoded in their places before.
  pub decode-flow_hash :
      (decode_layers : LayerType → Layers Net Tcp → List ℕ → Parsed Net Tcp) (len : Info → ℕ)
      (l m : ℕ) (a b : DecodedPacket Info Net Tcp) (p q : PacketData Info)
      → (parse decode_layers b.layers q.bytes).decoded
        ≡ (parse decode_layers a.layers p.bytes).decoded
      → IsOverIp (parse decode_layers a.layers p.bytes).decoded
      → Mirrors reverse_net reverse_tcp
          (parse decode_layers a.layers p.bytes).decoded
          (parse decode_layers a.layers p.bytes).layers
          (parse decode_layers b.layers q.bytes).layers
      → (decode decode_layers net_hash tcp_hash len m b q).0.flow_hash
        ≡ (decode decode_layers net_hash tcp_hash len l a p).0.flow_hash
  unfolding decode
  decode-flow_hash decode_layers len l m a b p q e i mi =
      rw e (see_layers_hash _ _ _ mi refl (inr i))
