-- ===== src/Decode/Packet/Batches.antt =====
-- decodeBatch of decode/decode.go against decoding each packet in its own place.
use memsniff.Capture.Packets.{PacketData, PacketBuffer, packet, packet_len, set_elem}
use memsniff.Capture.Packets.Refine.{IsValid, contents, packet-contents, length-contents}
use memsniff.Decode.Packet.{
  LayerType, ethernet, loopback, dot1q, ipv4, ipv6, tcp, payload, see_layer, see_layers, Layers,
  Parsed, DecodedPacket, Decoder, decode, decode_loop, decode_batch,
}
use memsniff.Common.{
  ℕ, suc, ◌≤◌, ◌≡◌, refl, sym, ap, ap₂, ◌∙◌, subst, List, [], ◌∷◌, ◌++◌, append_assoc, Option, some,
  arith, length, length-append, length-take, take, get_elem?, map, le→ltb_false,
}

module _ {A : Type 0} where
  get-append_length : (xs ys : List A) (y : A) → get_elem? (xs ++ y ∷ ys) (length xs) ≡ some y
  get-append_length [] ys y = refl
  get-append_length (x ∷ xs) ys y = get-append_length xs ys y

  set_elem-append_length :
      (xs ys : List A) (y z : A) → set_elem (xs ++ y ∷ ys) (length xs) z ≡ some (xs ++ z ∷ ys)
  unfolding set_elem
  set_elem-append_length [] ys y z = refl
  set_elem-append_length (x ∷ xs) ys y z = rw (set_elem-append_length xs ys y z) refl

abbrev pub info_of : {Info Net Tcp : Type 0} → DecodedPacket Info Net Tcp → Info
info_of dp = dp.info

abbrev pub captured_info : {Info : Type 0} → PacketData Info → Info
captured_info pd = pd.info

module _ {Info Net Tcp : Type 0} (net_hash : Net → ℕ) (tcp_hash : Tcp → ℕ) where
  see_layers_info :
      (ls : List LayerType) (dp : DecodedPacket Info Net Tcp)
      → info_of (see_layers net_hash tcp_hash dp ls) ≡ info_of dp
  unfolding see_layers see_layer
  see_layers_info [] dp = refl
  see_layers_info (ipv4 ∷ ls) dp = see_layers_info ls (see_layer net_hash tcp_hash dp ipv4)
  see_layers_info (ipv6 ∷ ls) dp = see_layers_info ls (see_layer net_hash tcp_hash dp ipv6)
  see_layers_info (tcp ∷ ls) dp = see_layers_info ls (see_layer net_hash tcp_hash dp tcp)
  see_layers_info (ethernet ∷ ls) dp = see_layers_info ls dp
  see_layers_info (loopback ∷ ls) dp = see_layers_info ls dp
  see_layers_info (dot1q ∷ ls) dp = see_layers_info ls dp
  see_layers_info (payload ∷ ls) dp = see_layers_info ls dp

module _ {Info Net Tcp : Type 0}
    (decode_layers : LayerType → Layers Net Tcp → List ℕ → Parsed Net Tcp) (net_hash : Net → ℕ)
    (tcp_hash : Tcp → ℕ) (len : Info → ℕ) where
  -- Each packet decoded into its own place, and the largest truncated length.
  unfoldable pub decode_all :
      ℕ
      → List (DecodedPacket Info Net Tcp)
      → List (PacketData Info)
      → List (DecodedPacket Info Net Tcp) × ℕ
  decode_all largest dps [] = (dps, largest)
  decode_all largest [] (pd ∷ pds) = ([], largest)
  decode_all largest (dp ∷ dps) (pd ∷ pds) =
      let (dp', l) = decode decode_layers net_hash tcp_hash len largest dp pd in
      let (dps', l') = decode_all l dps pds in (dp' ∷ dps', l')

  loop_step :
      (k i largest : ℕ) (dps dps' : List (DecodedPacket Info Net Tcp)) (pb : PacketBuffer Info)
      (pd : PacketData Info) (dp : DecodedPacket Info Net Tcp)
      → packet pb i ≡ some pd
      → get_elem? dps i ≡ some dp
      → set_elem dps i (decode decode_layers net_hash tcp_hash len largest dp pd).0 ≡ some dps'
      → decode_loop decode_layers net_hash tcp_hash len
          (suc k)
          i
          (record { largest = largest; decoded = dps })
          pb
        ≡ decode_loop decode_layers net_hash tcp_hash len k
            (suc i)
            (record {
              largest = (decode decode_layers net_hash tcp_hash len largest dp pd).1;
              decoded = dps';
            })
            pb
  unfolding decode_loop
  loop_step k i largest dps dps' pb pd dp p g s = rw (p, g, s, decode_loop) refl

  loop_decodes :
      (seen rest : List (PacketData Info)) (done todo : List (DecodedPacket Info Net Tcp))
      (largest : ℕ) (pb : PacketBuffer Info)
      → IsValid pb
      → contents pb ≡ seen ++ rest
      → length seen ≡ length done
      → length rest ≤ length todo
      → decode_loop decode_layers net_hash tcp_hash len
          (length rest)
          (length done)
          (record { largest = largest; decoded = done ++ todo })
          pb
        ≡ some (record {
          largest = (decode_all largest todo rest).1;
          decoded = done ++ (decode_all largest todo rest).0;
        })
  unfolding decode_loop decode_all
  loop_decodes seen [] done todo largest pb v c s le = refl
  loop_decodes seen (pd ∷ rest) done [] largest pb v c s le = absurd (omega arith)
  loop_decodes seen (pd ∷ rest) done (dp ∷ todo) largest pb v c s le =
      loop_step (length rest) (length done) largest (done ++ dp ∷ todo) (done ++ r.0 ∷ todo) pb pd
        dp here (get-append_length done todo dp) (set_elem-append_length done todo dp r.0)
      ∙ (rw
          (
            ← size,
            ← append_assoc done (r.0 ∷ []) todo,
            ← append_assoc done (r.0 ∷ []) (decode_all r.1 todo rest).0,
          )
          (loop_decodes (seen ++ pd ∷ []) rest (done ++ r.0 ∷ []) todo r.1 pb v
            (c ∙ sym (append_assoc seen (pd ∷ []) rest))
            (omega (arith, s, length-append seen (pd ∷ []), length-append done (r.0 ∷ [])))
            (omega arith)))
    where
      r : DecodedPacket Info Net Tcp × ℕ
      r = decode decode_layers net_hash tcp_hash len largest dp pd

      here : packet pb (length done) ≡ some pd
      here =
          packet-contents pb (length done) v
          ∙ ap (λ xs. get_elem? xs (length done)) c
          ∙ subst (λ n. get_elem? (seen ++ pd ∷ rest) n ≡ some pd) s
              (get-append_length seen rest pd)

      size : length (done ++ r.0 ∷ []) ≡ suc (length done)
      size = omega (arith, length-append done (r.0 ∷ []))

  length-decode_all :
      (pds : List (PacketData Info)) (dps : List (DecodedPacket Info Net Tcp)) (largest : ℕ)
      → length (decode_all largest dps pds).0 ≡ length dps
  unfolding decode_all
  length-decode_all [] dps largest = refl
  length-decode_all (pd ∷ pds) [] largest = refl
  length-decode_all (pd ∷ pds) (dp ∷ dps) largest =
      ap suc
        (length-decode_all pds dps (decode decode_layers net_hash tcp_hash len largest dp pd).1)

  decode_info :
      (largest : ℕ) (dp : DecodedPacket Info Net Tcp) (pd : PacketData Info)
      → info_of (decode decode_layers net_hash tcp_hash len largest dp pd).0 ≡ captured_info pd
  unfolding decode
  decode_info largest dp pd = see_layers_info net_hash tcp_hash _ _

  decode_all-infos :
      (pds : List (PacketData Info)) (dps : List (DecodedPacket Info Net Tcp)) (largest : ℕ)
      → length pds ≤ length dps
      → map info_of (take (length pds) (decode_all largest dps pds).0) ≡ map captured_info pds
  unfolding decode_all
  decode_all-infos [] dps largest le = refl
  decode_all-infos (pd ∷ pds) [] largest le = absurd (omega arith)
  decode_all-infos (pd ∷ pds) (dp ∷ dps) largest le = ap₂ ◌∷◌ (decode_info largest dp pd) (
      decode_all-infos pds dps (decode decode_layers net_hash tcp_hash len largest dp pd).1
        (omega arith))

  -- What decodeBatch makes of the packets of a buffer.
  pub record DecodesBatch (d : Decoder Info Net Tcp) (pds : List (PacketData Info))
      (r : Option (Decoder Info Net Tcp × List (DecodedPacket Info Net Tcp))) : Type 0 where
    pub after : Decoder Info Net Tcp
    pub handed : List (DecodedPacket Info Net Tcp)
    pub returned : r ≡ some (after, handed)
    pub as_many : length handed ≡ length pds
    pub each : handed ≡ take (length pds) (decode_all d.largest d.decoded pds).0
    pub infos : map info_of handed ≡ map captured_info pds
    pub room : length after.decoded ≡ length d.decoded
    pub largest : after.largest ≡ (decode_all d.largest d.decoded pds).1

  -- decodeBatch of a valid buffer with no more packets than the decoder has places does not
  -- panic, and gives the handler, for each packet in order, the packet decoded into its own
  -- place, with its CaptureInfo; the decoder keeps its places, and its largest truncated length
  -- is that of decoding the packets one after the other.
  pub decode_batch-DecodesBatch :
      (d : Decoder Info Net Tcp) (pb : PacketBuffer Info)
      → IsValid pb
      → packet_len pb ≤ length d.decoded
      → DecodesBatch d (contents pb) (decode_batch decode_layers net_hash tcp_hash len d pb)
  unfolding decode_batch
  decode_batch-DecodesBatch d pb v le = record {
    after = after;
    handed = take (packet_len pb) after.decoded;
    returned = rw (le→ltb_false (length d.decoded) (packet_len pb) le, looped, decode_batch) refl;
    as_many =
        length-take (packet_len pb) after.decoded
        ∙ omega (arith, length-decode_all (contents pb) d.decoded d.largest, count);
    each = ap (λ n. take n after.decoded) (sym count);
    infos =
        ap (λ n. map info_of (take n after.decoded)) (sym count)
        ∙ decode_all-infos (contents pb) d.decoded d.largest (omega (arith, count));
    room = length-decode_all (contents pb) d.decoded d.largest;
    largest = refl;
  }
    where
      after : Decoder Info Net Tcp
      after = record {
        largest = (decode_all d.largest d.decoded (contents pb)).1;
        decoded = (decode_all d.largest d.decoded (contents pb)).0;
      }

      count : length (contents pb) ≡ packet_len pb
      count = length-contents pb v

      looped : decode_loop decode_layers net_hash tcp_hash len (packet_len pb) 0 d pb ≡ some after
      looped =
          ap (λ n. decode_loop decode_layers net_hash tcp_hash len n 0 d pb) (sym count)
          ∙ loop_decodes [] (contents pb) [] d.decoded d.largest pb v refl refl
              (omega (arith, count))
