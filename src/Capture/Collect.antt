-- ===== src/Capture/Collect.antt =====
-- (source).CollectPackets of capture/capture.go: packets of a pcap handle, into a PacketBuffer.
mod Lawful
mod Tests
use memsniff.Capture.Packets.{
  AppendError, PacketData, PacketBuffer, append, packet_cap, packet_len, clear, bytes_remaining,
  block_count, append_block, clear_blocks,
}
use memsniff.Capture.Packets.Refine.{
  IsValid, contents, Appended, append_refines, append-packet_cap, clear-IsValid, length-contents,
}
use memsniff.Common.{
  ℕ, zero, suc, ◌+◌, ◌-◌, ◌≤◌, ◌<◌, ◌≡◌, refl, sym, ap, ◌∙◌, Bool, true, false, ◌&&◌, List, [], ◌∷◌,
  ◌++◌, append_assoc, append-nil, Option, none, some, ltb, if◌then◌else◌, length, arith, Bool-cases,
  inl, inr, ◌⊎◌, length-append, subst, ltb_false→le, ltb→lt,
}

-- snapLen
abbrev pub snap_len : ℕ
snap_len = 65535

-- The errors of ZeroCopyReadPacketData: io.EOF, pcap.NextErrorTimeoutExpired, and others.
pub data ReadError : Type 0 where
  at_eof timed_out other_error : ReadError

abbrev pub ends_batch : ReadError → Bool
ends_batch other_error = false
ends_batch _ = true

pub data CollectError : Type 0 where
  not_read : ReadError → CollectError
  not_appended : AppendError → CollectError

pub data ReadResult (Info : Type 0) : Type 0 where
  failed : ReadError → ReadResult Info
  read : PacketData Info → ReadResult Info

-- A handle in some state; `next` is its ZeroCopyReadPacketData.
module _ {Info Handle : Type 0} (next : Handle → Handle × ReadResult Info) where
  -- The loop, with the packets that it may still read, and the number it has read.
  unfoldable pub collect_loop :
      ℕ → ℕ → Handle → PacketBuffer Info → Handle × PacketBuffer Info × Option CollectError
  collect_loop zero i h pb = (h, pb, none)
  collect_loop (suc k) i h pb =
      if ltb (bytes_remaining pb.packed) snap_len
      then (h, pb, none)
      else let (h', r) = next h in
        elim r [
          | failed e ↦ (h', pb, if ends_batch e && ltb 0 i then none else some (not_read e))
          | read pd ↦
              let (pb', e) = append pb pd in
              elim e [
                | some err ↦ (h', pb', some (not_appended err))
                | none ↦ collect_loop k (suc i) h' pb'
              ]
        ]

  unfoldable pub collect_packets :
      Handle → PacketBuffer Info → Handle × PacketBuffer Info × Option CollectError
  collect_packets h pb = collect_loop (packet_cap pb) 0 h (clear pb)

  -- The handle gives the packets `ps`, one by one, and is then in the state `h'`.
  abbrev pub Gives : Handle → List (PacketData Info) → Handle → Type 0
  Gives h [] h' = h ≡ h'
  Gives h (p ∷ ps) h' = (h1 : Handle) × (next h ≡ (h1, read p)) × Gives h1 ps h'

  -- How the loop, which has read `count` packets of at most `limit`, leaves the handle: between
  -- packets, with the limit met or no room for a packet left; or behind an error, which the loop
  -- returns unless it ends a batch of at least one packet.
  abbrev pub Stops : ℕ → Handle → Handle → PacketBuffer Info → ℕ → Option CollectError → Type 0
  Stops limit h h' pb count e =
      ((h ≡ h') × (e ≡ none) × ((count ≡ limit) ⊎ (bytes_remaining pb.packed < snap_len)))
      ⊎ ((err : ReadError) × (next h ≡ (h', failed err))
          × (e ≡ (if ends_batch err && ltb 0 count then none else some (not_read err))))

  pub record Collects (limit i : ℕ) (h : Handle) (pb : PacketBuffer Info)
      (r : Handle × PacketBuffer Info × Option CollectError) : Type 0 where
    pub packets : List (PacketData Info)
    pub between : Handle
    pub given : Gives h packets between
    pub stopped : Stops limit between r.0 r.1 (i + length packets) r.2
    pub valid : IsValid r.1
    pub collected : contents r.1 ≡ contents pb ++ packets

  -- A handle that was opened with snapLen gives no longer packets.
  abbrev pub Snaps : Type 0
  Snaps =
      (h h' : Handle) (pd : PacketData Info) → next h ≡ (h', read pd) → length pd.bytes ≤ snap_len

  stopped_at :
      (limit i : ℕ) (h h' : Handle) (pb : PacketBuffer Info) (e : Option CollectError)
      → IsValid pb
      → Stops limit h h' pb i e
      → Collects limit i h pb (h', pb, e)
  stopped_at limit i h h' pb e v s = record {
    packets = [];
    between = h;
    given = refl;
    stopped = subst (λ n. Stops limit h h' pb n e) {x = i} {y = i + 0} (omega arith) s;
    valid = v;
    collected = sym (append-nil (contents pb));
  }

  one_more :
      (limit i : ℕ) (h h1 : Handle) (pb pb1 : PacketBuffer Info) (pd : PacketData Info)
      (r : Handle × PacketBuffer Info × Option CollectError)
      → next h ≡ (h1, read pd)
      → contents pb1 ≡ contents pb ++ pd ∷ []
      → Collects limit (suc i) h1 pb1 r
      → Collects limit i h pb r
  one_more limit i h h1 pb pb1 pd r e c a = record {
    packets = pd ∷ a.packets;
    between = a.between;
    given = (h1, e, a.given);
    stopped =
        subst (λ n. Stops limit a.between r.0 r.1 n r.2) {x = suc i + length a.packets}
          {y = i + suc (length a.packets)} (omega arith) a.stopped;
    valid = a.valid;
    collected =
        a.collected ∙ ap (λ ps. ps ++ a.packets) c ∙ append_assoc (contents pb) (pd ∷ []) a.packets;
  }

  loop_stops :
      (k i : ℕ) (h : Handle) (pb : PacketBuffer Info)
      → ltb (bytes_remaining pb.packed) snap_len ≡ true
      → collect_loop (suc k) i h pb ≡ (h, pb, none)
  unfolding collect_loop
  loop_stops k i h pb e = rw (e, collect_loop) refl

  loop_fails :
      (k i : ℕ) (h h' : Handle) (pb : PacketBuffer Info) (err : ReadError)
      → ltb (bytes_remaining pb.packed) snap_len ≡ false
      → next h ≡ (h', failed err)
      → collect_loop (suc k) i h pb
        ≡ (h', pb, if ends_batch err && ltb 0 i then none else some (not_read err))
  unfolding collect_loop
  loop_fails k i h h' pb err e n =
      rw (e, n, collect_loop)
        (ap (λ x. (x.0, pb, if ends_batch err && ltb 0 i then none else some (not_read err))) n)

  loop_reads :
      (k i : ℕ) (h h' : Handle) (pb : PacketBuffer Info) (pd : PacketData Info)
      → ltb (bytes_remaining pb.packed) snap_len ≡ false
      → next h ≡ (h', read pd)
      → (append pb pd).1 ≡ none
      → collect_loop (suc k) i h pb ≡ collect_loop k (suc i) h' (append pb pd).0
  unfolding collect_loop
  loop_reads k i h h' pb pd e n a =
      rw (e, n, a, collect_loop) (ap (λ x. collect_loop k (suc i) x.0 (append pb pd).0) n)

  next_cases :
      (h : Handle)
      → ((h' : Handle) × (e : ReadError) × (next h ≡ (h', failed e)))
        ⊎ ((h' : Handle) × (pd : PacketData Info) × (next h ≡ (h', read pd)))
  next_cases h = cases (next h) refl
    where
      cases :
          (x : Handle × ReadResult Info)
          → next h ≡ x
          → ((h' : Handle) × (e : ReadError) × (next h ≡ (h', failed e)))
            ⊎ ((h' : Handle) × (pd : PacketData Info) × (next h ≡ (h', read pd)))
      cases (h', failed e) q = inl (h', e, q)
      cases (h', read pd) q = inr (h', pd, q)

  collect_loop-Collects :
      (k i : ℕ) (h : Handle) (pb : PacketBuffer Info)
      → Snaps
      → IsValid pb
      → packet_len pb + k ≤ packet_cap pb
      → Collects (i + k) i h pb (collect_loop k i h pb)
  unfolding packet_cap
  collect_loop-Collects zero i h pb sn v c =
      unfold collect_loop in
      stopped_at (i + 0) i h h pb none v (inl (refl, refl, inl (omega arith)))
  collect_loop-Collects (suc k) i h pb sn v c =
      elim (Bool-cases (ltb (bytes_remaining pb.packed) snap_len)) [
        | inl e ↦ rw (loop_stops k i h pb e) (
            stopped_at (i + suc k) i h h pb none v
              (inl (refl, refl, inr (ltb→lt (bytes_remaining pb.packed) snap_len e))))
        | inr e ↦ elim (next_cases h) [
          | inl (h', err, n) ↦
              rw (loop_fails k i h h' pb err e n)
                (stopped_at (i + suc k) i h h' pb _ v (inr (err, n, refl)))
          | inr (h', pd, n) ↦
              let (ok, v1, c1) = (append_refines pb pd v (omega arith)).2 (omega arith) (
                omega (arith, sn h h' pd n, ltb_false→le (bytes_remaining pb.packed) snap_len e)) in
              rw (loop_reads k i h h' pb pd e n ok) (
                one_more (i + suc k) i h h' pb (append pb pd).0 pd _ n c1 (
                  subst
                    (λ m.
                      Collects m (suc i) h' (append pb pd).0
                        (collect_loop k (suc i) h' (append pb pd).0))
                    {x = suc i + k} {y = i + suc k} (omega arith)
                    (collect_loop-Collects k (suc i) h' (append pb pd).0 sn v1 (
                      omega (
                        arith,
                        append-packet_cap pb pd,
                        length-contents pb v,
                        length-contents (append pb pd).0 v1,
                        ap length c1,
                        length-append (contents pb) (pd ∷ []),
                      )))))
        ]
      ]

  -- CollectPackets on a handle that gives no packet longer than snapLen, into a valid buffer:
  -- no Append fails; the valid buffer holds, in order, exactly the packets that the handle
  -- gave; and the loop stops with nil between two packets, as many packets read as the buffer
  -- has places or fewer than snapLen bytes left in it, or behind an error of the handle, which
  -- it returns unless it is a timeout or the end of input after at least one packet.
  pub collect_packets-Collects :
      (h : Handle) (pb : PacketBuffer Info)
      → Snaps
      → IsValid pb
      → Collects (packet_cap pb) 0 h (clear pb) (collect_packets h pb)
  unfolding collect_packets packet_cap clear clear_blocks packet_len block_count
  collect_packets-Collects h pb sn v =
      subst (λ m. Collects m 0 h (clear pb) (collect_loop (packet_cap pb) 0 h (clear pb)))
        {x = 0 + packet_cap pb} {y = packet_cap pb} (omega arith)
        (collect_loop-Collects (packet_cap pb) 0 h (clear pb) sn (clear-IsValid pb v).0
          (omega arith))
