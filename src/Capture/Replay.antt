-- ===== src/Capture/Replay.antt =====
-- capture/replay.go: a packet source that throttles another one by the packets' timestamps.
-- Times and durations are in nanoseconds; Go's zero time is 0.
pub mod Expired
pub mod Written
pub mod Settled
pub mod Refill
pub mod Refilling
pub mod Delivers
pub mod Discards
mod Tests
use memsniff.Capture.Packets.{
  PacketData, PacketBuffer, panics, append, packet, packet_len, clear, bytes_remaining,
  new_packet_buffer,
}
use memsniff.Capture.Collect.{CollectError, not_read, not_appended, timed_out, snap_len}
use memsniff.Capture.Sources.{PacketSource}
use memsniff.Word.{wrap}
use memsniff.Common.{
  ℕ, zero, suc, ◌+◌, ◌-◌, ◌*◌, ◌/◌, ◌^◌, min, Bool, true, false, ◌||◌, Option, none, some, ltb, leb,
  ◌==◌, if◌then◌else◌, ℤ, pos, ◌+ℤ◌, ◌-ℤ◌, ltb_ℤ,
}

pub record Replayer (Src Info : Type 0) : Type 0 where
  pub start : ℕ
  pub first : ℕ
  pub buf : PacketBuffer Info
  pub cursor : ℕ
  pub received : ℕ
  pub dropped : ℕ
  pub src : Src

-- replayerTimeout, 10 ms.
abbrev pub replayer_timeout : ℕ
replayer_timeout = 10_000_000

-- time.Since, at most the longest Duration. A reading of Go's monotonic clock is never less than
-- an earlier one, such as `start`, so that no time since is negative.
unfoldable pub since : ℕ → ℕ → ℕ
since now start = min (now - start) (2 ^ 63 - 1)

-- `elapsed + replayerTimeout`, as a Duration.
unfoldable pub with_timeout : ℕ → ℤ
with_timeout elapsed = wrap (pos (elapsed + replayer_timeout))

-- A panic, of an index out of range.
abbrev pub panic : CollectError
panic = not_appended panics

abbrev pub is_error : Option CollectError → Bool
is_error none = false
is_error (some e) = true

module _ {Src Info : Type 0} where
  -- newReplayer
  unfoldable pub new_replayer : Info → Src → ℕ → ℕ → Replayer Src Info
  new_replayer blank src batch_size max_bytes = record {
    start = 0;
    first = 0;
    buf = new_packet_buffer blank batch_size max_bytes;
    cursor = 0;
    received = 0;
    dropped = 0;
    src = src;
  }

  abbrev pub started : ℕ → Replayer Src Info → Replayer Src Info
  started now r = record r { start = if r.start == 0 then now else r.start }

  -- Stats: PacketsReceived and PacketsDropped.
  abbrev pub stats : Replayer Src Info → ℕ × ℕ
  stats r = (r.received, r.dropped)

-- `p.Info.Timestamp.After(writeUntil)`
unfoldable pub is_early : {Info : Type 0} → (Info → ℕ) → ℕ → ℕ → PacketData Info → Bool
is_early timestamp first elapsed p =
    ltb_ℤ (pos first +ℤ with_timeout elapsed) (pos (timestamp p.info))

-- `timestamp` is the Timestamp of a CaptureInfo.
module _ {Src Info : Type 0} (timestamp : Info → ℕ) where
  unfoldable pub set_first : Replayer Src Info → Replayer Src Info × Option CollectError
  set_first r =
      if r.first == 0
      then elim (packet r.buf 0) [
        | none ↦ (r, some panic)
        | some p ↦ (record r { first = timestamp p.info }, none)
      ]
      else (r, none)

  -- fill, behind the source's CollectPackets.
  unfoldable pub fill_with :
      Replayer Src Info
      → Src × PacketBuffer Info × Option CollectError
      → Replayer Src Info × Option CollectError
  fill_with r (src, buf, some err) = (record r { src = src; buf = buf }, some err)
  fill_with r (src, buf, none) = set_first (record r { src = src; buf = buf; cursor = 0 })

  -- The loop of dropExpired, with the packets it may look at; a packet is not expired if its
  -- timestamp is after `limit` less half of the timeout.
  unfoldable pub drop_loop : ℕ → ℕ → Replayer Src Info → Replayer Src Info × Option CollectError
  drop_loop limit zero r = (r, none)
  drop_loop limit (suc k) r = elim (packet r.buf r.cursor) [
    | none ↦ (r, some panic)
    | some p ↦
        if ltb limit (timestamp p.info + replayer_timeout / 2)
        then (r, none)
        else drop_loop limit k (record r { cursor = suc r.cursor; dropped = suc r.dropped })
  ]

  unfoldable pub drop_expired : ℕ → Replayer Src Info → Replayer Src Info × Option CollectError
  drop_expired elapsed r = drop_loop (r.first + elapsed) (packet_len r.buf - r.cursor) r

  -- A round of the loop that fills, behind dropExpired and behind fill; `again` is the next round.
  unfoldable pub after_drop :
      (Replayer Src Info → Option (Replayer Src Info × Option CollectError))
      → Replayer Src Info × Option CollectError
      → Option (Replayer Src Info × Option CollectError)
  after_drop again (r, some err) = some (r, some err)
  after_drop again (r, none) = again r

  unfoldable pub after_fill :
      (Replayer Src Info → Option (Replayer Src Info × Option CollectError))
      → ℕ
      → Replayer Src Info × Option CollectError
      → Option (Replayer Src Info × Option CollectError)
  after_fill again elapsed (r, some err) = some (r, some err)
  after_fill again elapsed (r, none) = after_drop again (drop_expired elapsed r)

  -- The loop that writes packets.
  unfoldable pub write_loop :
      ℕ
      → ℕ
      → Replayer Src Info
      → PacketBuffer Info
      → Replayer Src Info × PacketBuffer Info × Option CollectError
  write_loop elapsed zero r pb = (r, pb, none)
  write_loop elapsed (suc k) r pb =
      if ltb (bytes_remaining pb.packed) snap_len
      then (r, pb, none)
      else elim (packet r.buf r.cursor) [
        | none ↦ (r, pb, some panic)
        | some p ↦
            if is_early timestamp r.first elapsed p
            then (
              record r { received = suc r.received },
              pb,
              if packet_len pb == 0 then some (not_read timed_out) else none,
            )
            else let (pb', e) = append pb p in
              elim e [
                | some err ↦ (record r { received = suc r.received }, pb', some (not_appended err))
                | none ↦
                    write_loop elapsed k
                      (record r { received = suc r.received; cursor = suc r.cursor }) pb'
              ]
      ]

  -- CollectPackets, behind the loop that fills.
  unfoldable pub after_loop :
      ℕ
      → PacketBuffer Info
      → Option (Replayer Src Info × Option CollectError)
      → Option (Replayer Src Info × PacketBuffer Info × Option CollectError)
  after_loop elapsed pb none = none
  after_loop elapsed pb (some (r, some err)) = some (r, pb, some err)
  after_loop elapsed pb (some (r, none)) =
      some (write_loop elapsed (packet_len r.buf - r.cursor) r pb)

  -- DiscardPacket, with a packet in the buffer.
  unfoldable pub discard_next : ℕ → Replayer Src Info → Replayer Src Info × Option CollectError
  discard_next now r = elim (packet r.buf r.cursor) [
    | none ↦ (r, some panic)
    | some p ↦
        if ltb_ℤ (with_timeout (since now r.start)) (pos (timestamp p.info) -ℤ pos r.first)
        then (r, some (not_read timed_out))
        else (record r { cursor = suc r.cursor; received = suc r.received }, none)
  ]

module _ {Src Info : Type 0} (ps : PacketSource Src Info) (timestamp : Info → ℕ) where
  unfoldable pub fill : Replayer Src Info → Replayer Src Info × Option CollectError
  fill r = fill_with timestamp r (ps.collect r.src r.buf)

  -- The loop that fills, on fuel; `none` where the fuel is used up.
  unfoldable pub fill_loop :
      ℕ → ℕ → Replayer Src Info → Option (Replayer Src Info × Option CollectError)
  fill_loop zero elapsed r = none
  fill_loop (suc fuel) elapsed r = elim (ltb r.cursor (packet_len r.buf)) [
    | true ↦ some (r, none)
    | false ↦ after_fill timestamp (fill_loop fuel elapsed) elapsed (fill r)
  ]

  unfoldable pub replay_from :
      ℕ
      → ℕ
      → Replayer Src Info
      → PacketBuffer Info
      → Option (Replayer Src Info × PacketBuffer Info × Option CollectError)
  replay_from fuel elapsed r pb =
      after_loop timestamp elapsed pb
        (after_drop timestamp (fill_loop fuel elapsed) (drop_expired timestamp elapsed r))

  -- CollectPackets, which reads the clock twice.
  unfoldable pub replay_packets :
      ℕ
      → ℕ
      → ℕ
      → Replayer Src Info
      → PacketBuffer Info
      → Option (Replayer Src Info × PacketBuffer Info × Option CollectError)
  replay_packets fuel now later r pb =
      replay_from fuel (since later (started now r).start) (started now r) (clear pb)

  unfoldable pub discard_replayed : ℕ → Replayer Src Info → Replayer Src Info × Option CollectError
  discard_replayed now r =
      if ltb r.cursor (packet_len r.buf)
      then discard_next timestamp now r
      else let (r1, e) = fill r in
        if packet_len r1.buf == 0 || is_error e then (r1, e) else discard_next timestamp now r1
