-- ===== src/Capture/Sources.antt =====
-- capture/capture.go: the interface PacketSource, and the methods by which a pcap handle meets it.
use memsniff.Capture.Packets.{PacketBuffer}
use memsniff.Capture.Collect.{CollectError, not_read, ReadResult, failed, read, collect_packets}
use memsniff.Common.{Option, none, some}

-- Both methods change the source; a result `none` is nil.
pub record PacketSource (Src Info : Type 0) : Type 0 where
  pub collect : Src → PacketBuffer Info → Src × PacketBuffer Info × Option CollectError
  pub discard : Src → Src × Option CollectError

-- `next` is ZeroCopyReadPacketData of the handle.
module _ {Info Handle : Type 0} (next : Handle → Handle × ReadResult Info) where
  unfoldable pub discard_packet : Handle → Handle × Option CollectError
  discard_packet h =
      let (h', r) = next h in elim r [ failed e ↦ (h', some (not_read e)) | read pd ↦ (h', none) ]

  abbrev pub source : PacketSource Handle Info
  source = record { collect = collect_packets next; discard = discard_packet }
