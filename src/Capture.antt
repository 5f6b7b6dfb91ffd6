-- ===== src/Capture.antt =====
-- capture: packets on their way to a decoder (capture/packetbuffer.go and capture/capture.go).
pub mod Packets
pub mod Collect
pub mod Sources
pub mod Replay
pub mod Open
