-- ===== src/Decode.antt =====
-- decode: workers that decode the packets of a source (decode/pool.go, worker.go and decode.go).
pub mod Pool
pub mod Packet
