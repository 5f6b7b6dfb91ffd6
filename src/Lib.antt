-- ===== src/Lib.antt =====
-- memsniff: a passive monitor of memcached traffic (package paths from the repository's root).
--
-- Captured packets are decoded, TCP streams are reassembled (assembly), and each connection's two
-- streams feed a consumer (protocol/model) that speaks the memcached text protocol
-- (protocol/mctext) and reports an event for each value that a get returned.
--
-- Error.antt: the error values (assembly/reader/error.go, io, mctext).
-- Buffer.antt: assembly/reader/buffer.go, a receive buffer that knows where bytes were lost. The
--   children state what it stands for (Cells, Stream) and what its methods do to that (Writing,
--   Discard, Dropping, Discarding, Front, Reading, Lines, Negative, Data), also when nothing is
--   lost (Plain, Words).
-- Reader.antt: assembly/reader/reader.go, a buffer with the state of its connection (Laws is
--   about Reset, Taking about Reassembled).
-- Source.antt: model.ConsumerSource, which is a Reader or the DummySource of
--   protocol/model/dummy.go.
-- Model.antt: protocol/model/consumer.go, event batching and the two stream views.
-- Mctext.antt: protocol/mctext/consumer.go, the protocol's State methods, one function each, and
--   the loop that runs them. Text is what it calls of Go's libraries; Sound and Steps keep a
--   conversation sound, Run shows that the loop ends, Feed is about whole conversations, Reply
--   and Answer about replies to a get, Request and Args about request lines, Binary about binary
--   connections, Kept and History about the events of a conversation.
-- Capture.antt: capture/packetbuffer.go (Packets, with what it stands for in Blocks and Refine),
--   the methods of a source in capture/capture.go (Collect, and the interface PacketSource in
--   Sources), how it is opened (Open; Ports is about the filter expression), and
--   capture/replay.go (Replay: Expired, Settled, Refill, Refilling and Written are about the
--   loops of CollectPackets, Delivers about all of it, Discards about DiscardPacket).
-- Decode.antt: decode/pool.go and decode/worker.go (Pool, a state machine whose steps are those
--   of the goroutines: Places says where the workers are, Closing and Exits are about the end of
--   input, Counts about the statistics), and decode/decode.go (Packet; Flows is about the hash of
--   a connection, Batches about decodeBatch).
-- Hotlist.antt: hotlist/hotlist.go and hotlist/perfect.go; Sorting.antt is the sort that they and
--   analysis/report.go call.
-- Analysis.antt: analysis/filter.go (Filter), analysis/worker.go (Worker), analysis/pool.go and
--   analysis/report.go (Pool; Runs has it step with its workers, Delivered and Totals follow an
--   event to a hotlist).
-- Assembly.antt: assembly/streamfactory.go, which consumer gets a new stream (Pairs), and
--   assembly/pool.go and assembly/worker.go, a state machine again (Pool; Queued and Answers
--   count batches, Calls is about the calls that wait).
-- Presentation.antt: presentation/termbox.go, what it draws (Screen; Rows says on which rows) and
--   its event loop with presentation/presentation.go (Ui; Messages is about the messages shown,
--   Pausing about the pause key).
-- Log.antt: log/logger.go (Written is about messages that are kept and written out).
-- Main.antt: the statistics of main.go.
-- Decimal.antt: the decimal text of an int.
-- Partition.antt: the loop that deals packets or events out to workers.
-- Word.antt: 64-bit arithmetic that wraps round.
-- Common.antt: numbers, lists and integers shared by all.
--
-- Bytes and lengths are numbers. A slice that a reading method returns is a value. Lengths are
-- not bounded, nor are counts of packets and events, and no count of bytes to read or peek at is
-- negative; the source's ints wrap round once a Discard of a count near 2^63 takes the length of
-- a buffer, a gap or the pending count out of 64 bits, and the model stands for it only short of
-- that; the size of a value plus its line end, and a size times a count, are 64-bit ints that
-- wrap round. The State field is an enumeration of the methods that it is set to. The event
-- handler's calls are recorded in order. The pool of readers is left out: what goes back to it is
-- reset, and a reset reader is a new one. Calls of the logger are left out. The goroutine of an
-- analysis worker is a sequence of steps, its channel a list of batches; the goroutines of the
-- decode pool and of the assembly pool take steps in any order. The replayer's clock readings are
-- arguments, those of a monotonic clock, and its loop over batches has fuel for each batch that
-- its source has left. A pcap handle and the compiler of regular expressions are parameters; a
-- handle is taken to give no packet longer than its snap length, which capture/capture.go sets
-- for live interfaces. Go's maps have no order, so a list stands for any order of theirs.
--
-- The loop of run has fuel for each byte that the streams hold and for the first look, and the
-- loop of handleGet for each byte of the server's stream; every round uses up a byte, so the fuel
-- is enough.
--
-- A logger is the contexts wrapped round a sink, a buffer or a proxy; a message has fuel for each
-- proxy that it passes. What termbox, pcap and fmt's floating point give is a parameter.
--
-- Not modelled: start-up and flags (main.go but for its statistics), profiling (profiling.go),
-- the texts of errors, the polling of the keyboard, and vendored libraries.
pub mod Common
pub mod Word
pub mod Decimal
pub mod Sorting
pub mod Error
pub mod Buffer
pub mod Reader
pub mod Source
pub mod Model
pub mod Partition
pub mod Mctext
pub mod Capture
pub mod Hotlist
pub mod Analysis
pub mod Assembly
pub mod Presentation
pub mod Log
pub mod Main
pub mod Decode
