-- ===== src/Analysis.antt =====
-- analysis: events are filtered, spread over workers by their key, counted by each worker's hotlist,
-- and reported. The workers' goroutines are explicit steps; a report is one step of the whole pool.
pub mod Filter
pub mod Worker
pub mod Pool
