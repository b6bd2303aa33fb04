-- ===== src/Thread.antt =====
-- framework/threads: the queue of packages that worker threads run.
pub mod Pump
pub mod Worker
pub mod Pool
pub mod Queue
pub mod Scheduled
