-- ===== src/Crawler.antt =====
-- internal/crawler: backoff, one crawl by a worker, and the scheduling of the workers.
pub mod Backoff
pub mod Worker
pub mod Scheduler
