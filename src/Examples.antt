-- ===== src/Examples.antt =====
-- Tests of the definitions at concrete inputs, and instances of the theorems.
pub mod Data
pub mod Queue
pub mod Pure
pub mod Crawl
pub mod Lifecycle
pub mod Served
pub mod Site
pub mod Commands
pub mod Schedule
pub mod History
pub mod Startup
