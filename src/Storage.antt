-- ===== src/Storage.antt =====
-- internal/storage and db/migrations: the tables, and one function for each typed query.
pub mod Schema
pub mod Connection
pub mod Statement
pub mod Crawl
pub mod Sampling
pub mod Players
pub mod Battles
pub mod Brawlers
pub mod Patches
pub mod Consistency
