-- ===== src/Analytics.antt =====
-- internal/analytics: win rates and maps, as queries over the tables.
pub mod Filters
pub mod WinRates
pub mod Maps
