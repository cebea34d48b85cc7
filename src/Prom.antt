-- ===== src/Prom.antt =====
-- pkg/datasource-providers/prom: range queries cut into windows, and what is done with the answers.
pub mod Series
pub mod Shards
pub mod RateLimit
pub mod Convert
pub mod Query
