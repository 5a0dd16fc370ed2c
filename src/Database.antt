-- ===== src/Database.antt =====
-- bingo/database: results, connectors, the pool of connectors, the configuration and the factory.
pub mod Result
pub mod Connector
pub mod Batch
pub mod Pool
pub mod Config
pub mod Factory
