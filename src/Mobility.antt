-- ===== src/Mobility.antt =====
-- internal/mobility
pub mod Key
pub mod Decimal
pub mod Resolver
pub mod Cached
pub mod Remembered
mod Tests
