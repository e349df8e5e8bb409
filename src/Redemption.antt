-- ===== src/Redemption.antt =====
-- internal/redemption/service.go
pub mod Rows
pub mod Standing
pub mod Create
pub mod Effect
pub mod Outcome
pub mod Available
pub mod Recommended
pub mod Idempotency
pub mod Ledger
pub mod Stock
pub mod Verify
pub mod Verified
pub mod Sequence
pub mod Abstract
pub mod Responds
mod Tests
