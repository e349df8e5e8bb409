-- ===== src/Journey.antt =====
-- internal/journey/service.go
pub mod Entry
pub mod Feedback
pub mod Latest
pub mod Dismissed
pub mod Retry
pub mod Heeded
mod Tests
