-- ===== src/Platform.antt =====
-- What the services share: error values, the environment of a call, events and the database.
pub mod Result
pub mod Env
pub mod Event
pub mod Database
pub mod Outbox
