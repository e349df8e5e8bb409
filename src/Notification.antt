-- ===== src/Notification.antt =====
-- internal/notification
pub mod Window
pub mod Deliver
pub mod Push
pub mod Worker
pub mod Subscription
pub mod Consent
pub mod Once
mod Tests
