-- ===== src/Recommendation.antt =====
-- internal/recommendation
pub mod Feedback
pub mod Rules
pub mod Eligible
pub mod Copy
pub mod Choice
pub mod Recommend
pub mod Stored
pub mod Consumer
pub mod Order
pub mod Offers
pub mod Outcome
pub mod Best
pub mod Promised
pub mod Offered
pub mod Sample
mod Tests
