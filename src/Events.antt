-- ===== src/Events.antt =====
-- Which event an article belongs to: backend/src/newsintel/domain/events.
pub mod Assignment
pub mod Decision
pub mod Terms
pub mod Matching
pub mod Similarity
