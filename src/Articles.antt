-- ===== src/Articles.antt =====
-- The article pipeline: backend/src/newsintel/application/articles/processing.py over
-- backend/src/newsintel/infrastructure/db/article_processing_repository.py.
pub mod Types
pub mod Rows
pub mod Stages
pub mod Leases
pub mod Leasing
pub mod Persist
pub mod Versions
pub mod Success
pub mod World
pub mod Process
pub mod Keeps
pub mod Persisted
pub mod Failed
pub mod Settled
pub mod Outcome
pub mod Claimed
pub mod Contents
pub mod Recent
