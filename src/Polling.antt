-- ===== src/Polling.antt =====
-- Polling of channels: backend/src/newsintel/application/acquisition/polling.py over
-- backend/src/newsintel/infrastructure/db/polling_repository.py.
pub mod Interval
pub mod Channels
pub mod Leasing
pub mod Payload
pub mod Limits
pub mod Admitted
pub mod Service
pub mod Poll
pub mod Outcome
