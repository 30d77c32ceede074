-- ===== src/Acquisition.antt =====
-- Publishers, channels and the frontier: backend/src/newsintel/application/acquisition/service.py over
-- backend/src/newsintel/infrastructure/db/acquisition_repositories.py, with the models and policies of
-- backend/src/newsintel/domain/acquisition.
pub mod Frontier
pub mod Rows
pub mod Service
pub mod Observation
pub mod Known
pub mod Repeats
pub mod Channels
pub mod Counted
