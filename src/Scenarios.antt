-- ===== src/Scenarios.antt =====
-- Runs of the model on concrete data: the tests, and the examples that apply the theorems.
mod Pipeline
mod Storage
mod Discovery
mod Polls
mod Relay
mod Fetches
mod Cleanups
mod Websites
mod Changes
mod Texts
mod Pages
mod Paths
mod Reading
mod Policies
