-- ===== src/Tests.antt =====
-- Runs of the code on a small card and a small file system.
pub mod World
mod Sessions
mod Values
mod Files
mod Flows
mod Requests
mod Runs
mod Libraries
mod Mocks
mod Servers
