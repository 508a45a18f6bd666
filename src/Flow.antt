-- ===== src/Flow.antt =====
-- pkg/flow: the caller starts, resumes and cancels a flow; a goroutine runs it and pauses for the
-- user. Control and Races have the shared state alone, Session and Run what the goroutine does.
pub mod Values
pub mod Keys
pub mod Messages
pub mod Control
pub mod Session
pub mod Opening
pub mod Authentication
pub mod Changes
pub mod Exports
pub mod Metadata
pub mod Kinds
pub mod Flows
pub mod Run
pub mod Preservation
pub mod Races
pub mod Access
pub mod Blocked
pub mod Connecting
pub mod Paired
pub mod Renewal
pub mod Refinement
pub mod Termination
