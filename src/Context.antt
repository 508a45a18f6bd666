-- ===== src/Context.antt =====
-- internal/keycard_context_v2.go: the session with one card.
pub mod Machine
pub mod Base
pub mod Commands
pub mod Data
pub mod Reset
pub mod Export
pub mod Life
pub mod Readers
pub mod Detect
pub mod Connect
pub mod Logic
pub mod Invariant
pub mod Authorization
pub mod Deadlock
pub mod Unplugged
pub mod Watch
