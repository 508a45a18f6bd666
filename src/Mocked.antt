-- ===== src/Mocked.antt =====
-- pkg/flow/mocked and shared-mocked/main.go: a stand-in for the flows, for tests of a user
-- interface. It has cards of its own, which a call registers, and answers as a card would.
pub mod Cards
pub mod Machine
pub mod Credentials
pub mod Handlers
pub mod Changes
pub mod Exports
pub mod Accounts
pub mod Metadata
pub mod Storing
pub mod Running
pub mod Control
pub mod Library
pub mod Safety
pub mod Orders
pub mod Runs
pub mod Access
pub mod Attempts
pub mod Steps
pub mod Answers
pub mod Unfinished
pub mod Sharing
pub mod Wallets
pub mod Loading
pub mod Reading
