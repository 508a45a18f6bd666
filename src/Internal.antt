-- ===== src/Internal.antt =====
-- internal/: the data and the pure functions that both card contexts share.
pub mod Errors
pub mod Types
pub mod Convert
pub mod Readers
pub mod Status
