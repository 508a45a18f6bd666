-- ===== src/Service.antt =====
-- pkg/session/service.go: the RPC service, which owns at most one card context.
pub mod Validation
pub mod Requests
pub mod Handlers
pub mod Safety
pub mod Soundness
pub mod Lengths
