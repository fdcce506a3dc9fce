-- ===== src/Providers.antt =====
-- ai_lab/providers/: the subscription models, each vendor behind its own gate.
pub mod Gate
pub mod Spacing
pub mod Failures
pub mod Pool
pub mod Retries
pub mod Usage
pub mod Counted
mod Examples
