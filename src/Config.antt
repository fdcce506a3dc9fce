-- ===== src/Config.antt =====
-- ai_lab/config/validation.py: the checks of a configuration before anything is started.
pub mod Rules
pub mod Validation
pub mod Apart
pub mod Entries
pub mod Sections
pub mod Sound
pub mod Cut
mod Examples
