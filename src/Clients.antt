-- ===== src/Clients.antt =====
-- ai_lab/clients/: who may call AI-Lab, with a token or with a web session, and what is refused.
pub mod Text
pub mod Books
pub mod Security
pub mod Door
pub mod Access
pub mod Sessions
pub mod Guarded
pub mod Admitted
mod Examples
