-- ===== src/Admission.antt =====
-- ai_lab/gateway/admission/ and the parts of ai_lab/gateway/ that decide who gets the card.
pub mod Parts
pub mod Planning
pub mod Scheduler
mod Counts
mod Rounds
mod Runs
mod Loop
pub mod Fairness
pub mod Capacity
pub mod System
pub mod Invariants
pub mod Told
pub mod Loads
pub mod Ascending
pub mod Arrival
pub mod Progress
mod Fresh
pub mod Ends
pub mod Settling
pub mod Stale
pub mod Traces
pub mod Account
pub mod Lease
pub mod Places
mod Examples
