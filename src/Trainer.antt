-- ===== src/Trainer.antt =====
-- dagger/trainer: the process that fine-tunes the policy on the episodes it is handed.
pub mod Sampling
pub mod Batches
pub mod Control
pub mod Tuning
pub mod Main
pub mod Bursts
pub mod Labels
pub mod Steps
pub mod Invariant
pub mod Turns
pub mod Published
pub mod Handover
mod Tests
