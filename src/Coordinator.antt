-- ===== src/Coordinator.antt =====
-- dagger/online_dagger.py: the rollout-level state of an Online DAgger session.
-- Ids and times are numbers, texts are lists of code points. What the source composes into one
-- message is a value here (`Refusal`, `Detail`). A method takes the readings of the two clocks
-- that it makes, `now` (monotonic) and `wall`. The injected `publish` and `write_session` only take
-- what they are given: `published` and `handed`. The worker that writes the file is `Writer`.
pub mod State
pub mod Trainer
pub mod Episodes
pub mod Writer
mod Rules
pub mod Invariant
pub mod Gatekeeping
pub mod Resume
pub mod Announced
mod Tests
