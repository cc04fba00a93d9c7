-- ===== src/ControlLoop.antt =====
-- control/loop.py: the tick of the control loop, its plans, and what it does when a driver reports
-- that an arm has stopped.
pub mod State
pub mod Plans
pub mod Faults
pub mod Tick
pub mod Frames
pub mod Recovery
pub mod Consistent
pub mod Stopped
pub mod Holding
mod Tests
