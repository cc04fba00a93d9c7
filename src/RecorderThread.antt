-- ===== src/RecorderThread.antt =====
-- recorder/thread.py: the thread that owns the episode being written.
-- The recorder, the audio sink, the cameras, the bus and the kinematics are outside: what they answer
-- is an argument, and what the thread asks of them or tells its hooks is the list `effects`.
-- Not modelled: the pacing of the loop, the joining of the thread, the arithmetic that turns two
-- captures into a frame, and the fields of the sidecar. An exception of a hook, of the audio sink or
-- of a discard is only logged in the source, so these calls have no answer here.
pub mod State
pub mod Requests
pub mod Iteration
pub mod Outcomes
pub mod Frames
mod Ends
pub mod Episodes
mod Tests
