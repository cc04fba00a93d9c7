-- ===== src/Lib.antt =====
-- Verification of the parts of the MAVIS runtime that decide who moves the arms and what becomes of
-- the data. The paths below are under src/apollo_mavis_v2_runtime.
--
-- The parts and their files. The operator's keys reach the arms through the input watchdog
-- (Watchdog: safety/watchdog.py). In a DAgger session the takeover gate (Takeover: dagger/gate.py)
-- says which arm the operator drives and which the policy drives. The trainer, a process of its
-- own, writes checkpoints into a directory (Checkpoints: dagger/trainer/checkpoints.py); the
-- reloader (Reloader: dagger/reloader.py) stages them and swaps them in between episodes, and goes
-- back to the last good one; the client (TrainerClient: dagger/client.py) keeps the trainer's
-- process, sends it episodes and rollbacks, and polls the directory. In an Online DAgger session
-- the coordinator (Coordinator: dagger/online_dagger.py) follows an outer trainer's status, opens
-- and closes the way for episodes, and keeps session.json.
-- The trainer's process (Trainer: dagger/trainer/trainer.py, sampling.py and control.py) takes the
-- labels of the episodes it is handed, trains in bursts, and writes the checkpoints that the
-- reloader of the runtime polls for.
-- The safety gate (SafetyGate: safety/gate.py) lets a command through to the arms, or holds them.
-- The supervisor (Supervisor: safety/supervisor.py) calls it once per tick and fails it closed.
-- The recorder's thread (RecorderThread: recorder/thread.py) writes the episodes; the idle-frame
-- filter (ActionFilter: recorder/action_filter.py) decides which of its captures reach the dataset.
-- A session that nobody can drive any more is ended by a watch (OrphanWatch: session/orphan.py).
-- The registry (Registry: dagger/registry.py) picks the checkpoint that a session starts with.
-- The control loop (ControlLoop: control/loop.py) takes in the drivers' faults, resolves a command
-- for each arm, passes it through the gate, and puts it into the slot that the arm's sender
-- (ArmSender: control/arm_sender.py) forwards to the driver.
-- While no session exists a reader (IdleReader: dora_bridge/idle_state.py) publishes the arms over
-- read-only connections, which it gives up before a session takes the arms.
-- Each video stream has an encoder (Encoder: streams/hub.py).
--
-- How the model corresponds. Each class is a record of its state (attributes keep their names, less
-- the leading underscore) and each method a function of the same name that returns the new state;
-- an attribute that only passes values to the outside (published events, messages sent,
-- documents to be written) is a field that grows. `init` is the constructor. `Call` lists what
-- may happen to an object, `step` is one call and `run` a sequence of them, in any order: a lock in
-- the source makes the methods atomic, so the sequences of calls are the threads' interleavings.
-- Dictionaries with text keys are association lists over numbers (Prelude.Dicts), in Python's
-- insertion order.
--
-- Numbers. Times and durations are natural numbers of one fine unit, so that a test such as
-- `now - t <= d` is written `now ≤ t + d`; the millisecond where a constant of the source occurs.
-- Identifiers and texts that are only compared are numbers. Other texts are lists of code points.
-- A factor that the source computes in floating point is an exact fraction. A failed assertion or
-- a ValueError is `none`; where a method that raises leaves a changed state behind, it gives the state
-- and whether it went on.
--
-- Fuel. Only the decimal printing of a version runs on fuel: one more than the number is enough,
-- since every step divides by ten. All other loops are structural recursion.
--
-- Outside the model: threads and their sleeping, sockets, processes, files other than the ones
-- named, and the loading of a policy's weights. What they answer is an argument of the operation
-- that asks (the readings of the clock, a reply, an exit status, whether a load succeeds). The
-- session manager, the devices, the drivers, the pose arithmetic and planning of the control loop,
-- the dataset writer and the dora bridge but for its idle reader are not modelled.
mod Prelude
pub mod Watchdog
pub mod SafetyGate
pub mod Supervisor
pub mod Takeover
pub mod ArmSender
pub mod Checkpoints
pub mod Registry
pub mod Reloader
pub mod Trainer
pub mod TrainerClient
pub mod ControlLoop
pub mod Coordinator
pub mod ActionFilter
pub mod Encoder
pub mod IdleReader
pub mod OrphanWatch
pub mod RecorderThread
