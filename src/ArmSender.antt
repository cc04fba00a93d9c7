-- ===== src/ArmSender.antt =====
-- control/arm_sender.py: the thread that hands an arm's newest target to the driver, as the steps
-- that it takes between two looks at shared state. The slots are the core library's: a slot is a
-- number, and the record `LatestSlot` says what `put` and `get` do with it. Targets are numbers.
pub mod Pausing
mod Tests
use apollo_mavis_v2_runtime.Prelude.{
  ℕ, suc, Bool, true, false, not, ◌&&◌, List, [], ◌∷◌, ◌++◌, Option, none, some, ◌==◌,
  if◌then◌else◌,
}

pub record LatestSlot : Type 0 where
  pub put : ℕ → ℕ → ℕ
  pub get : ℕ → Option ℕ

-- Where the thread is: in `wait_fresh`, back from it, past the test of the pause, done with the
-- joints, or about to command the gripper.
pub data Place : Type 0 where
  waiting : Place
  woken : Option ℕ → Place
  passed : Option ℕ → Place
  after_joints : Place
  grips : ℕ → Place
  ended : Place

pub data Command : Type 0 where
  command_joints : ℕ → Command
  command_gripper : ℕ → Command

pub record ArmSender : Type 0 where
  pub grip_slot : ℕ
  pub last_grip : Option ℕ
  pub running : Bool
  pub paused : Bool
  pub error_count : ℕ
  pub sent_count : ℕ
  pub place : Place
  pub commands : List Command  -- the calls of the driver

unfoldable pub init : ℕ → ArmSender
init slot = record {
  grip_slot = slot;
  last_grip = none;
  running = false;
  paused = false;
  error_count = 0;
  sent_count = 0;
  place = ended;
  commands = [];
}

unfoldable pub resume : ArmSender → ArmSender
resume s = record s { paused = false }

unfoldable pub start : ArmSender → ArmSender
start s = if s.running then s else record s { running = true; place = waiting }

unfoldable pub stop : ArmSender → ArmSender
stop s = record s { running = false }

abbrev pub calls : ArmSender → Command → ArmSender
calls s c = record s { commands = s.commands ++ c ∷ [] }

-- `command_joints` returned, or raised.
abbrev count : ArmSender → Bool → ArmSender
count s ok =
    if ok
    then record s { sent_count = suc s.sent_count }
    else record s { error_count = suc s.error_count }

abbrev pub forward : ArmSender → Option ℕ → Bool → ArmSender
forward s none ok = record s { place = after_joints }
forward s (some q) ok = record (count (calls s (command_joints q)) ok) { place = after_joints }

abbrev is_value : ℕ → Option ℕ → Bool
is_value v none = false
is_value v (some w) = v == w

abbrev pub look : ArmSender → Option ℕ → ArmSender
look s none = record s { place = waiting }
look s (some v) =
    if not (is_value v s.last_grip) && not s.paused
    then record s { last_grip = some v; place = grips v }
    else record s { place = waiting }

abbrev keep_or_take : Option ℕ → Option ℕ → Option ℕ
keep_or_take old none = old
keep_or_take old (some v) = some v

module _ (slots : LatestSlot) where
  unfoldable pub put_gripper : ArmSender → ℕ → ArmSender
  put_gripper s open_frac = record s { grip_slot = slots.put s.grip_slot open_frac }

  -- The gripper's pending target counts as dispatched.
  unfoldable pub pause : ArmSender → ArmSender
  pause s = record s { paused = true; last_grip = keep_or_take s.last_grip (slots.get s.grip_slot) }

  -- One step of `_run`: `fresh` is what `wait_fresh` returns, `ok` whether the driver's call does.
  abbrev pub step_at : ArmSender → Place → Option ℕ → Bool → ArmSender
  step_at s waiting fresh ok =
      if s.running then record s { place = woken fresh } else record s { place = ended }
  step_at s (woken got) fresh ok =
      if s.paused then record s { place = waiting } else record s { place = passed got }
  step_at s (passed got) fresh ok = forward s got ok
  step_at s after_joints fresh ok = look s (slots.get s.grip_slot)
  step_at s (grips v) fresh ok = record (calls s (command_gripper v)) { place = waiting }
  step_at s ended fresh ok = s

  unfoldable pub thread_step : ArmSender → Option ℕ → Bool → ArmSender
  thread_step s fresh ok = step_at s s.place fresh ok
