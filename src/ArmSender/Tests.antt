-- ===== src/ArmSender/Tests.antt =====
-- A sender that is paused with a call under way, and the theorems there.
use apollo_mavis_v2_runtime.ArmSender.{
  LatestSlot, waiting, passed, command_joints, ArmSender, init, resume, put_gripper, pause,
  thread_step,
}
use apollo_mavis_v2_runtime.ArmSender.Pausing.{
  Event, puts_gripper, pauses, resumes, steps, event, run, under_way, run-paused,
}
use apollo_mavis_v2_runtime.Prelude.{
  ℕ, zero, suc, ◌+◌, ◌≤◌, ◌≡◌, refl, true, false, List, [], ◌∷◌, Option, none, some, length,
}

abbrev got : ℕ → Option ℕ
got zero = none
got (suc v) = some v

abbrev slots : LatestSlot
slots = record { put = λ s v. suc v; get = got }

-- A target passed the test of the pause before the fault; a gripper target waits.
abbrev faulted : ArmSender
faulted = record (init 0) {
  grip_slot = 6;
  last_grip = some 2;
  running = true;
  paused = true;
  place = passed (some 70);
}

abbrev drains : List Event
drains =
    steps none true
    ∷ steps none true
    ∷ puts_gripper 8
    ∷ steps (some 71) true
    ∷ steps none true
    ∷ pauses
    ∷ steps (some 72) false
    ∷ []

run-drains : (run slots faulted drains).commands ≡ command_joints 70 ∷ []
unfolding run event put_gripper pause thread_step init
run-drains = refl

-- The gripper's target at the pause is never sent, and the same target put afresh is not either.
abbrev resumed : List Event
resumed =
    pauses
    ∷ resumes
    ∷ puts_gripper 5
    ∷ steps none true
    ∷ steps none true
    ∷ steps none true
    ∷ steps none true
    ∷ steps none true
    ∷ []

run-resumed : (run slots (record faulted { place = waiting }) resumed).commands ≡ []
unfolding run event put_gripper pause resume thread_step init
run-resumed = refl

run-paused_example :
    ((run slots faulted drains).paused ≡ true)
    × (length (run slots faulted drains).commands
        ≤ length faulted.commands + under_way faulted.place)
run-paused_example = run-paused slots faulted drains refl refl
