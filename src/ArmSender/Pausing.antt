-- ===== src/ArmSender/Pausing.antt =====
-- What a pause stops.
use apollo_mavis_v2_runtime.ArmSender.{
  LatestSlot, Place, waiting, woken, passed, after_joints, grips, ended, command_joints,
  command_gripper, ArmSender, resume, start, stop, put_gripper, pause, thread_step, look, step_at,
}
use apollo_mavis_v2_runtime.Prelude.{
  ℕ, ◌+◌, ◌≤◌, ◌≡◌, refl, Bool, true, false, List, [], ◌∷◌, Option, none, some, arith, and-true,
  length-append, length, all,
}

-- What the other threads and the thread itself may do, in any order.
pub data Event : Type 0 where
  puts_gripper : ℕ → Event
  pauses resumes starts stops : Event
  steps : Option ℕ → Bool → Event

-- Any event but a resumption or a start of the thread.
abbrev pub keeps_pause : Event → Bool
keeps_pause resumes = false
keeps_pause starts = false
keeps_pause _ = true

module _ (slots : LatestSlot) where
  unfoldable pub event : ArmSender → Event → ArmSender
  event s (puts_gripper v) = put_gripper slots s v
  event s pauses = pause slots s
  event s resumes = resume s
  event s starts = start s
  event s stops = stop s
  event s (steps fresh ok) = thread_step slots s fresh ok

  unfoldable pub run : ArmSender → List Event → ArmSender
  run s [] = s
  run s (e ∷ es) = run (event s e) es

-- The calls of the driver that are under way.
abbrev pub under_way : Place → ℕ
under_way (passed (some q)) = 1
under_way (grips v) = 1
under_way _ = 0

-- A paused step: the calls made and the calls under way are no more than before.
abbrev IsDraining : ArmSender → ArmSender → Type 0
IsDraining s u =
    (u.paused ≡ true)
    × (length u.commands + under_way u.place ≤ length s.commands + under_way s.place)

module _ (slots : LatestSlot) where
  step-IsDraining :
      (s : ArmSender) (p : Place) (fresh : Option ℕ) (ok : Bool)
      → s.paused ≡ true
      → s.place ≡ p
      → IsDraining s (step_at slots s p fresh ok)
  step-IsDraining s waiting fresh ok paused at = ground (arith, at)
  step-IsDraining s (woken got) fresh ok paused at = ground (arith, at)
  step-IsDraining s (passed none) fresh ok paused at = (paused, omega arith)
  step-IsDraining s (passed (some q)) fresh ok paused at =
      ground (arith, at, length-append s.commands (command_joints q ∷ []))
  step-IsDraining s after_joints fresh ok paused at = blocked (slots.get s.grip_slot)
    where
      blocked : (o : Option ℕ) → IsDraining s (look s o)
      blocked none = (paused, omega arith)
      blocked (some v) = ground arith
  step-IsDraining s (grips v) fresh ok paused at =
      ground (arith, at, length-append s.commands (command_gripper v ∷ []))
  step-IsDraining s ended fresh ok paused at = (paused, omega arith)

  event-IsDraining :
      (s : ArmSender) (e : Event)
      → s.paused ≡ true
      → keeps_pause e ≡ true
      → IsDraining s (event slots s e)
  unfolding event put_gripper pause stop thread_step
  event-IsDraining s (puts_gripper v) paused keeps = (paused, omega arith)
  event-IsDraining s pauses paused keeps = (refl, omega arith)
  event-IsDraining s resumes paused keeps = cc
  event-IsDraining s starts paused keeps = cc
  event-IsDraining s stops paused keeps = (paused, omega arith)
  event-IsDraining s (steps fresh ok) paused keeps = step-IsDraining s s.place fresh ok paused refl

  -- From a paused sender, whatever else happens in whatever order short of a resumption or a new
  -- start of the thread, the driver gets at most the one call that was under way, and none where
  -- the thread had not yet passed its test of the pause; and the sender stays paused.
  pub run-paused :
      (s : ArmSender) (es : List Event)
      → s.paused ≡ true
      → all keeps_pause es ≡ true
      → ((run slots s es).paused ≡ true)
        × (length (run slots s es).commands ≤ length s.commands + under_way s.place)
  unfolding run
  run-paused s [] paused keeps = (paused, omega arith)
  run-paused s (e ∷ es) paused keeps =
      let kept = and-true (keeps_pause e) (all keeps_pause es) keeps in
      let first = event-IsDraining s e paused kept.0 in
      let later = run-paused (event slots s e) es first.0 kept.1 in
      (later.0, omega (arith, first.1, later.1))
