-- ===== src/ControlLoop/State.antt =====
-- The state of the control loop, as far as plans, faults and the commands of a tick go. Arms and
-- texts are numbers; a posture is a list of joint values in units of 1e-9, the rail's the eighth.
use apollo_mavis_v2_runtime.ArmSender.{ArmSender}
use apollo_mavis_v2_runtime.Prelude.{
  ℕ, ◌+◌, ◌*◌, max, ℤ, pos, Bool, true, false, ◌&&◌, ◌||◌, List, [], ◌∷◌, ◌++◌, Option, ltb, leb,
  ◌==◌, if◌then◌else◌, any, dist,
}

abbrev pub Posture : Type 0
Posture = List ℤ

-- `np.allclose(a, b, atol=1e-9)`, with numpy's relative tolerance of 1e-5.
abbrev pub close : Posture → Posture → Bool
close [] [] = true
close (x ∷ xs) (y ∷ ys) = leb (100_000 * dist x y) (100_000 + dist y (pos 0)) && close xs ys
close _ _ = false

-- `np.array_equal(a, b)`
abbrev pub same : Posture → Posture → Bool
same [] [] = true
same (x ∷ xs) (y ∷ ys) = dist x y == 0 && same xs ys
same _ _ = false

pub data PlanState : Type 0 where
  planning executing failed : PlanState

pub data PlanStatus : Type 0 where
  is_planning is_executing is_done is_failed is_cancelled : PlanStatus

pub data FaultState : Type 0 where
  fault recovering : FaultState

-- Why a plan was cancelled.
pub data Reason : Type 0 where
  driver_fault movement_key browser_disconnected gate_hold arm_switch jog_input : Reason
  asked : ℕ → Reason

-- Waypoints, and the index of the one that the arm is heading for.
pub record Walk : Type 0 where
  pub waypoints : List Posture
  pub index : ℕ

pub record ControlLoop : Type 0 where
  pub session_arms : List ℕ
  pub active_arm : Option ℕ
  pub gripper_arms : List ℕ
  pub tick_count : ℕ
  pub last_cmd : List (ℕ × Posture)
  pub grip_frac : List (ℕ × ℕ)  -- thousandths
  pub senders : List (ℕ × ArmSender)
  pub plans : List (ℕ × Walk)
  pub plan_state : List (ℕ × PlanState)
  pub plan_clear_at : List (ℕ × ℕ)
  pub plan_status : Option PlanStatus
  pub plan_status_clear_at : Option ℕ
  pub plan_cancel_reason : Option Reason
  pub plan_interruptible : Bool
  pub plan_gripper_on_arrival : List (ℕ × ℕ)
  pub playback_gripper : List (ℕ × List ℕ)
  pub plan_arriving : List (ℕ × Posture)
  pub plan_gate_hold_since : Option ℕ
  pub replay : Option (List ℕ)  -- the arms that the running replay drives
  pub jog : List (ℕ × Posture)
  pub teleop_seeded : List ℕ
  pub has_tracker : Bool
  pub clutch_arm : Option ℕ
  pub controller_dropped : Bool
  pub faulted : List ℕ
  pub recovering_arms : List ℕ
  pub fault_text : List (ℕ × ℕ)
  pub warnings : List (ℕ × (ℕ × ℕ))
  pub fault_events : ℕ
  pub recoveries : ℕ
  pub fault_state_reported : Option FaultState
  pub reports : List (Option FaultState)  -- the calls of `on_fault_state`
  pub puts : List (ℕ × Posture)  -- what was put into the arms' slots
  pub gripper_puts : List (ℕ × ℕ)  -- the calls of the senders' `put_gripper`

-- Python's sets of arms.
abbrev pub is_in : ℕ → List ℕ → Bool
is_in a [] = false
is_in a (b ∷ bs) = a == b || is_in a bs

abbrev pub add : ℕ → List ℕ → List ℕ
add a s = if is_in a s then s else a ∷ s

abbrev pub discard : ℕ → List ℕ → List ℕ
discard a [] = []
discard a (b ∷ bs) = let rest = discard a bs in if a == b then rest else b ∷ rest

-- `HeldSources`: codes are numbers, and scales thousandths.
pub record HeldSources : Type 0 where
  pub ws : List ℕ
  pub ws_scale : ℕ
  pub device : List ℕ
  pub device_scale : ℕ

abbrev pub held : HeldSources → List ℕ
held s = s.ws ++ s.device

unfoldable pub scale_for : HeldSources → ℕ → ℕ
scale_for s code =
    max (if is_in code s.ws then s.ws_scale else 0)
      (if is_in code s.device then s.device_scale else 0)

unfoldable pub moving : HeldSources → (ℕ → Bool) → Bool
moving s codes = any (λ c. codes c && ltb 0 (scale_for s c)) (held s)
