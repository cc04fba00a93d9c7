-- ===== src/ControlLoop/Faults.antt =====
-- What the drivers report: FAULT, then RECOVERING from the re-seed on, then RUNNING again. The
-- wording of a report is a number, and the order in which recovered arms are released is not kept.
use apollo_mavis_v2_runtime.ArmSender.{LatestSlot, ArmSender, pause, resume}
use apollo_mavis_v2_runtime.ControlLoop.Plans.{
  has_entries, motion_active, cancel_plans, set_plan_status,
}
use apollo_mavis_v2_runtime.ControlLoop.State.{
  Posture, is_cancelled, driver_fault, ControlLoop, FaultState, fault, recovering, HeldSources,
  held, scale_for, is_in, add, discard,
}
use apollo_mavis_v2_runtime.Prelude.Dicts.{lookup, insert, remove}
use apollo_mavis_v2_runtime.Prelude.{
  ℕ, suc, ◌+◌, Bool, true, false, ◌&&◌, ◌||◌, List, [], ◌∷◌, ◌++◌, Option, none, some, ltb, leb,
  ◌==◌, if◌then◌else◌, any, is_some,
}

-- A re-seed has the measured posture and gripper opening, where the driver can be read.
pub data DriverEvent : Type 0 where
  fault_event : ℕ → ℕ → DriverEvent  -- arm and text
  recovered_event : ℕ → Option (Posture × ℕ) → DriverEvent  -- also `ReseedEvent`
  studio_warning : ℕ → ℕ → DriverEvent
  other_event : DriverEvent

abbrev pub studio_warning_linger : ℕ
studio_warning_linger = 5000

unfoldable pub arm_stopped : ControlLoop → ℕ → Bool → Bool
arm_stopped l arm has_error = has_error || is_in arm l.faulted || is_in arm l.recovering_arms

unfoldable pub fault_state : ControlLoop → Option FaultState
fault_state l = go l.faulted l.recovering_arms
  where
    go : List ℕ → List ℕ → Option FaultState
    go (a ∷ others) rs = some fault
    go [] (r ∷ rs) = some recovering
    go [] [] = none

-- What a call of the arm's sender leaves of the senders.
abbrev pub on_sender : (ArmSender → ArmSender) → ℕ → List (ℕ × ArmSender) → List (ℕ × ArmSender)
on_sender f arm [] = []
on_sender f arm ((a, s) ∷ rest) = (a, if a == arm then f s else s) ∷ on_sender f arm rest

abbrev pub drop_plan : ControlLoop → ℕ → ControlLoop
drop_plan l arm =
    let dropped = record l {
      plans = remove arm l.plans;
      plan_state = remove arm l.plan_state;
      plan_clear_at = remove arm l.plan_clear_at;
      plan_cancel_reason = some driver_fault;
    } in
    if has_entries dropped.plans then dropped else set_plan_status dropped is_cancelled true

unfoldable pub stop_motion : ControlLoop → ℕ → ControlLoop
stop_motion l arm =
    if l.plan_interruptible && motion_active l
    then cancel_plans l driver_fault
    else if is_some (lookup arm l.plans) || is_some (lookup arm l.plan_state)
    then drop_plan l arm
    else l

abbrev pub is_active : Option ℕ → ℕ → Bool
is_active none arm = false
is_active (some active) arm = active == arm

abbrev pub release_tracker : ControlLoop → ℕ → ControlLoop
release_tracker l arm =
    if l.has_tracker && is_active l.active_arm arm then record l { clutch_arm = none } else l

module _ (slots : LatestSlot) where
  unfoldable pub on_fault_event : ControlLoop → ℕ → ℕ → ControlLoop
  on_fault_event l arm text =
      let stopped =
        stop_motion
          (record l {
            fault_text = insert arm text l.fault_text;
            faulted = add arm l.faulted;
            recovering_arms = discard arm l.recovering_arms;
            warnings = remove arm l.warnings;
            fault_events = suc l.fault_events;
            senders = on_sender (pause slots) arm l.senders;
          })
          arm in
      release_tracker
        (record stopped {
          jog = remove arm stopped.jog;
          teleop_seeded = discard arm stopped.teleop_seeded;
        })
        arm

  abbrev pub back : ControlLoop → ℕ → ControlLoop
  back l arm = record l {
    faulted = discard arm l.faulted;
    recovering_arms = add arm l.recovering_arms;
    senders = on_sender resume arm l.senders;
  }

  -- `reseed_arm`; the resets of the solver and of the safety gate are theirs.
  abbrev pub reseed_arm : ControlLoop → ℕ → Posture × ℕ → ControlLoop
  reseed_arm l arm (q, frac) = record l {
    last_cmd = insert arm q l.last_cmd;
    grip_frac = if is_in arm l.gripper_arms then insert arm frac l.grip_frac else l.grip_frac;
    teleop_seeded = discard arm l.teleop_seeded;
  }

  abbrev pub reseed_once : ControlLoop → ℕ → Option (Posture × ℕ) → List ℕ → ControlLoop × List ℕ
  reseed_once l arm none reseeded = (l, reseeded)
  reseed_once l arm (some q) reseeded =
      (back (record (reseed_arm l arm q) { recoveries = suc l.recoveries }) arm, add arm reseeded)

  unfoldable pub on_recovered_event :
      ControlLoop → ℕ → Option (Posture × ℕ) → List ℕ → ControlLoop × List ℕ
  on_recovered_event l arm measured reseeded =
      if is_in arm reseeded then (back l arm, reseeded) else reseed_once l arm measured reseeded

  abbrev pub warn : ControlLoop → ℕ → ℕ → ℕ → ControlLoop
  warn l arm text now = record l {
    warnings = insert arm (text, now + studio_warning_linger) l.warnings;
  }

  unfoldable pub on_event : ControlLoop → ℕ → DriverEvent → List ℕ → ControlLoop × List ℕ
  on_event l now (fault_event arm text) reseeded =
      (if is_in arm l.session_arms then on_fault_event l arm text else l, reseeded)
  on_event l now (recovered_event arm measured) reseeded =
      if is_in arm l.session_arms then on_recovered_event l arm measured reseeded else (l, reseeded)
  on_event l now (studio_warning arm text) reseeded =
      (if is_in arm l.session_arms then warn l arm text now else l, reseeded)
  on_event l now other_event reseeded = (l, reseeded)

  unfoldable pub on_events : ControlLoop → ℕ → List DriverEvent → List ℕ → ControlLoop
  on_events l now [] reseeded = l
  on_events l now (ev ∷ evs) reseeded =
      let (u, seeded) = on_event l now ev reseeded in on_events u now evs seeded

  -- No event where `drain_events` raises.
  abbrev pub drain_driver_events : ControlLoop → ℕ → List DriverEvent → ControlLoop
  drain_driver_events l now evs = on_events l now evs []

abbrev pub is_live : HeldSources → Bool
is_live s = any (λ c. ltb 0 (scale_for s c)) (held s)

abbrev pub forget_texts : List ℕ → List (ℕ × ℕ) → List (ℕ × ℕ)
forget_texts [] d = d
forget_texts (a ∷ arms) d = forget_texts arms (remove a d)

unfoldable pub update_recovering : ControlLoop → HeldSources → ControlLoop
update_recovering l sources =
    if is_live sources
    then l
    else record l { recovering_arms = []; fault_text = forget_texts l.recovering_arms l.fault_text }

abbrev pub same_state : Option FaultState → Option FaultState → Bool
same_state none none = true
same_state (some fault) (some fault) = true
same_state (some recovering) (some recovering) = true
same_state _ _ = false

unfoldable pub publish_fault_state : ControlLoop → ControlLoop
publish_fault_state l = if same_state (fault_state l) l.fault_state_reported then l else record l {
  fault_state_reported = fault_state l;
  reports = l.reports ++ fault_state l ∷ [];
}

-- `_arm_fault_details`: the warnings that still linger, and the text of each arm.
unfoldable pub unexpired : ℕ → List (ℕ × (ℕ × ℕ)) → List (ℕ × (ℕ × ℕ))
unexpired now [] = []
unexpired now ((arm, w) ∷ ws) =
    let rest = unexpired now ws in if leb w.1 now then rest else (arm, w) ∷ rest

abbrev pub with_warnings : List (ℕ × ℕ) → List (ℕ × (ℕ × ℕ)) → List (ℕ × ℕ)
with_warnings out [] = out
with_warnings out ((arm, w) ∷ ws) =
    with_warnings (if is_some (lookup arm out) then out else insert arm w.0 out) ws

unfoldable pub arm_fault_details : ControlLoop → ℕ → ControlLoop × List (ℕ × ℕ)
arm_fault_details l now =
    let left = unexpired now l.warnings in
    (record l { warnings = left }, with_warnings l.fault_text left)
