-- ===== src/ControlLoop/Frames.antt =====
-- What plans and sources leave alone: which arms are stopped, their senders, and what was put.
use apollo_mavis_v2_runtime.ArmSender.{ArmSender}
use apollo_mavis_v2_runtime.ControlLoop.Plans.{
  Decision, motion_active, cancel_plans, interrupt_plan_for, set_plan_status, clear_replay,
  drop_replay, has_entries, finish_plan, confirm_arrival, confirm_all, arrives, arrive_at,
  is_executing_state, plan_gate_watch, all_held, motion_arms, since, expire_plan_status,
  expire_states, expired, expire_one, fail_plan, apply_gripper_target, apply_some, apply_all,
  arrived, all_arrived, expire_shown, is_failed_state,
}
use apollo_mavis_v2_runtime.ControlLoop.State.{
  Posture, Walk, ControlLoop, Reason, gate_hold, movement_key, browser_disconnected, held, moving,
  is_in,
}
use apollo_mavis_v2_runtime.ControlLoop.Tick.{
  Tick, resolve_arm, resolve_arms, by_source, plan_step, head_for, walked, follow, advance, jogged,
  drives, is_active, note_other_source, cancel_for_input, finish_replay,
}
use apollo_mavis_v2_runtime.ControlLoop.Faults.{arm_stopped}
use apollo_mavis_v2_runtime.Prelude.Dicts.{lookup, remove}
use apollo_mavis_v2_runtime.Prelude.{
  ℕ, ◌+◌, ◌≡◌, refl, ◌∙◌, Bool, true, false, not, ◌&&◌, ◌||◌, List, [], ◌∷◌, Option, none, some,
  ltb, leb, any, or_else, get_elem?, if-either,
}

-- The part of the state that only driver events, releases and the dispatch write.
pub record Core : Type 0 where
  pub faulted : List ℕ
  pub recovering : List ℕ
  pub senders : List (ℕ × ArmSender)
  pub texts : List (ℕ × ℕ)
  pub puts : List (ℕ × Posture)
  pub arms : List ℕ
  pub last_cmd : List (ℕ × Posture)

abbrev pub core : ControlLoop → Core
core l = record {
  faulted = l.faulted;
  recovering = l.recovering_arms;
  senders = l.senders;
  texts = l.fault_text;
  puts = l.puts;
  arms = l.session_arms;
  last_cmd = l.last_cmd;
}

clear_replay-core : (l : ControlLoop) → core (clear_replay l) ≡ core l
unfolding clear_replay
clear_replay-core l = go l.replay
  where
    go : (o : Option (List ℕ)) → core (drop_replay l o) ≡ core l
    go none = refl
    go (some driven) = refl

pub cancel_plans-core : (l : ControlLoop) (r : Reason) → core (cancel_plans l r) ≡ core l
unfolding cancel_plans set_plan_status
cancel_plans-core l r = clear_replay-core _

pub interrupt-core : (l : ControlLoop) (r : Reason) → core (interrupt_plan_for l r) ≡ core l
unfolding interrupt_plan_for
interrupt-core l r =
    if-either (λ u. core u ≡ core l) (l.plan_interruptible && motion_active l) (cancel_plans l r) l
      (cancel_plans-core l r) refl

pub cancel_for_input-core : (i : Tick) (l : ControlLoop) → core (cancel_for_input i l) ≡ core l
cancel_for_input-core i l =
    if-either (λ u. core u ≡ core l) (not (motion_active l)) l _ refl
      (if-either (λ u. core u ≡ core l) (moving i.sources i.held_codes) _ _
        (cancel_plans-core l movement_key)
        (if-either (λ u. core u ≡ core l)
          (l.plan_interruptible && any i.held_codes (held i.sources)) _ _
          (cancel_plans-core l movement_key)
          (if-either (λ u. core u ≡ core l) l.controller_dropped _ l
            (interrupt-core l browser_disconnected) refl)))

pub apply_gripper_target-core :
    (l : ControlLoop) (arm frac : ℕ) → core (apply_gripper_target l arm frac) ≡ core l
unfolding apply_gripper_target
apply_gripper_target-core l arm frac =
    if-either (λ u. core u ≡ core l) (not (is_in arm l.gripper_arms)) l _ refl refl

apply_some-core : (l : ControlLoop) (arm : ℕ) (o : Option ℕ) → core (apply_some l arm o) ≡ core l
apply_some-core l arm none = refl
apply_some-core l arm (some frac) = apply_gripper_target-core l arm frac

apply_all-core : (ds : List (ℕ × ℕ)) (l : ControlLoop) → core (apply_all ds l) ≡ core l
unfolding apply_all
apply_all-core [] l = refl
apply_all-core ((arm, frac) ∷ rest) l =
    apply_all-core rest (apply_gripper_target l arm frac) ∙ apply_gripper_target-core l arm frac

arrived-core : (l : ControlLoop) (arm : ℕ) → core (arrived l arm) ≡ core l
unfolding arrived
arrived-core l arm = apply_some-core _ arm (lookup arm l.plan_gripper_on_arrival)

all_arrived-core : (l : ControlLoop) → core (all_arrived l) ≡ core l
unfolding all_arrived set_plan_status
all_arrived-core l = apply_all-core l.plan_gripper_on_arrival l

finish_plan-core : (l : ControlLoop) (arm : ℕ) (ok : Bool) → core (finish_plan l arm ok) ≡ core l
unfolding finish_plan fail_plan set_plan_status
finish_plan-core l arm false = refl
finish_plan-core l arm true =
    let gone = arrived l arm in
    if-either (λ u. core u ≡ core l) (has_entries gone.plans) gone (all_arrived gone)
      (arrived-core l arm) (all_arrived-core gone ∙ arrived-core l arm)

confirm_arrival-core :
    (travel : ℕ) (l : ControlLoop) (dec : Decision) (arm : ℕ) (goal : Posture)
    → core (confirm_arrival travel l dec arm goal) ≡ core l
unfolding confirm_arrival
confirm_arrival-core travel l dec arm goal =
    if-either (λ u. core u ≡ core l) (is_executing_state (lookup arm l.plan_state)) _ _
      (go (lookup arm dec.q_out)) refl
  where
    parked : ControlLoop
    parked = record l { plan_arriving = remove arm l.plan_arriving }

    go : (o : Option Posture) → core (arrive_at travel parked dec arm goal o) ≡ core l
    go none = refl
    go (some q) =
        if-either (λ u. core u ≡ core l) (arrives travel parked dec arm goal q) _ _
          (finish_plan-core parked arm true) refl

pub confirm_all-core :
    (travel : ℕ) (l : ControlLoop) (dec : Decision) (goals : List (ℕ × Posture))
    → core (confirm_all travel l dec goals) ≡ core l
unfolding confirm_all
confirm_all-core travel l dec [] = refl
confirm_all-core travel l dec ((arm, goal) ∷ rest) =
    confirm_all-core travel (confirm_arrival travel l dec arm goal) dec rest
    ∙ confirm_arrival-core travel l dec arm goal

pub plan_gate_watch-core :
    (hold : ℕ) (l : ControlLoop) (dec : Decision) (now : ℕ)
    → core (plan_gate_watch hold l dec now) ≡ core l
unfolding plan_gate_watch
plan_gate_watch-core hold l dec now =
    if-either (λ u. core u ≡ core l) (not dec.blocked || not (all_held l dec (motion_arms l))) _ _
      refl
      (if-either (λ u. core u ≡ core l) (ltb now (since l.plan_gate_hold_since now + hold)) _ _ refl
        (cancel_plans-core _ gate_hold))

pub finish_replay-core : (l : ControlLoop) → core (finish_replay l) ≡ core l
unfolding set_plan_status
finish_replay-core l = clear_replay-core l

expire_one-core : (l : ControlLoop) (arm at : ℕ) → core (expire_one l arm at) ≡ core l
unfolding expire_one
expire_one-core l arm at =
    if-either (λ u. core u ≡ core l) (not (leb at l.tick_count)) l _ refl
      (if-either (λ u. core u ≡ core l) (is_failed_state (lookup arm l.plan_state)) _ _ refl refl)

expire_states-core : (ds : List (ℕ × ℕ)) (l : ControlLoop) → core (expire_states l ds) ≡ core l
unfolding expire_states
expire_states-core [] l = refl
expire_states-core ((arm, at) ∷ rest) l =
    expire_states-core rest (expire_one l arm at) ∙ expire_one-core l arm at

expire_shown-core : (l : ControlLoop) → core (expire_shown l) ≡ core l
unfolding expire_shown
expire_shown-core l =
    if-either (λ u. core u ≡ core l) (expired l.plan_status_clear_at l.tick_count)
      (record l { plan_status = none; plan_status_clear_at = none }) l refl refl

pub expire_plan_status-core : (l : ControlLoop) → core (expire_plan_status l) ≡ core l
unfolding expire_plan_status
expire_plan_status-core l =
    expire_states-core (expire_shown l).plan_clear_at (expire_shown l) ∙ expire_shown-core l

walked-core :
    (l : ControlLoop) (arm : ℕ) (r : Posture × Option Walk) → core (walked l arm r).0 ≡ core l
walked-core l arm (q, none) = refl
walked-core l arm (q, some v) = refl

head_for-core :
    (i : Tick) (l : ControlLoop) (arm : ℕ) (w : Walk) (q_last : Posture) (o : Option Posture)
    → core (head_for i l arm w q_last o).0 ≡ core l
head_for-core i l arm w q_last none = refl
head_for-core i l arm w q_last (some target) = walked-core l arm (advance i w q_last target)

follow-core :
    (l : ControlLoop) (arm index : ℕ) (o : Option (List ℕ)) → core (follow l arm index o) ≡ core l
follow-core l arm index none = refl
follow-core l arm index (some track) = apply_some-core l arm (get_elem? track index)

plan_step-core :
    (i : Tick) (l : ControlLoop) (arm : ℕ) (w : Walk) (q_last : Posture)
    → core (plan_step i l arm w q_last).0 ≡ core l
unfolding plan_step
plan_step-core i l arm w q_last =
    let noted = note_other_source l arm in
    let u = follow noted arm w.index (lookup arm l.playback_gripper) in
    head_for-core i u arm w q_last (get_elem? w.waypoints w.index)
    ∙ follow-core noted arm w.index (lookup arm l.playback_gripper)

by_source-core :
    (i : Tick) (l : ControlLoop) (arm : ℕ) (q_last : Posture) (w : Option Walk)
    (target : Option Posture)
    → core (by_source i l arm q_last w target).0 ≡ core l
by_source-core i l arm q_last (some w) target = plan_step-core i l arm w q_last
by_source-core i l arm q_last none (some target) =
    if-either {A = ControlLoop × Option Posture} (λ r. core r.0 ≡ core l) (drives l.replay arm) _ _
      refl (went (i.jog_step q_last target))
  where
    went : (r : Option Posture × Bool) → core (jogged (note_other_source l arm) arm r).0 ≡ core l
    went (q, true) = refl
    went (q, false) = refl
by_source-core i l arm q_last none none =
    if-either {A = ControlLoop × Option Posture} (λ r. core r.0 ≡ core l) (drives l.replay arm) _ _
      refl
      (if-either {A = ControlLoop × Option Posture} (λ r. core r.0 ≡ core l)
        (is_active l.active_arm arm) _ _ refl refl)

pub resolve_arm-core :
    (i : Tick) (l : ControlLoop) (arm : ℕ) (q_last : Posture)
    → core (resolve_arm i l arm q_last).0 ≡ core l
unfolding resolve_arm
resolve_arm-core i l arm q_last =
    if-either {A = ControlLoop × Option Posture} (λ r. core r.0 ≡ core l)
      (i.stalled || arm_stopped l arm (i.has_error arm)) _ _ refl
      (by_source-core i l arm q_last (lookup arm l.plans) (lookup arm l.jog))

pub resolve_arms-core :
    (i : Tick) (arms : List ℕ) (l : ControlLoop) → core (resolve_arms i l arms).0 ≡ core l
unfolding resolve_arms
resolve_arms-core i [] l = refl
resolve_arms-core i (arm ∷ arms) l =
    let q_last = or_else (lookup arm l.last_cmd) [] in
    resolve_arms-core i arms (resolve_arm i l arm q_last).0 ∙ resolve_arm-core i l arm q_last
