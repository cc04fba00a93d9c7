-- ===== src/ControlLoop/Plans.antt =====
-- The life of a plan: loading, walking, arriving, being held by the gate, and being cancelled. An
-- opening of a gripper is a number of thousandths, which is never negative.
use apollo_mavis_v2_runtime.ControlLoop.State.{
  Posture, close, same, PlanState, planning, executing, failed, PlanStatus, is_executing, is_done,
  is_failed, is_cancelled, Reason, gate_hold, asked, ControlLoop, is_in,
}
use apollo_mavis_v2_runtime.Prelude.Dicts.{lookup, insert, remove, keys}
use apollo_mavis_v2_runtime.Prelude.{
  ℕ, ◌+◌, ℤ, pos, negsuc, dist, leb_int, Bool, true, false, not, ◌&&◌, ◌||◌, List, [], ◌∷◌, ◌++◌,
  Option, none, some, ltb, leb, if◌then◌else◌, get_elem?, is_some, take, min,
}

abbrev pub has_entries {ℓ} : {V : Type ℓ} → List (ℕ × V) → Bool
has_entries [] = false
has_entries (e ∷ es) = true

abbrev pub plan_status_linger_ticks : ℕ
plan_status_linger_ticks = 100

unfoldable pub set_plan_status : ControlLoop → PlanStatus → Bool → ControlLoop
set_plan_status l status linger = record l {
  plan_status = some status;
  plan_status_clear_at = if linger then some (l.tick_count + plan_status_linger_ticks) else none;
}

unfoldable pub motion_active : ControlLoop → Bool
motion_active l = has_entries l.plans || is_some l.replay

abbrev pub forget_states : List ℕ → List (ℕ × PlanState) → List (ℕ × PlanState)
forget_states [] d = d
forget_states (a ∷ arms) d = forget_states arms (remove a d)

abbrev pub drop_replay : ControlLoop → Option (List ℕ) → ControlLoop
drop_replay l none = l
drop_replay l (some driven) = record l {
  replay = none;
  plan_state = forget_states driven l.plan_state;
}

unfoldable pub clear_replay : ControlLoop → ControlLoop
clear_replay l = drop_replay l l.replay

unfoldable pub cancel_plans : ControlLoop → Reason → ControlLoop
cancel_plans l reason =
    let cancelled = record l {
      plan_state = forget_states (keys l.plans) l.plan_state;
      plans = [];
    } in
    record (set_plan_status (clear_replay cancelled) is_cancelled true) {
      plan_cancel_reason = some reason;
      plan_interruptible = false;
      plan_gripper_on_arrival = [];
      playback_gripper = [];
      plan_arriving = [];
      plan_gate_hold_since = none;
    }

unfoldable pub interrupt_plan_for : ControlLoop → Reason → ControlLoop
interrupt_plan_for l reason =
    if l.plan_interruptible && motion_active l then cancel_plans l reason else l

unfoldable pub op_cancel_plan : ControlLoop → ℕ → ControlLoop
op_cancel_plan l reason = if motion_active l then cancel_plans l (asked reason) else l

-- `PlanExecutor.load`
abbrev pub load : ControlLoop → ℕ → List Posture → ControlLoop
load l arm waypoints = record l {
  plans = insert arm (record { waypoints = waypoints; index = 0 }) l.plans;
}

abbrev pub has_sender : ControlLoop → ℕ → Bool
has_sender l arm = is_some (lookup arm l.senders)

-- `_apply_gripper_target`
unfoldable pub apply_gripper_target : ControlLoop → ℕ → ℕ → ControlLoop
apply_gripper_target l arm frac = if not (is_in arm l.gripper_arms) then l else record l {
  grip_frac = insert arm (min frac 1000) l.grip_frac;
  gripper_puts =
      if has_sender l arm then l.gripper_puts ++ (arm, min frac 1000) ∷ [] else l.gripper_puts;
}

abbrev pub apply_some : ControlLoop → ℕ → Option ℕ → ControlLoop
apply_some l arm none = l
apply_some l arm (some frac) = apply_gripper_target l arm frac

unfoldable pub apply_all : List (ℕ × ℕ) → ControlLoop → ControlLoop
apply_all [] l = l
apply_all ((arm, frac) ∷ rest) l = apply_all rest (apply_gripper_target l arm frac)

-- The arm has arrived: its own deferred opening is applied.
unfoldable pub arrived : ControlLoop → ℕ → ControlLoop
arrived l arm =
    apply_some
      (record l {
        plan_state = remove arm l.plan_state;
        plan_clear_at = remove arm l.plan_clear_at;
        plan_gripper_on_arrival = remove arm l.plan_gripper_on_arrival;
      })
      arm (lookup arm l.plan_gripper_on_arrival)

-- No arm walks any more: the other deferred openings are applied, and the plan is done.
unfoldable pub all_arrived : ControlLoop → ControlLoop
all_arrived l =
    let applied = apply_all l.plan_gripper_on_arrival l in
    record (set_plan_status (record applied { plan_gripper_on_arrival = []; playback_gripper = [] })
      is_done true) { plan_interruptible = false; plan_gate_hold_since = none }

unfoldable pub fail_plan : ControlLoop → ℕ → ControlLoop
fail_plan l arm =
    set_plan_status
      (record l {
        plan_state = insert arm failed l.plan_state;
        plan_clear_at = insert arm (l.tick_count + plan_status_linger_ticks) l.plan_clear_at;
      })
      is_failed true

unfoldable pub finish_plan : ControlLoop → ℕ → Bool → ControlLoop
finish_plan l arm ok =
    let gone = arrived l arm in
    if not ok then fail_plan l arm else if has_entries gone.plans then gone else all_arrived gone

-- What the gate let through.
pub record Decision : Type 0 where
  pub blocked : Bool
  pub q_out : List (ℕ × Posture)

abbrev pub is_negative : ℤ → Bool
is_negative (pos n) = false
is_negative (negsuc n) = true

abbrev pub at_end : ℕ → ℤ → ℤ → Bool
at_end travel rail want =
    (leb (dist rail (pos 0)) 1 && is_negative want)
    || (leb (dist rail (pos travel)) 1 && not (leb_int want (pos travel)))

abbrev pub rails : ℕ → Option ℤ → Option ℤ → Bool
rails travel (some rail) (some want) = at_end travel rail want
rails travel _ _ = false

-- `travel` is `RAIL_TRAVEL_M`.
unfoldable pub clamped_rail_goal : ℕ → Posture → Posture → Bool
clamped_rail_goal travel q_out goal =
    close (take 7 q_out) (take 7 goal) && rails travel (get_elem? q_out 7) (get_elem? goal 7)

abbrev pub progressed : Option Posture → Posture → Bool
progressed none q_out = true
progressed (some q_last) q_out = not (close q_out q_last)

abbrev pub is_executing_state : Option PlanState → Bool
is_executing_state (some executing) = true
is_executing_state _ = false

abbrev pub arrives : ℕ → ControlLoop → Decision → ℕ → Posture → Posture → Bool
arrives travel l dec arm goal q_out =
    close q_out goal
    || (not dec.blocked
        && not (progressed (lookup arm l.last_cmd) q_out)
        && clamped_rail_goal travel q_out goal)

abbrev pub arrive_at : ℕ → ControlLoop → Decision → ℕ → Posture → Option Posture → ControlLoop
arrive_at travel l dec arm goal none = load l arm (goal ∷ [])
arrive_at travel l dec arm goal (some q_out) =
    if arrives travel l dec arm goal q_out then finish_plan l arm true else load l arm (goal ∷ [])

unfoldable pub confirm_arrival : ℕ → ControlLoop → Decision → ℕ → Posture → ControlLoop
confirm_arrival travel l dec arm goal =
    let parked = record l { plan_arriving = remove arm l.plan_arriving } in
    if is_executing_state (lookup arm l.plan_state)
    then arrive_at travel parked dec arm goal (lookup arm dec.q_out)
    else parked

unfoldable pub confirm_all : ℕ → ControlLoop → Decision → List (ℕ × Posture) → ControlLoop
confirm_all travel l dec [] = l
confirm_all travel l dec ((arm, goal) ∷ rest) =
    confirm_all travel (confirm_arrival travel l dec arm goal) dec rest

abbrev pub confirm_plan_arrivals : ℕ → ControlLoop → Decision → ControlLoop
confirm_plan_arrivals travel l dec = confirm_all travel l dec l.plan_arriving

abbrev pub driven_arms : Option (List ℕ) → List ℕ
driven_arms none = []
driven_arms (some driven) = driven

abbrev pub motion_arms : ControlLoop → List ℕ
motion_arms l = keys l.plans ++ driven_arms l.replay

abbrev pub held_still : Option Posture → Option Posture → Bool
held_still (some q_out) (some q_last) = same q_out q_last
held_still _ _ = false

abbrev pub all_held : ControlLoop → Decision → List ℕ → Bool
all_held l dec [] = true
all_held l dec (arm ∷ arms) =
    held_still (lookup arm dec.q_out) (lookup arm l.last_cmd) && all_held l dec arms

abbrev pub since : Option ℕ → ℕ → ℕ
since none now = now
since (some t) now = t

-- A plan that the gate has held for `hold` is cancelled.
unfoldable pub plan_gate_watch : ℕ → ControlLoop → Decision → ℕ → ControlLoop
plan_gate_watch hold l dec now =
    let start = since l.plan_gate_hold_since now in
    if not dec.blocked || not (all_held l dec (motion_arms l))
    then record l { plan_gate_hold_since = none }
    else (let waits = record l { plan_gate_hold_since = some start } in
        if ltb now (start + hold) then waits else cancel_plans waits gate_hold)

unfoldable pub in_flight : List (ℕ × PlanState) → Bool
in_flight [] = false
in_flight ((a, planning) ∷ d) = true
in_flight ((a, executing) ∷ d) = true
in_flight ((a, failed) ∷ d) = in_flight d

abbrev pub any_plan_in_flight : ControlLoop → Bool
any_plan_in_flight l = has_entries l.plans || in_flight l.plan_state

-- The planner's result for these arms: their waypoints, or none.
abbrev pub fail_all : ControlLoop → List ℕ → ControlLoop
fail_all l [] = l
fail_all l (arm ∷ arms) = fail_all (finish_plan l arm false) arms

abbrev pub drop_all : ControlLoop → List ℕ → ControlLoop
drop_all l [] = l
drop_all l (arm ∷ arms) =
    drop_all
      (record l {
        plan_state = insert arm failed l.plan_state;
        plan_clear_at = insert arm (l.tick_count + plan_status_linger_ticks) l.plan_clear_at;
      })
      arms

abbrev pub load_all : ControlLoop → List (ℕ × List Posture) → ControlLoop
load_all l [] = l
load_all l ((arm, waypoints) ∷ rest) =
    load_all (record (load l arm waypoints) { plan_state = insert arm executing l.plan_state }) rest

unfoldable pub op_plan_ready : ControlLoop → List ℕ → Option (List (ℕ × List Posture)) → ControlLoop
op_plan_ready l arms none = fail_all l arms
op_plan_ready l arms (some waypoints) =
    if has_entries l.plans
    then drop_all l arms
    else set_plan_status (load_all l waypoints) is_executing false

abbrev pub expired : Option ℕ → ℕ → Bool
expired none tick = false
expired (some at) tick = leb at tick

abbrev pub is_failed_state : Option PlanState → Bool
is_failed_state (some failed) = true
is_failed_state _ = false

unfoldable pub expire_one : ControlLoop → ℕ → ℕ → ControlLoop
expire_one l arm at =
    let cleared = record l { plan_clear_at = remove arm l.plan_clear_at } in
    let forgotten = record cleared { plan_state = remove arm l.plan_state } in
    if not (leb at l.tick_count)
    then l
    else if is_failed_state (lookup arm l.plan_state)
    then forgotten
    else cleared

unfoldable pub expire_states : ControlLoop → List (ℕ × ℕ) → ControlLoop
expire_states l [] = l
expire_states l ((arm, at) ∷ rest) = expire_states (expire_one l arm at) rest

unfoldable pub expire_shown : ControlLoop → ControlLoop
expire_shown l =
    if expired l.plan_status_clear_at l.tick_count
    then record l { plan_status = none; plan_status_clear_at = none }
    else l

unfoldable pub expire_plan_status : ControlLoop → ControlLoop
expire_plan_status l = let shown = expire_shown l in expire_states shown shown.plan_clear_at
