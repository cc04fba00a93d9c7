-- ===== src/ControlLoop/Tick.antt =====
-- One tick: the inputs that cancel a motion, which source moves which arm, the gate, and the slots
-- of the senders. What a teleop or replay step, a slew toward a target, the step cap and the gate
-- compute is an input of the tick. The commands of the queue are calls of their own.
use apollo_mavis_v2_runtime.ArmSender.{LatestSlot}
use apollo_mavis_v2_runtime.ControlLoop.Faults.{
  DriverEvent, arm_stopped, drain_driver_events, update_recovering, publish_fault_state,
}
use apollo_mavis_v2_runtime.ControlLoop.Plans.{
  Decision, motion_active, cancel_plans, interrupt_plan_for, set_plan_status, clear_replay,
  confirm_plan_arrivals, plan_gate_watch, apply_some, expire_plan_status,
}
use apollo_mavis_v2_runtime.ControlLoop.State.{
  Posture, Walk, ControlLoop, HeldSources, held, moving, is_in, discard, movement_key,
  browser_disconnected, is_done,
}
use apollo_mavis_v2_runtime.Prelude.Dicts.{lookup, insert, remove}
use apollo_mavis_v2_runtime.Prelude.{
  ℕ, suc, Bool, true, false, not, ◌&&◌, ◌||◌, List, [], ◌∷◌, ◌++◌, Option, none, some, ltb, ◌==◌,
  if◌then◌else◌, any, is_some, or_else, get_elem?, length,
}

pub record Tick : Type 0 where
  pub now : ℕ
  pub sources : HeldSources
  pub held_codes : ℕ → Bool  -- `HELD_CODES`
  pub watchdog_latched : Bool  -- the latch was set on this tick
  pub has_error : ℕ → Bool  -- `states[arm].error_code != 0`
  pub events : List DriverEvent
  pub stalled : Bool
  pub walk : Posture → Posture → Posture × Bool  -- the step toward a waypoint, and whether it is reached
  pub jog_step : Posture → Posture → Option Posture × Bool  -- the scaled step, and arrival
  pub replay_step : ℕ → Posture → Option Posture
  pub teleop_step : ℕ → Posture → Option Posture
  pub cap : Posture → Posture → Posture  -- `_cap_joint_step`
  pub gate : List (ℕ × Posture) → Decision  -- `supervisor.filter`
  pub replay_over : Bool

-- `PlanExecutor.step`: the posture, and the walk that is left.
abbrev pub advance : Tick → Walk → Posture → Posture → Posture × Option Walk
advance i w q_last target =
    let (q_next, reached) = i.walk q_last target in
    if not reached
    then (q_next, some w)
    else if ltb (suc w.index) (length w.waypoints)
    then (q_next, some (record w { index = suc w.index }))
    else (target, none)

-- The executor returned the goal itself: it waits for the gate.
abbrev pub walked : ControlLoop → ℕ → Posture × Option Walk → ControlLoop × Option Posture
walked l arm (q, some w) = (record l { plans = insert arm w l.plans }, some q)
walked l arm (q, none) =
    (record l { plans = remove arm l.plans; plan_arriving = insert arm q l.plan_arriving }, some q)

abbrev pub head_for :
    Tick → ControlLoop → ℕ → Walk → Posture → Option Posture → ControlLoop × Option Posture
head_for i l arm w q_last none = (l, none)
head_for i l arm w q_last (some target) = walked l arm (advance i w q_last target)

-- A source other than teleop gives up the teleop seed.
abbrev pub note_other_source : ControlLoop → ℕ → ControlLoop
note_other_source l arm = record l { teleop_seeded = discard arm l.teleop_seeded }

-- An episode that is played back sets the opening of the waypoint that the arm heads for.
abbrev pub follow : ControlLoop → ℕ → ℕ → Option (List ℕ) → ControlLoop
follow l arm index none = l
follow l arm index (some track) = apply_some l arm (get_elem? track index)

unfoldable pub plan_step : Tick → ControlLoop → ℕ → Walk → Posture → ControlLoop × Option Posture
plan_step i l arm w q_last =
    let u = follow (note_other_source l arm) arm w.index (lookup arm l.playback_gripper) in
    head_for i u arm w q_last (get_elem? w.waypoints w.index)

abbrev pub jogged : ControlLoop → ℕ → Option Posture × Bool → ControlLoop × Option Posture
jogged l arm (q, arrived) = (if arrived then record l { jog = remove arm l.jog } else l, q)

abbrev pub drives : Option (List ℕ) → ℕ → Bool
drives none arm = false
drives (some driven) arm = is_in arm driven

abbrev pub is_active : Option ℕ → ℕ → Bool
is_active none arm = false
is_active (some active) arm = active == arm

abbrev pub by_source :
    Tick → ControlLoop → ℕ → Posture → Option Walk → Option Posture → ControlLoop × Option Posture
by_source i l arm q_last (some w) target = plan_step i l arm w q_last
by_source i l arm q_last none (some target) =
    if drives l.replay arm
    then (note_other_source l arm, i.replay_step arm q_last)
    else jogged (note_other_source l arm) arm (i.jog_step q_last target)
by_source i l arm q_last none none =
    if drives l.replay arm
    then (note_other_source l arm, i.replay_step arm q_last)
    else if is_active l.active_arm arm
    then (l, i.teleop_step arm q_last)
    else (l, none)

unfoldable pub resolve_arm : Tick → ControlLoop → ℕ → Posture → ControlLoop × Option Posture
resolve_arm i l arm q_last =
    if i.stalled || arm_stopped l arm (i.has_error arm)
    then (l, none)
    else by_source i l arm q_last (lookup arm l.plans) (lookup arm l.jog)

-- The command of each arm: its source's, or the last one.
unfoldable pub resolve_arms : Tick → ControlLoop → List ℕ → ControlLoop × List (ℕ × Posture)
resolve_arms i l [] = (l, [])
resolve_arms i l (arm ∷ arms) =
    let q_last = or_else (lookup arm l.last_cmd) [] in
    let (u, q) = resolve_arm i l arm q_last in
    let (v, cmds) = resolve_arms i u arms in (v, (arm, i.cap (or_else q q_last) q_last) ∷ cmds)

abbrev pub cancel_for_input : Tick → ControlLoop → ControlLoop
cancel_for_input i l =
    if not (motion_active l)
    then l
    else if moving i.sources i.held_codes
    then cancel_plans l movement_key
    else if l.plan_interruptible && any i.held_codes (held i.sources)
    then cancel_plans l movement_key
    else if l.controller_dropped
    then interrupt_plan_for l browser_disconnected
    else l

-- `_finish_replay`
abbrev pub finish_replay : ControlLoop → ControlLoop
finish_replay l = record (set_plan_status (clear_replay l) is_done true) {
  plan_interruptible = false;
  plan_gate_hold_since = none;
}

-- A faulted arm gets nothing.
unfoldable pub dispatch : ControlLoop → List (ℕ × Posture) → ControlLoop
dispatch l [] = l
dispatch l ((arm, q) ∷ rest) =
    let u = record l { last_cmd = insert arm q l.last_cmd } in
    dispatch (if is_in arm l.faulted then u else record u { puts = u.puts ++ (arm, q) ∷ [] }) rest

-- The tick's number, and the jog targets that the watchdog drops.
unfoldable pub counted : ControlLoop → Tick → ControlLoop
counted l i =
    let next = record l { tick_count = suc l.tick_count } in
    if i.watchdog_latched then record next { jog = [] } else next

module _ (slots : LatestSlot) (travel hold : ℕ) where
  -- Step 3b of the tick.
  unfoldable pub fault_step : ControlLoop → Tick → ControlLoop
  fault_step l i =
      publish_fault_state (drain_driver_events slots (update_recovering l i.sources) i.now i.events)

  unfoldable pub before_sources : ControlLoop → Tick → ControlLoop
  before_sources l i = record (cancel_for_input i (fault_step (counted l i) i)) {
    controller_dropped = false;
  }

  abbrev pub watched : ControlLoop → Tick → Decision → ControlLoop
  watched l i dec = if motion_active l then plan_gate_watch hold l dec i.now else l

  abbrev pub replayed : ControlLoop → Tick → ControlLoop
  replayed l i = if is_some l.replay && i.replay_over then finish_replay l else l

  unfoldable pub after_gate : ControlLoop → Tick → Decision → ControlLoop
  after_gate l i dec =
      let confirmed = confirm_plan_arrivals travel l dec in
      expire_plan_status (dispatch (replayed (watched confirmed i dec) i) dec.q_out)

  -- What the gate is given.
  unfoldable pub commands : ControlLoop → Tick → List (ℕ × Posture)
  commands l i = let ready = before_sources l i in (resolve_arms i ready ready.session_arms).1

  unfoldable pub run_tick : ControlLoop → Tick → ControlLoop
  run_tick l i =
      let ready = before_sources l i in
      let moved = (resolve_arms i ready ready.session_arms).0 in
      after_gate moved i (i.gate (commands l i))

  unfoldable pub run : ControlLoop → List Tick → ControlLoop
  run l [] = l
  run l (i ∷ is) = run (run_tick l i) is
