-- ===== src/ControlLoop/Tests.antt =====
-- A session of two arms, one of which faults while a plan moves it and a key is held, and the
-- theorems there.
use apollo_mavis_v2_runtime.ArmSender.{LatestSlot, ArmSender, waiting, pause}
use apollo_mavis_v2_runtime.ControlLoop.Consistent.{IsConsistent}
use apollo_mavis_v2_runtime.ControlLoop.Faults.{
  DriverEvent, fault_event, recovered_event, on_events, on_event, on_fault_event, stop_motion,
  update_recovering, publish_fault_state, fault_state,
}
use apollo_mavis_v2_runtime.ControlLoop.Frames.{core}
use apollo_mavis_v2_runtime.ControlLoop.Holding.{last_of, run_tick-holds, run_tick-puts}
use apollo_mavis_v2_runtime.ControlLoop.Plans.{motion_active, set_plan_status}
use apollo_mavis_v2_runtime.ControlLoop.State.{
  Posture, ControlLoop, executing, is_executing, fault, scale_for, moving, is_in,
}
use apollo_mavis_v2_runtime.ControlLoop.Stopped.{is_stopped, run-IsConsistent, run-stopped}
use apollo_mavis_v2_runtime.ControlLoop.Tick.{
  Tick, counted, fault_step, before_sources, commands, run_tick, run,
}
use apollo_mavis_v2_runtime.Prelude.Dicts.{lookup}
use apollo_mavis_v2_runtime.Prelude.{
  ℕ, zero, suc, ◌≡◌, refl, true, false, List, [], ◌∷◌, ◌++◌, Option, none, some, pos, All,
}

abbrev got : ℕ → Option ℕ
got zero = none
got (suc v) = some v

abbrev slots : LatestSlot
slots = record { put = λ s v. suc v; get = got }

abbrev sender : ArmSender
sender = record {
  grip_slot = 0;
  last_grip = none;
  running = true;
  paused = false;
  error_count = 0;
  sent_count = 0;
  place = waiting;
  commands = [];
}

abbrev loop : ControlLoop
loop = record {
  session_arms = 1 ∷ 2 ∷ [];
  active_arm = some 2;
  gripper_arms = 1 ∷ [];
  tick_count = 0;
  grip_frac = (1, 500) ∷ [];
  last_cmd = (1, pos 10 ∷ []) ∷ (2, pos 20 ∷ []) ∷ [];
  senders = (1, sender) ∷ (2, sender) ∷ [];
  plans = (1, record { waypoints = (pos 50 ∷ []) ∷ []; index = 0 }) ∷ [];
  plan_state = (1, executing) ∷ [];
  plan_clear_at = [];
  plan_status = some is_executing;
  plan_status_clear_at = none;
  plan_cancel_reason = none;
  plan_interruptible = false;
  plan_gripper_on_arrival = [];
  playback_gripper = [];
  plan_arriving = [];
  plan_gate_hold_since = none;
  replay = none;
  jog = [];
  teleop_seeded = 2 ∷ [];
  has_tracker = true;
  clutch_arm = none;
  controller_dropped = false;
  faulted = [];
  recovering_arms = [];
  fault_text = [];
  warnings = [];
  fault_events = 0;
  recoveries = 0;
  fault_state_reported = none;
  reports = [];
  puts = [];
  gripper_puts = [];
}

abbrev tick : ℕ → List ℕ → List DriverEvent → Tick
tick now ws events = record {
  now = now;
  sources = record { ws = ws; ws_scale = 1000; device = []; device_scale = 0 };
  held_codes = λ c. false;
  watchdog_latched = false;
  has_error = λ a. false;
  events = events;
  stalled = false;
  walk = λ q target. (target, true);
  jog_step = λ q target. (some target, true);
  replay_step = λ a q. none;
  teleop_step = λ a q. some (pos 21 ∷ []);
  cap = λ q q_last. q;
  gate = λ cmds. record { blocked = false; q_out = cmds };
  replay_over = false;
}

-- A fault, a re-seed with a key held, and the release of the key.
abbrev ticks : List Tick
ticks =
    tick 0 (7 ∷ []) (fault_event 1 99 ∷ [])
    ∷ tick 10 (7 ∷ []) (recovered_event 1 (some (pos 12 ∷ [], 400)) ∷ [])
    ∷ tick 20 (7 ∷ []) []
    ∷ []

ready_after_fault :
    (let u = fault_step slots 650 2000 loop (tick 0 (7 ∷ []) (fault_event 1 99 ∷ [])) in
      (u.faulted ≡ 1 ∷ []) × (u.plans ≡ []) × (u.reports ≡ some fault ∷ []))
unfolding fault_step update_recovering on_events on_event on_fault_event stop_motion pause
    publish_fault_state fault_state scale_for set_plan_status motion_active
ready_after_fault = (refl, refl, refl)

loop-IsConsistent : IsConsistent (core loop)
loop-IsConsistent = ((λ a h. refl), (refl, (refl, tt)), (λ a h. h))

run-IsConsistent_example : IsConsistent (core (run slots 650 2000 loop ticks))
run-IsConsistent_example = run-IsConsistent slots 650 2000 loop ticks loop-IsConsistent

abbrev faulted_loop : ControlLoop
faulted_loop = record loop { faulted = 1 ∷ [] }

run-stopped_example : is_stopped (core (run slots 650 2000 faulted_loop ticks)) 1 ≡ true
run-stopped_example =
    run-stopped slots 650 2000 faulted_loop 1 ticks refl (unfold scale_for in refl)

abbrev faults_now : Tick
faults_now = tick 0 (7 ∷ []) (fault_event 1 99 ∷ [])

in_session : is_in 1 (before_sources slots 650 2000 loop faults_now).session_arms ≡ true
unfolding before_sources counted fault_step update_recovering on_events on_event on_fault_event
    stop_motion pause publish_fault_state fault_state scale_for set_plan_status motion_active moving
in_session = refl

stopped_now : is_stopped (core (before_sources slots 650 2000 loop faults_now)) 1 ≡ true
unfolding before_sources counted fault_step update_recovering on_events on_event on_fault_event
    stop_motion pause publish_fault_state fault_state scale_for set_plan_status motion_active moving
stopped_now = refl

run_tick-holds_example :
    lookup 1 (commands slots 650 2000 loop faults_now)
    ≡ some (
        faults_now.cap
          (last_of (before_sources slots 650 2000 loop faults_now) 1)
          (last_of (before_sources slots 650 2000 loop faults_now) 1))
run_tick-holds_example = run_tick-holds slots 650 2000 loop faults_now 1 in_session stopped_now

run_tick-puts_example :
    (let u = run_tick slots 650 2000 loop faults_now in
      (new : List (ℕ × Posture)) × (u.puts ≡ loop.puts ++ new)
      × All (λ p. is_in p.0 u.faulted ≡ false) new)
run_tick-puts_example = run_tick-puts slots 650 2000 loop faults_now
