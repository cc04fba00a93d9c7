-- ===== src/Supervisor.antt =====
-- safety/supervisor.py, and ArmReportWatchdog of safety/watchdog.py: the gate and the watchdogs as the
-- control loop calls them, once per tick.
-- Whether the twin raises while it syncs or while it checks a command is an argument. The gate raises
-- only before it changes anything but its seeds, which a second call makes anew, so that call starts
-- from the same gate.
pub mod FailClosed
mod Tests
use apollo_mavis_v2_runtime.Prelude.{
  ℕ, ◌+◌, ◌%◌, Bool, true, false, not, ◌&&◌, ◌||◌, List, [], ◌∷◌, ◌++◌, Option, none, some, ltb,
  ◌==◌, if◌then◌else◌, any, last, take,
}
use apollo_mavis_v2_runtime.SafetyGate.{
  Event, GateDecision, GateTwin, SafetyGate, filter, null_filter, reseed,
}
use apollo_mavis_v2_runtime.Watchdog.{InputWatchdog, on_recovery}

-- What the watchdog reads of the core's `ArmState`.
pub record ArmState : Type 0 where
  pub stale : Bool
  pub t_mono : ℕ

-- `ArmReportWatchdog.stale`
unfoldable pub is_stale : ℕ → List ArmState → ℕ → Bool
is_stale twin_staleness_s states now =
    any (λ st. st.stale || ltb (st.t_mono + twin_staleness_s) now) states

-- `gate` is `none` for the pass-through gate; a clearance is a pair and its distance.
pub record SafetySupervisor : Type 0 where
  pub gate : Option SafetyGate
  pub watchdog : InputWatchdog
  pub has_twin : Bool
  pub twin_staleness_s : ℕ
  pub warn_clearance_m : ℕ
  pub tick : ℕ
  pub stale : Bool
  pub clearances : List (ℕ × ℕ)
  pub events : List Event  -- the newest 50
  pub last_blocked : Bool  -- of the last report

abbrev pub clearance_every_n_ticks : ℕ
clearance_every_n_ticks = 4

unfoldable pub init : Option SafetyGate → InputWatchdog → Bool → ℕ → ℕ → SafetySupervisor
init gate watchdog has_twin staleness warn = record {
  gate = gate;
  watchdog = watchdog;
  has_twin = has_twin;
  twin_staleness_s = staleness;
  warn_clearance_m = warn;
  tick = 0;
  stale = false;
  clearances = [];
  events = [];
  last_blocked = false;
}

-- The clearances of the sweep, at every fourth tick.
abbrev pub with_sweep : SafetySupervisor → List (ℕ × ℕ) → SafetySupervisor
with_sweep s sweep =
    if s.tick % clearance_every_n_ticks == 0 then record s { clearances = take 5 sweep } else s

-- `raises`: the twin's sync or sweep raised.
unfoldable pub sync :
    SafetySupervisor
    → List ArmState
    → ℕ
    → (sweep : List (ℕ × ℕ)) → (raises : Bool) → SafetySupervisor
sync s states now sweep raises =
    let ticked = record s { tick = s.tick + 1 } in
    if not s.has_twin
    then ticked
    else (let checked = record ticked { stale = is_stale s.twin_staleness_s states now } in
        if raises then record checked { stale = true } else with_sweep checked sweep)

abbrev pub events_max : ℕ
events_max = 50

unfoldable pub publish : SafetySupervisor → GateDecision → SafetySupervisor
publish s dec = record s {
  last_blocked = dec.is_blocked;
  events = last events_max (s.events ++ dec.events);
}

abbrev pub published :
    SafetySupervisor → Option (SafetyGate × GateDecision) → Option (SafetySupervisor × GateDecision)
published s none = none
published s (some (g, dec)) = some (publish (record s { gate = some g }) dec, dec)

-- `raises`: the twin raised while it checked the command.
abbrev pub filter_by :
    SafetySupervisor
    → Option SafetyGate
    → GateTwin
    → (q_cmd q_meas : List (ℕ × ℕ)) → (raises : Bool) → Option (SafetySupervisor × GateDecision)
filter_by s none twin q_cmd q_meas raises = some (publish s (null_filter q_cmd), null_filter q_cmd)
filter_by s (some g) twin q_cmd q_meas raises =
    published s (filter g twin q_cmd q_meas (s.stale || raises))

unfoldable pub filter_tick :
    SafetySupervisor
    → GateTwin
    → (q_cmd q_meas : List (ℕ × ℕ)) → (raises : Bool) → Option (SafetySupervisor × GateDecision)
unfolding publish
filter_tick s twin q_cmd q_meas raises = filter_by s s.gate twin q_cmd q_meas raises

abbrev pub reseed_gate : Option SafetyGate → ℕ → ℕ → Option SafetyGate
reseed_gate none arm q = none
reseed_gate (some g) arm q = some (reseed g arm q)

unfoldable pub reseed_arm : SafetySupervisor → ℕ → ℕ → SafetySupervisor
reseed_arm s arm q = record s { gate = reseed_gate s.gate arm q; watchdog = on_recovery s.watchdog }

pub data Severity : Type 0 where
  ok blocked : Severity
  warn : (pair clearance : ℕ) → Severity

abbrev pub warned : List (ℕ × ℕ) → ℕ → Severity
warned [] limit = ok
warned ((pair, d) ∷ cs) limit = if ltb d limit then warn pair d else ok

-- The severity that `merged_report` shows.
unfoldable pub merged_report : SafetySupervisor → Severity
merged_report s = if s.last_blocked then blocked else warned s.clearances s.warn_clearance_m
