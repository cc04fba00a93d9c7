-- ===== src/Watchdog.antt =====
-- safety/watchdog.py: the input deadman between the operator's keys and the arms.
-- Times and durations are numbers of one unit, so `now - t <= d` is written `now ≤ t + d`.
-- The scale that `scale` returns is a float in the source and an exact fraction here.
-- A failed `assert` is `none`.
pub mod Latch
pub mod Ramp
mod Tests
use apollo_mavis_v2_runtime.Prelude.{
  ℕ, ◌+◌, ◌-◌, Bool, true, false, not, ◌&&◌, ◌||◌, List, [], ◌∷◌, Option, none, some, leb, ◌==◌,
  if◌then◌else◌,
}

pub data WatchdogState : Type 0 where
  ok tripped await_empty : WatchdogState

-- The core's `HeldState`: the keys held, the message's number and its time of receipt.
pub record HeldState : Type 0 where
  pub held : List ℕ
  pub seq : ℕ
  pub rx_mono : ℕ

pub record InputWatchdog : Type 0 where
  pub timeout_s : ℕ
  pub ramp_s : ℕ
  pub state : WatchdogState
  pub last_rx : Option ℕ
  pub last_seq : Option ℕ
  pub trip_t : Option ℕ

pub record Fraction : Type 0 where
  pub num : ℕ
  pub den : ℕ

abbrev pub one : Fraction
one = record { num = 1; den = 1 }

abbrev pub nil : Fraction
nil = record { num = 0; den = 1 }

unfoldable pub init : ℕ → ℕ → InputWatchdog
init timeout_s ramp_s = record {
  timeout_s = timeout_s;
  ramp_s = ramp_s;
  state = ok;
  last_rx = none;
  last_seq = none;
  trip_t = none;
}

abbrev pub is_ok : WatchdogState → Bool
is_ok ok = true
is_ok _ = false

abbrev pub is_empty {ℓ} : {A : Type ℓ} → List A → Bool
is_empty [] = true
is_empty (x ∷ xs) = false

-- `held.seq <= self._last_seq`
abbrev pub is_replay : Option ℕ → ℕ → Bool
is_replay none seq = false
is_replay (some last) seq = leb seq last

-- Only a fresh message with no key held leads back to `ok`.
unfoldable pub on_keys : InputWatchdog → HeldState → InputWatchdog × Bool
on_keys w h =
    if is_replay w.last_seq h.seq
    then (w, false)
    else let fed = record w { last_seq = some h.seq; last_rx = some h.rx_mono } in
      if is_ok w.state
      then (fed, true)
      else if is_empty h.held
      then (record fed { state = ok; trip_t = none }, true)
      else (fed, true)

unfoldable pub on_disconnect : InputWatchdog → InputWatchdog
on_disconnect w = record w { state = await_empty; trip_t = none; last_rx = none; last_seq = none }

unfoldable pub on_recovery : InputWatchdog → InputWatchdog
on_recovery w = record w { state = await_empty; trip_t = none }

-- The silence that is to be credited, `stall_started - last_rx`, was short enough.
abbrev pub was_fresh : Option ℕ → ℕ → ℕ → Bool
was_fresh none timeout stall_started = false
was_fresh (some rx) timeout stall_started = leb stall_started (rx + timeout)

unfoldable pub on_process_stall : InputWatchdog → ℕ → ℕ → InputWatchdog
on_process_stall w now stall_started =
    if is_ok w.state && was_fresh w.last_rx w.timeout_s stall_started
    then record w { last_rx = some now }
    else w

-- The end of `scale`, from the trip on. `frac >= 1` is `now ≥ trip + ramp`.
unfoldable pub ramp_from : InputWatchdog → Option ℕ → ℕ → Option (Fraction × InputWatchdog)
ramp_from w none now = none
ramp_from w (some trip) now =
    if leb (trip + w.ramp_s) now || w.ramp_s == 0
    then some (nil, record w { state = await_empty })
    else some (record { num = trip + w.ramp_s - now; den = w.ramp_s }, w)

unfoldable pub scale_ok : InputWatchdog → Option ℕ → ℕ → Option (Fraction × InputWatchdog)
unfolding ramp_from
scale_ok w none now = some (one, w)
scale_ok w (some rx) now =
    if leb now (rx + w.timeout_s)
    then some (one, w)
    else let trip = some (rx + w.timeout_s) in
      ramp_from (record w { state = tripped; trip_t = trip }) trip now

unfoldable pub scale_at : WatchdogState → InputWatchdog → ℕ → Option (Fraction × InputWatchdog)
unfolding scale_ok
scale_at await_empty w now = some (nil, w)
scale_at ok w now = scale_ok w w.last_rx now
scale_at tripped w now = ramp_from w w.trip_t now

-- One tick: what the held keys are multiplied by, and the new state.
unfoldable pub scale : InputWatchdog → ℕ → Option (Fraction × InputWatchdog)
unfolding scale_at
scale w now = scale_at w.state w now

abbrev pub needs_all_up : InputWatchdog → Bool
needs_all_up w = not (is_ok w.state)

-- What happens to the watchdog, one call at a time.
pub data Call : Type 0 where
  keys : HeldState → Call
  disconnect recovery : Call
  stall : (now stall_started : ℕ) → Call
  tick : (now : ℕ) → Call

unfoldable pub step : InputWatchdog → Call → Option InputWatchdog
unfolding on_keys on_disconnect on_recovery on_process_stall scale
step w (keys h) = some (on_keys w h).0
step w disconnect = some (on_disconnect w)
step w recovery = some (on_recovery w)
step w (stall now started) = some (on_process_stall w now started)
step w (tick now) = elim (scale w now) [ none ↦ none | some (s, w') ↦ some w' ]

unfoldable pub run : InputWatchdog → List Call → Option InputWatchdog
run w [] = some w
run w (c ∷ cs) = elim (step w c) [ none ↦ none | some w' ↦ run w' cs ]
