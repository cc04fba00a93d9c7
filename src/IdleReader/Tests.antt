-- ===== src/IdleReader/Tests.antt =====
-- A reader that is paused while its thread is between its two tests, and the theorem there.
use apollo_mavis_v2_runtime.IdleReader.{
  ArmState, DriverIdleSource, Drivers, running, paused, wants_lock, IdleArmReader, pause_takes,
  disconnect, try_connect, states, arm_state, frozen,
}
use apollo_mavis_v2_runtime.IdleReader.Released.{Event, steps, asks_pause, run, run-released}
use apollo_mavis_v2_runtime.Prelude.{ℕ, ◌≡◌, refl, true, false, List, [], ◌∷◌, some, ◌==◌}

abbrev source : DriverIdleSource
source = record {
  arm_ids = 1 ∷ 2 ∷ [];
  drivers = (1, true) ∷ [];
  retry_at = [];
  backoff = [];
  last = [];
  connect_attempts = 0;
}

abbrev good : ArmState
good = record { payload = 5; stale = false; zero_velocity = false }

abbrev drivers_at : ℕ → Drivers
drivers_at now = record { now = now; connects = λ a. a == 1; get_state = λ a. some good }

states-source :
    ((states (drivers_at 0) source (1 ∷ 2 ∷ [])).1 ≡ (1, good) ∷ [])
    × ((states (drivers_at 0) source (1 ∷ 2 ∷ [])).0.retry_at ≡ (2, 1000) ∷ [])
    × ((states (drivers_at 0) source (1 ∷ 2 ∷ [])).0.backoff ≡ (2, 2000) ∷ [])
unfolding states arm_state try_connect frozen
states-source = (refl, refl, refl)

abbrev reader : IdleArmReader
reader = record {
  source = source;
  running = true;
  paused = true;
  connected = true;
  status = running;
  snapshots = [];
  place = wants_lock;
}

abbrev released : IdleArmReader
released = record reader { source = disconnect source; status = paused }

taken : pause_takes reader ≡ some released
unfolding pause_takes
taken = refl

abbrev session : List Event
session = steps (drivers_at 0) ∷ steps (drivers_at 9) ∷ steps (drivers_at 20) ∷ asks_pause ∷ []

run-released_example : ((run released session).source).drivers ≡ []
run-released_example = run-released reader released session refl taken refl
