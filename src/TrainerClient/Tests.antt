-- ===== src/TrainerClient/Tests.antt =====
-- A trainer that dies twice, one that hangs, and the theorems there.
use apollo_mavis_v2_runtime.Checkpoints.{CheckpointStore}
use apollo_mavis_v2_runtime.Prelude.{
  ℕ, ◌≡◌, refl, true, false, map, arith, List, [], ◌∷◌, none, some,
}
use apollo_mavis_v2_runtime.TrainerClient.{
  Turn, submit, roll_back, init, handle_death, check_process, ask_status, turn, submit_episode,
  notify_rollback, Call, turns, submits, notifies, step, run,
}
use apollo_mavis_v2_runtime.TrainerClient.Restarts.{IsBounded, run-init-IsBounded}
use apollo_mavis_v2_runtime.TrainerClient.Polling.{run-answered}

abbrev gone : ℕ → Turn
gone now = record {
  exited = true;
  starts = true;
  exchanged = true;
  now = now;
  reply = none;
  alive = false;
  starts_again = true;
}

abbrev silent : ℕ → Turn
silent now = record (gone now) { exited = false; alive = true }

abbrev died_twice : List Call
died_twice = submits 1 ∷ turns (gone 0) ∷ notifies 3 ∷ turns (gone 100) ∷ turns (gone 200) ∷ []

run-died_twice :
    ((run init died_twice).degraded ≡ true)
    × ((run init died_twice).spawned ≡ false ∷ true ∷ [])
    × ((run init died_twice).sent ≡ submit 1 ∷ roll_back 3 ∷ [])
unfolding run step turn check_process ask_status handle_death submit_episode notify_rollback
run-died_twice = (refl, refl, refl)

run-init-IsBounded_example : IsBounded (run init died_twice)
run-init-IsBounded_example = run-init-IsBounded died_twice

-- The first exchange fails.
abbrev hanging : List Turn
hanging = record (silent 0) { exchanged = false } ∷ silent 1000 ∷ silent 2000 ∷ []

abbrev asks : List Call
asks = submits 1 ∷ notifies 3 ∷ []

run-answered_example :
    ((run (run init asks) (map turns hanging)).queue ≡ [])
    × ((run (run init asks) (map turns hanging)).sent ≡ roll_back 3 ∷ [])
run-answered_example = run-answered init asks hanging (tt, (tt, tt)) (omega arith)

abbrev disk : CheckpointStore
disk = record {
  manifests =
      (2, record { version = 2; action_frame = 0; action_space = 0; sanity_ok = true; sha256 = 2 })
      ∷ [];
  state_dicts = (2, 2) ∷ [];
  latest_file = some (b'v' ∷ b'0' ∷ b'0' ∷ b'0' ∷ b'0' ∷ b'0' ∷ b'2' ∷ 10 ∷ []);
  last_known_good_file = none;
}
