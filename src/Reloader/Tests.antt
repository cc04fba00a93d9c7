-- ===== src/Reloader/Tests.antt =====
-- A run directory with two checkpoints, and the theorems there.
use apollo_mavis_v2_runtime.Checkpoints.{
  CheckpointInfo, CheckpointStore, latest, last_known_good, read_pointer, pointer_text,
  read_manifest, verify,
}
use apollo_mavis_v2_runtime.Checkpoints.Pointer.{read-pointer_text}
use apollo_mavis_v2_runtime.Prelude.{
  ℕ, ◌≡◌, ◌≤◌, refl, Bool, true, false, List, [], ◌∷◌, none, some, arith,
}
use apollo_mavis_v2_runtime.Reloader.{
  Reloader, World, Call, polls, rolls_back, marks_good, swaps, init, stage, poll, load, maybe_swap,
  rollback, run,
}
use apollo_mavis_v2_runtime.Reloader.Staging.{IsVetted, run-IsVetted, run-le}
use apollo_mavis_v2_runtime.Reloader.Rollback.{rollback_undone}

abbrev checkpoint : ℕ → CheckpointInfo
checkpoint v = record {
  version = v;
  action_frame = 0;
  action_space = 0;
  sanity_ok = true;
  sha256 = v;
}

abbrev disk : CheckpointStore
disk = record {
  manifests = (1, checkpoint 1) ∷ (2, checkpoint 2) ∷ [];
  state_dicts = (1, 1) ∷ (2, 2) ∷ [];
  latest_file = some (b'v' ∷ b'0' ∷ b'0' ∷ b'0' ∷ b'0' ∷ b'0' ∷ b'2' ∷ 10 ∷ []);
  last_known_good_file = some (b'v' ∷ b'0' ∷ b'0' ∷ b'0' ∷ b'0' ∷ b'0' ∷ b'1' ∷ 10 ∷ []);
}

abbrev any_loads : ℕ → Bool
any_loads v = true

latest-disk : (latest disk ≡ some 2) × (last_known_good disk ≡ some 1)
unfolding latest last_known_good
latest-disk = (refl, refl)

abbrev running : Reloader
running = record {
  session_action_frame = 0;
  session_action_space = 0;
  current_version = 1;
  weights = 1;
  staged = none;
  rejected = [];
  notified = [];
}

swaps_in : (maybe_swap any_loads (poll disk running) true).1 ≡ some 2
unfolding maybe_swap poll stage load verify read_manifest latest
swaps_in = refl

read-pointer_text_example : read_pointer (some (pointer_text 1_000_000)) ≡ none
read-pointer_text_example = read-pointer_text 1_000_000

abbrev session : List Call
session = polls ∷ swaps false ∷ swaps true ∷ rolls_back ∷ marks_good ∷ []

run-IsVetted_example : IsVetted 0 0 (run any_loads (init disk 0 0 1) session).reloader
run-IsVetted_example = run-IsVetted any_loads disk 0 0 1 session

abbrev world : World
world = record { reloader = running; store = disk }

run-le_example : 1 ≤ (run any_loads world (polls ∷ swaps true ∷ [])).reloader.current_version
run-le_example = run-le any_loads world (polls ∷ swaps true ∷ []) (tt, (tt, tt))

abbrev failing : Reloader
failing = record running { current_version = 2; weights = 2 }

rollback_undone_example :
    ((rollback any_loads disk failing).current_version ≡ 1)
    × ((maybe_swap any_loads (poll disk (rollback any_loads disk failing)) true).0.current_version
        ≡ 2)
rollback_undone_example =
    rollback_undone any_loads disk failing 1 (checkpoint 2) refl refl latest-disk.1 (omega arith)
      latest-disk.0 (unfold read_manifest in refl) refl refl refl (unfold verify in refl) refl refl
