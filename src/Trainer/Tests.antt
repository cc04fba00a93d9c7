-- ===== src/Trainer/Tests.antt =====
-- A trainer that starts on a directory with one checkpoint, takes two episodes, and the theorems
-- there.
use apollo_mavis_v2_runtime.Checkpoints.{
  CheckpointInfo, pointer_text, write_manifest, advance_latest,
}
use apollo_mavis_v2_runtime.Prelude.{
  ℕ, zero, suc, map, Bool, ◌+◌, ◌≤◌, ◌<◌, ◌≡◌, refl, ◌⊎◌, true, false, List, [], ◌∷◌, ◌++◌, Option,
  none, some, arith, pos, All, length, or_else, if◌then◌else◌, ◌==◌,
}
use apollo_mavis_v2_runtime.Reloader.{Reloader, poll, staged_version}
use apollo_mavis_v2_runtime.Trainer.Batches.{
  IsGenerator, IsDrawn, first_new, new_size, next-IsDrawn,
}
use apollo_mavis_v2_runtime.Trainer.Control as Control
use apollo_mavis_v2_runtime.Trainer.Control.{
  reply, message, nothing, garbled, submit_episode, train_now, ask_status, stop,
}
use apollo_mavis_v2_runtime.Trainer.Handover.{run-init-staged}
use apollo_mavis_v2_runtime.Trainer.Main.{
  TrainerConfig, TrainerMain, Turn, Disk, newest, seeded, init, run, started, status,
  load_trainer_state, turn, train_burst, handle, after_burst, trained, write_checkpoint, written,
  write_files, at_manifest, all_written,
}
use apollo_mavis_v2_runtime.Trainer.Published.{IsListed, run-init-Extends, run-init-counted}
use apollo_mavis_v2_runtime.Trainer.Sampling.{
  SpoolRow, LabelIndex, gather, add_episode, append, with_labels, labels, Row, aggregate_size,
  n_frames, next,
}
use apollo_mavis_v2_runtime.Trainer.Steps.{Extends}
use apollo_mavis_v2_runtime.Trainer.Tuning.{
  Torch, Tuning, burst, steps, clip_burst_steps, sanity_ok, in_bands,
}

abbrev repeat : ℕ → ℕ → List ℕ
repeat zero x = []
repeat (suc n) x = x ∷ repeat n x

-- A generator that always draws the first number of the range.
abbrev lowest : ℕ → ℕ → ℕ → ℕ → List ℕ × ℕ
lowest rng lo hi size = (repeat size lo, suc rng)

lowest-IsGenerator : IsGenerator lowest
lowest-IsGenerator rng lo hi size h = (length-repeat size, All-repeat size)
  where
    length-repeat : (n : ℕ) → length (repeat n lo) ≡ n
    length-repeat zero = refl
    length-repeat (suc n) = omega (arith, length-repeat n)

    All-repeat : (n : ℕ) → All (λ i. (lo ≤ i) × (i < hi)) (repeat n lo)
    All-repeat zero = tt
    All-repeat (suc n) = ((omega arith, h), All-repeat n)

abbrev sample : LabelIndex
sample = record {
  states = (pos 1 ∷ []) ∷ (pos 2 ∷ []) ∷ (pos 3 ∷ []) ∷ [];
  actions = (pos 10 ∷ []) ∷ (pos 20 ∷ []) ∷ (pos 30 ∷ []) ∷ [];
  episodes = [];
  episode_ids = [];
  new_since_checkpoint = 1;
}

next-sample :
    next lowest sample 3 0
    ≡ some (
      record {
        states = (pos 1 ∷ []) ∷ (pos 1 ∷ []) ∷ (pos 3 ∷ []) ∷ [];
        actions = (pos 10 ∷ []) ∷ (pos 10 ∷ []) ∷ (pos 30 ∷ []) ∷ [];
      },
      2,
    )
unfolding next gather
next-sample = refl

next-IsDrawn_example :
    (ss acts ss' acts' : List Row) × (rng' : ℕ) × (next lowest sample 3 0
      ≡ some (record { states = ss ++ ss'; actions = acts ++ acts' }, rng'))
    × (length (ss ++ ss') ≡ 3)
    × IsDrawn sample 0 (aggregate_size sample 3) ss acts
    × IsDrawn sample (first_new sample) (new_size sample 3) ss' acts'
next-IsDrawn_example = next-IsDrawn lowest sample 3 0 lowest-IsGenerator refl (omega arith)

-- Losses are 5, a step counts the network up, and every output is zero.
abbrev torch : Torch
torch = record {
  loss = λ net batch. some 5;
  descend = λ net opt batch. (suc net, suc opt);
  forward = λ net rows. some ((pos 0 ∷ []) ∷ []);
  bands = λ actions. record { q01 = pos 0; q99 = pos 0; deviation = 0 } ∷ [];
  integers = lowest;
  default_rng = 0;
  digest = λ net. net;
  accepts = λ net batch. true;
}

abbrev config : TrainerConfig
config = record {
  action_frame = 1;
  action_space = 2;
  min_new_labels = 2;
  batch_size = 2;
  push_period = 5000;
  held_out_frames = 256;
  orphan_timeout = 120_000;
  hundredth = 10;
}

abbrev first_info : CheckpointInfo
first_info = record {
  version = 7;
  action_frame = 1;
  action_space = 2;
  sanity_ok = true;
  sha256 = 70;
}

abbrev disk : Disk
disk = record {
  store = record {
    manifests = (7, first_info) ∷ [];
    state_dicts = (7, 70) ∷ [];
    latest_file = some (pointer_text 7);
    last_known_good_file = none;
  };
  dirs = 7 ∷ [];
  bundles = (7, 70) ∷ [];
  trainer_states = [];
  lineages = [];
}

disk-IsListed : IsListed disk
disk-IsListed =
    unfold newest in
    ((λ k h. absent first_info k h), (λ k h. absent 70 k h), (λ k h. absent 70 k h))
  where
    absent : {V : Type 0} (v : V) (k : ℕ) → 7 < k → (if 7 == k then some v else none) ≡ none
    absent v k h = ground arith

abbrev human : ℕ → SpoolRow
human n = record { state = pos n ∷ []; action = pos (n + 1) ∷ []; control_mode = 1 }

abbrev policy_row : SpoolRow
policy_row = record { state = pos 9 ∷ []; action = pos 9 ∷ []; control_mode = 0 }

abbrev spool : ℕ → Option (List SpoolRow)
spool path = if path == 3 then some (human 1 ∷ policy_row ∷ human 2 ∷ []) else none

abbrev quiet_turn : ℕ → Turn
quiet_turn now = record {
  received = nothing;
  sends = true;
  spool = spool;
  handled_at = now;
  trained_at = now;
  checked_at = now;
  reaches = λ v. all_written;
}

abbrev turns : List Turn
turns =
    quiet_turn 0
    ∷ record (quiet_turn 100) { received = message (submit_episode 3 (pos 0) 30) }
    ∷ record (quiet_turn 200) { received = message (submit_episode 4 (pos 1) 31) }
    ∷ record (quiet_turn 300) { received = garbled }
    ∷ record (quiet_turn 400) { received = message ask_status }
    ∷ record (quiet_turn 500) { received = message stop }
    ∷ quiet_turn 600
    ∷ []

abbrev reloader : Reloader
reloader = record {
  session_action_frame = 1;
  session_action_space = 2;
  current_version = 7;
  weights = 7;
  staged = none;
  rejected = [];
  notified = [];
}

abbrev published : TrainerMain × Bool → ℕ × Option (List ℕ) × ℕ × ℕ × Bool
published (u, ok) = (u.version, u.disk.store.latest_file, u.steps_total, u.new_label_frames, ok)

run_publishes :
    published (run torch config (init 1 1 none disk true 0) turns)
    ≡ (8, some (pointer_text 8), 200, 0, true)
unfolding run turn init started newest load_trainer_state Control.poll reply handle status
    add_episode with_labels labels append train_burst burst steps next gather clip_burst_steps
    after_burst trained sanity_ok in_bands write_checkpoint written write_files write_manifest
    advance_latest
run_publishes = refl

-- The disk is full once the network of version 8 is saved.
abbrev full_disk : List Turn
full_disk = map {A = Turn} (λ i. record i { reaches = λ v. at_manifest }) turns

run_raises :
    published (run torch config (init 1 1 none disk true 0) full_disk)
    ≡ (8, some (pointer_text 7), 200, 0, false)
unfolding run turn init started newest load_trainer_state Control.poll reply handle status
    add_episode with_labels labels append train_burst burst steps next gather clip_burst_steps
    after_burst trained sanity_ok in_bands write_checkpoint written write_files write_manifest
    advance_latest
run_raises = refl

run-init-Extends_example :
    Extends config
      (or_else (newest disk.dirs) 0)
      disk
      (run torch config (init 1 1 none disk true 0) turns).0.disk
run-init-Extends_example = run-init-Extends torch config 1 1 none disk true 0 turns disk-IsListed

run-init-counted_example :
    (let u = (run torch config (init 1 1 none disk false 0) turns).0 in
      n_frames (seeded none) + u.trained_on_frames + u.new_label_frames ≤ n_frames u.index)
run-init-counted_example = run-init-counted torch config 1 1 none disk 0 turns disk-IsListed refl

run-init-staged_example :
    (let u = (run torch config (init 1 1 none disk true 0) turns).0 in
      (u.disk.store.latest_file ≡ disk.store.latest_file)
      ⊎ ((v : ℕ) × (u.disk.store.latest_file ≡ some (pointer_text v))
          × (v < 1_000_000 → staged_version (poll u.disk.store reloader) ≡ some v)))
run-init-staged_example =
    run-init-staged torch config 1 1 none disk true 0 turns reloader disk-IsListed refl refl
      (unfold newest in omega arith) refl
