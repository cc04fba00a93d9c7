-- ===== src/Trainer/Main.antt =====
-- dagger/trainer/trainer.py: `TrainerMain`, the loop of control requests, bursts and checkpoints.
-- The checkpoint directory is `Disk`; a file that cannot be read is a missing entry. The wall clock
-- of a manifest, its path and its loss are left out. Times are of `time.monotonic`. A method that may
-- raise gives, besides the state that it leaves, whether it went on; a raise ends the process.
use apollo_mavis_v2_runtime.Checkpoints.{
  CheckpointInfo, CheckpointStore, write_manifest, advance_latest,
}
use apollo_mavis_v2_runtime.Prelude.Dicts.{lookup, insert}
use apollo_mavis_v2_runtime.Prelude.{
  ℕ, suc, ◌+◌, max, Bool, true, false, ◌&&◌, List, [], ◌∷◌, Option, none, some, ltb, leb, ◌==◌,
  if◌then◌else◌, or_else, ℤ, pos, negsuc, not,
}
use apollo_mavis_v2_runtime.Trainer.Control as Control
use apollo_mavis_v2_runtime.Trainer.Control.{
  Request, ask_status, submit_episode, train_now, roll_back, stop, unknown, Received, TrainerPhase,
  starting, idle, training, Loss, TrainerStatus, Reply, status_is, failed, labels_now, is_ok,
  unknown_cmd, ControlEndpoint, poll, reply,
}
use apollo_mavis_v2_runtime.Trainer.Sampling.{
  SpoolRow, LabelIndex, n_frames, empty_index, add_seed, add_episode, mark_checkpoint,
}
use apollo_mavis_v2_runtime.Trainer.Tuning.{
  Torch, Tuning, BurstStats, burst, clip_burst_steps, sanity_ok,
}

pub record TrainerConfig : Type 0 where
  pub action_frame : ℕ
  pub action_space : ℕ
  pub min_new_labels : ℕ
  pub batch_size : ℕ
  pub push_period : ℕ
  pub held_out_frames : ℕ
  pub orphan_timeout : ℕ
  pub hundredth : ℕ  -- 0.01 in the unit of the rows

-- The payload of `trainer_state.pt`.
pub record TrainerState : Type 0 where
  pub optimizer : ℕ
  pub steps_total : ℕ
  pub trained_on_frames : ℕ

-- The fields of a manifest that only the trainer writes.
pub record Lineage : Type 0 where
  pub parent_version : Option ℕ
  pub trained_on_frames : ℕ
  pub trained_on_episodes : List ℤ

pub record Disk : Type 0 where
  pub store : CheckpointStore
  pub dirs : List ℕ  -- the version directories
  pub bundles : List (ℕ × ℕ)  -- the networks of the readable `state_dict.pt`
  pub trainer_states : List (ℕ × TrainerState)
  pub lineages : List (ℕ × Lineage)

pub record TrainerMain : Type 0 where
  pub control : ControlEndpoint
  pub index : LabelIndex
  pub state : TrainerPhase
  pub steps_total : ℕ
  pub last_burst_loss : Option Loss
  pub last_ckpt_version : Option ℕ
  pub last_ckpt_ts : Option ℕ
  pub trained_on_frames : ℕ
  pub parent_version : Option ℕ
  pub new_label_frames : ℕ
  pub boundary_pending : Bool
  pub stops : Bool
  pub last_status_poll : ℕ
  pub net : ℕ
  pub opt : ℕ
  pub version : ℕ
  pub disk : Disk

-- `max(self.store.versions())`, where there are any; a directory of seven digits is not listed.
abbrev newer : ℕ → Option ℕ → Option ℕ
newer v none = some v
newer v (some w) = some (max v w)

unfoldable pub newest : List ℕ → Option ℕ
newest [] = none
newest (v ∷ vs) = let rest = newest vs in if ltb v 1_000_000 then newer v rest else rest

-- `_load_weights_version`
abbrev pub load_net : TrainerMain → Option ℕ → TrainerMain × Bool
load_net t none = (t, false)
load_net t (some net) = (record t { net = net }, true)

unfoldable pub load_weights_version : TrainerMain → ℕ → TrainerMain × Bool
load_weights_version t version = load_net t (lookup version t.disk.bundles)

abbrev pub load_state : TrainerMain → ℕ → Option TrainerState → TrainerMain
load_state t version none = t
load_state t version (some s) =
    (load_weights_version
      (record t {
        opt = s.optimizer;
        steps_total = s.steps_total;
        trained_on_frames = s.trained_on_frames;
      })
      version).0

unfoldable pub load_trainer_state : TrainerMain → ℕ → TrainerMain
load_trainer_state t version = load_state t version (lookup version t.disk.trainer_states)

abbrev pub seeded : Option (List SpoolRow) → LabelIndex
seeded none = empty_index
seeded (some rows) = (add_seed empty_index rows).0

-- `__init__` without `resume`: `net` and `opt` are the network of the seed bundle, or a new one, and
-- the optimiser made for it.
unfoldable pub started : ℕ → ℕ → Option (List SpoolRow) → Disk → ℕ → TrainerMain
started net opt seed disk now =
    let version = or_else (newest disk.dirs) 0 in
    record {
      control = Control.init;
      index = seeded seed;
      state = idle;
      steps_total = 0;
      last_burst_loss = none;
      last_ckpt_version = none;
      last_ckpt_ts = none;
      trained_on_frames = 0;
      parent_version = newest disk.dirs;
      new_label_frames = 0;
      boundary_pending = false;
      stops = false;
      last_status_poll = now;
      net = net;
      opt = opt;
      version = version;
      disk = disk;
    }

unfoldable pub init : ℕ → ℕ → Option (List SpoolRow) → Disk → Bool → ℕ → TrainerMain
init net opt seed disk resume now =
    let t = started net opt seed disk now in
    if resume && ltb 0 t.version then load_trainer_state t t.version else t

unfoldable pub status : TrainerMain → TrainerStatus
status t = record {
  state = t.state;
  steps_total = t.steps_total;
  last_burst_loss = t.last_burst_loss;
  last_checkpoint_version = t.last_ckpt_version;
  last_checkpoint_ts = t.last_ckpt_ts;
  new_label_frames = t.new_label_frames;
}

-- How far a checkpoint's files are written: the first one that cannot be, where one raises.
pub data Stage : Type 0 where
  at_directory at_bundle at_state at_manifest at_latest all_written : Stage

-- What the loop reads from outside: the request, and the clock where it is read.
pub record Turn : Type 0 where
  pub received : Received
  pub sends : Bool  -- whether the socket takes the reply
  pub spool : ℕ → Option (List SpoolRow)  -- what `read_spool` and the summary give, `none` where either raises
  pub handled_at : ℕ
  pub trained_at : ℕ
  pub checked_at : ℕ
  pub reaches : ℕ → Stage  -- how far the writing of a version comes

module _ (torch : Torch) (cfg : TrainerConfig) where
  abbrev pub with_directory : ℕ → Disk → Disk
  with_directory version d = record d { dirs = version ∷ d.dirs }

  abbrev pub with_bundle : TrainerMain → ℕ → Disk → Disk
  with_bundle t version d = record d {
    store = record d.store {
      state_dicts = insert version (torch.digest t.net) d.store.state_dicts;
    };
    bundles = insert version t.net d.bundles;
  }

  abbrev pub with_state : TrainerMain → ℕ → Disk → Disk
  with_state t version d = record d {
    trainer_states =
        insert version
          (record {
            optimizer = t.opt;
            steps_total = t.steps_total;
            trained_on_frames = t.trained_on_frames;
          })
          d.trainer_states;
  }

  abbrev pub with_manifest : TrainerMain → ℕ → Bool → Disk → Disk
  with_manifest t version sane d =
      let info : CheckpointInfo = record {
        version = version;
        action_frame = cfg.action_frame;
        action_space = cfg.action_space;
        sanity_ok = sane;
        sha256 = torch.digest t.net;
      } in
      record d {
        store = write_manifest d.store info;
        lineages =
            insert version
              (record {
                parent_version = t.parent_version;
                trained_on_frames = t.trained_on_frames;
                trained_on_episodes = t.index.episodes;
              })
              d.lineages;
      }

  -- The directory after the files of a checkpoint, and `LATEST` only for a sane one.
  unfoldable pub write_files : TrainerMain → ℕ → Bool → Stage → Disk
  write_files t version sane at_directory = t.disk
  write_files t version sane at_bundle = with_directory version t.disk
  write_files t version sane at_state = with_bundle t version (with_directory version t.disk)
  write_files t version sane at_manifest =
      with_state t version (with_bundle t version (with_directory version t.disk))
  write_files t version sane at_latest =
      with_manifest t version sane
        (with_state t version (with_bundle t version (with_directory version t.disk)))
  write_files t version sane all_written =
      let d =
        with_manifest t version sane
          (with_state t version (with_bundle t version (with_directory version t.disk))) in
      record d { store = if sane then advance_latest d.store version else d.store }

  abbrev pub is_throttled : Option ℕ → ℕ → Bool
  is_throttled none now = false
  is_throttled (some ts) now = ltb now (ts + cfg.push_period)

  -- What is noted once the manifest is written.
  abbrev pub noted : TrainerMain → ℕ → ℕ → TrainerMain
  noted t version now = record t {
    parent_version = some version;
    last_ckpt_version = some version;
    last_ckpt_ts = some now;
    index = mark_checkpoint t.index;
  }

  abbrev pub after_files : TrainerMain → ℕ → ℕ → Bool → Stage → TrainerMain × Bool
  after_files t version now sane all_written = (noted t version now, true)
  after_files t version now sane at_latest = (noted t version now, not sane)
  after_files t version now sane _ = (t, false)

  unfoldable pub written : TrainerMain → Bool → ℕ → (ℕ → Stage) → TrainerMain × Bool
  written t sane now reaches =
      let version = suc t.version in
      after_files
        (record t { version = version; disk = write_files t version sane (reaches version) })
        version now sane (reaches version)

  unfoldable pub write_checkpoint : TrainerMain → Bool → ℕ → (ℕ → Stage) → TrainerMain × Bool
  write_checkpoint t sane now reaches =
      if is_throttled t.last_ckpt_ts now then (t, true) else written t sane now reaches

  -- `_train_burst`, between the end of the burst and the sanity gate.
  unfoldable pub trained : TrainerMain → Tuning × BurstStats → TrainerMain
  trained t (tuned, stats) =
      let consumed = t.new_label_frames in
      record t {
        state = idle;
        net = tuned.net;
        opt = tuned.opt;
        steps_total = t.steps_total + stats.n_steps;
        last_burst_loss = some stats.mean_loss;
        trained_on_frames = t.trained_on_frames + consumed;
        new_label_frames = 0;
      }

  -- After a burst that raised, the process ends with `state` still `training`.
  unfoldable pub after_burst :
      TrainerMain → ℕ → (ℕ → Stage) → Option (Tuning × BurstStats) → TrainerMain × Bool
  after_burst t now reaches none = (record t { state = training }, false)
  after_burst t now reaches (some done) =
      let u = trained t done in
      write_checkpoint u (sanity_ok torch cfg.hundredth cfg.held_out_frames u.index u.net done.1)
        now reaches

  -- The source's argument `force` is read nowhere.
  unfoldable pub train_burst : TrainerMain → ℕ → (ℕ → Stage) → TrainerMain × Bool
  train_burst t now reaches =
      if n_frames t.index == 0
      then (t, true)
      else after_burst t now reaches
          (burst torch t.index cfg.batch_size t.net t.opt (clip_burst_steps t.new_label_frames))

  -- Any exception on the way is answered; the index stays as far as it came.
  abbrev pub submitted : TrainerMain → LabelIndex × Option ℕ → TrainerMain × Reply
  submitted t (index, none) = (record t { index = index }, failed)
  submitted t (index, some n) = (
    record t { index = index; new_label_frames = t.new_label_frames + n; boundary_pending = true },
    labels_now (t.new_label_frames + n),
  )

  abbrev pub submit_rows : TrainerMain → ℤ → ℕ → Option (List SpoolRow) → TrainerMain × Reply
  submit_rows t episode_index episode_id none = (t, failed)
  submit_rows t episode_index episode_id (some rows) =
      submitted t (add_episode t.index episode_index rows episode_id)

  unfoldable pub roll_back_to : TrainerMain → ℕ → TrainerMain × Reply
  roll_back_to t version =
      let (u, ok) = load_weights_version t version in
      if ok
      then (record (load_trainer_state u version) { parent_version = some version }, is_ok true)
      else (u, is_ok false)

  -- The state and the reply, or `none` where it raised.
  unfoldable pub handle : TrainerMain → Turn → Request → TrainerMain × Option Reply
  handle t i ask_status =
      let u = record t { last_status_poll = i.handled_at } in (u, some (status_is (status u)))
  handle t i (submit_episode path episode_index episode_id) =
      let (u, payload) = submit_rows t episode_index episode_id (i.spool path) in (u, some payload)
  handle t i train_now =
      let (u, ok) = train_burst t i.handled_at i.reaches in
      (u, if ok then some (is_ok true) else none)
  handle t i (roll_back none) = (t, none)
  handle t i (roll_back (some (pos version))) =
      let (u, payload) = roll_back_to t version in (u, some payload)
  handle t i (roll_back (some (negsuc n))) = (t, some (is_ok false))
  handle t i stop = (record t { stops = true }, some (is_ok true))
  handle t i unknown = (t, some unknown_cmd)

  abbrev pub replied : Turn → TrainerMain × Option Reply → TrainerMain × Bool
  replied i (u, none) = (u, false)
  replied i (u, some payload) = (record u { control = reply u.control payload i.sends }, true)

  abbrev pub answer : TrainerMain → Turn → Option Request → TrainerMain × Bool
  answer t i none = (t, true)
  answer t i (some req) = replied i (handle t i req)

  abbrev pub at_boundary : Turn → TrainerMain × Bool → TrainerMain × Bool
  at_boundary i (t, false) = (t, false)
  at_boundary i (t, true) =
      if t.boundary_pending && leb cfg.min_new_labels t.new_label_frames
      then train_burst (record t { boundary_pending = false }) i.trained_at i.reaches
      else (t, true)

  abbrev pub on_poll :
      TrainerMain → Turn → Option (ControlEndpoint × Option Request) → TrainerMain × Bool
  on_poll t i none = (t, false)
  on_poll t i (some (control, req)) = at_boundary i (answer (record t { control = control }) i req)

  -- One turn of the loop of `run`.
  unfoldable pub turn : TrainerMain → Turn → TrainerMain × Bool
  turn t i = on_poll t i (poll t.control i.received)

  abbrev pub is_orphan : TrainerMain → Turn → Bool
  is_orphan t i = ltb (t.last_status_poll + cfg.orphan_timeout) i.checked_at

  -- The loop over the turns that the process lives to see.
  unfoldable pub run : TrainerMain → List Turn → TrainerMain × Bool
  run t [] = (t, true)
  run t (i ∷ is) =
      let (u, ok) = turn t i in
      let rest = run u is in
      if t.stops
      then (t, true)
      else if not ok
      then (u, false)
      else if is_orphan u i
      then (u, true)
      else rest
