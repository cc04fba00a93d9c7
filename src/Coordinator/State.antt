-- ===== src/Coordinator/State.antt =====
-- The coordinator's data, its log and its side effects.
use apollo_mavis_v2_runtime.Prelude.{
  ℕ, ◌+◌, Bool, true, false, List, [], ◌∷◌, ◌++◌, Option, none, some, ltb, leb, if◌then◌else◌,
  length, last, max,
}

pub data TrainerState : Type 0 where
  idle preparing training ready error : TrainerState

pub data Phase : Type 0 where
  waiting_trainer rollout training error : Phase

unfoldable pub TrainerState-discrete : Discrete TrainerState
TrainerState-discrete = hlevel

-- The core's `TrainerStatusAnnounce`; `progress` in per cent.
pub record TrainerStatus : Type 0 where
  pub session_id : Option ℕ
  pub state : TrainerState
  pub detail : List ℕ
  pub progress : ℕ
  pub policy_version : ℕ

pub data LogState : Type 0 where
  reported : TrainerState → LogState
  swapped : (old new : ℕ) → LogState

pub record LogRow : Type 0 where
  pub at : ℕ
  pub state : LogState
  pub policy_version : ℕ
  pub detail : List ℕ

pub record Rollout : Type 0 where
  pub episode_id : ℕ
  pub saved_at : ℕ
  pub novice : ℕ
  pub expert : ℕ
  pub policy_version : Option ℕ
  pub spool_path : Option ℕ

-- The `online_dagger` block of an `episode_saved` event.
pub record Block : Type 0 where
  pub episode_id : ℕ
  pub rollouts_saved : ℕ
  pub novice : ℕ
  pub expert : ℕ
  pub policy_version : Option ℕ
  pub spool_path : Option ℕ

pub data Event : Type 0 where
  episode_saved : (index : ℕ) → Block → Event
  episode_discarded : (index id : Option ℕ) → (reason : List ℕ) → Event
  gate : (payload : ℕ) → Event
  train_now : (rollouts_saved : ℕ) → Event

-- `session.json`, without the fields that the coordinator only copies into it.
pub record SessionJson : Type 0 where
  pub created_at : ℕ
  pub session_id : ℕ
  pub rollouts : List Rollout
  pub trainer_log : List LogRow
  pub phase : Phase
  pub rollouts_saved : ℕ
  pub expert_frames_session : ℕ
  pub novice_frames_session : ℕ
  pub last_used_at : ℕ

pub record Config : Type 0 where
  pub wait_for_trainer_ready : Bool
  pub pause_while_training : Bool
  pub session_id : ℕ
  pub spec_stale_s : ℕ
  pub write_period : ℕ

pub record Coordinator : Type 0 where
  pub cfg : Config
  pub created_at : ℕ
  pub phase : Phase
  pub rollouts_saved : ℕ
  pub expert_frames_session : ℕ
  pub novice_frames_session : ℕ
  pub rollouts : List Rollout
  pub trainer_log : List LogRow
  pub trainer : Option TrainerStatus
  pub trainer_t : Option ℕ
  pub logged_state : Option TrainerState
  pub trainer_seen_ready : Bool
  pub policy_version_acting : Option ℕ
  pub last_write_t : Option ℕ  -- `none` is the initial -1e9, before every reading of the clock
  pub started : Bool
  pub resumed : Bool
  pub events_published : ℕ
  pub published : List Event
  pub handed : List SessionJson  -- what `write_session` was given, oldest first

abbrev pub trainer_log_max : ℕ
trainer_log_max = 200

abbrev pub start_phase : Config → Phase
start_phase cfg = if cfg.wait_for_trainer_ready then waiting_trainer else rollout

-- The constructor.
unfoldable pub init : Config → Option ℕ → ℕ → Coordinator
init cfg policy_version wall = record {
  cfg = cfg;
  created_at = wall;
  phase = start_phase cfg;
  rollouts_saved = 0;
  expert_frames_session = 0;
  novice_frames_session = 0;
  rollouts = [];
  trainer_log = [];
  trainer = none;
  trainer_t = none;
  logged_state = none;
  trainer_seen_ready = false;
  policy_version_acting = policy_version;
  last_write_t = none;
  started = false;
  resumed = false;
  events_published = 0;
  published = [];
  handed = [];
}

unfoldable pub to_session_json : Coordinator → ℕ → SessionJson
to_session_json c wall = record {
  created_at = c.created_at;
  session_id = c.cfg.session_id;
  rollouts = c.rollouts;
  trainer_log = last trainer_log_max c.trainer_log;
  phase = c.phase;
  rollouts_saved = c.rollouts_saved;
  expert_frames_session = c.expert_frames_session;
  novice_frames_session = c.novice_frames_session;
  last_used_at = wall;
}

-- `_emit`
unfoldable pub emit : Coordinator → List Event → Bool → ℕ → ℕ → Coordinator
unfolding to_session_json
emit c events write now wall =
    let c' = record c {
      published = c.published ++ events;
      events_published = c.events_published + length events;
    } in
    if write
    then record c' { last_write_t = some now; handed = c'.handed ++ to_session_json c' wall ∷ [] }
    else c'

abbrev pub is_due : Option ℕ → ℕ → ℕ → Bool
is_due none period now = true
is_due (some t) period now = leb (t + period) now

-- `_write_due`
unfoldable pub write_due : Coordinator → ℕ → Bool
write_due c now = is_due c.last_write_t c.cfg.write_period now

-- `_log`: only the newest rows stay.
unfoldable pub log : Coordinator → LogRow → Coordinator
log c row =
    let rows = c.trainer_log ++ row ∷ [] in
    record c {
      trainer_log = if ltb trainer_log_max (length rows) then last trainer_log_max rows else rows;
    }

unfoldable pub on_session_start : Coordinator → ℕ → ℕ → Coordinator
on_session_start c now wall = emit (record c { started = true }) [] true now wall

unfoldable pub close : Coordinator → ℕ → ℕ → Coordinator
close c now wall = emit c [] true now wall

-- `from_session_json`, of a file that `to_session_json` wrote.
unfoldable pub from_session_json : Coordinator → SessionJson → Coordinator
from_session_json c doc = record c {
  resumed = true;
  created_at = doc.created_at;
  rollouts = doc.rollouts;
  trainer_log = last trainer_log_max doc.trainer_log;
  rollouts_saved = max doc.rollouts_saved (length doc.rollouts);
  expert_frames_session = doc.expert_frames_session;
  novice_frames_session = doc.novice_frames_session;
  phase = start_phase c.cfg;
  trainer_seen_ready = false;
}
