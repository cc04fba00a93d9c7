-- ===== src/RecorderThread/State.antt =====
-- The recorder thread's data, and what it asks of its surroundings.
use apollo_mavis_v2_runtime.ActionFilter.{ActionFilter, ActionFilterConfig, Capture}
use apollo_mavis_v2_runtime.ActionFilter as Filter
use apollo_mavis_v2_runtime.Prelude.{ℕ, Bool, true, false, List, [], ◌∷◌, ◌++◌, Option, none}

pub data EpisodeState : Type 0 where
  idle recording saving : EpisodeState

-- The one operation that waits for the thread.
pub data Op : Type 0 where
  save discard : Op

-- Why an episode was discarded: by the operator, with nothing to save, at the session's end, or
-- after the second failed save.
pub data Reason : Type 0 where
  operator empty_episode session_teardown save_failed_twice : Reason

pub data Detail : Type 0 where
  blank degraded_detail empty_discarded : Detail
  returning_detail : ℕ → Detail

pub data Effect : Type 0 where
  started prepared discarded finalized audio_begun audio_aborted : Effect
  frame_added : (prev cur : Capture) → Effect
  save_tried : (frames : ℕ) → Effect
  saved_hook : (index id : ℕ) → Effect
  discarded_hook : (index id : Option ℕ) → Reason → Effect
  saved_done : (index : ℕ) → Effect
  discarded_done : Effect

pub record RecorderThread : Type 0 where
  pub has_audio : Bool
  pub has_extrinsics : Bool
  pub max_frame_age_s : ℕ
  pub filter : ActionFilter
  pub pending_prepare : Bool
  pub state : EpisodeState
  pub pending_op : Option Op
  pub returning : Bool
  pub detail : Detail
  pub episode_index : Option ℕ
  pub last_saved_index : Option ℕ
  pub last_saved_id : Option ℕ
  pub frames : ℕ
  pub frames_dropped : ℕ
  pub frames_dropped_total : ℕ
  pub degraded : Bool
  pub pending : Option Capture
  pub need_extrinsics : Bool
  pub episode_extrinsics : Option ℕ  -- `none` is the empty dictionary
  pub last_snap_tick : Option ℕ  -- `none` is the initial -1, below every tick
  pub last_wallclock : Option ℕ
  pub shutdown_done : Bool
  pub effects : List Effect

unfoldable pub init :
    ActionFilterConfig
    → (arms : List ℕ) → (audio extrinsics : Bool) → (max_age : ℕ) → RecorderThread
unfolding Filter.init
init cfg arms audio extrinsics max_age = record {
  has_audio = audio;
  has_extrinsics = extrinsics;
  max_frame_age_s = max_age;
  filter = Filter.init cfg arms;
  pending_prepare = false;
  state = idle;
  pending_op = none;
  returning = false;
  detail = blank;
  episode_index = none;
  last_saved_index = none;
  last_saved_id = none;
  frames = 0;
  frames_dropped = 0;
  frames_dropped_total = 0;
  degraded = false;
  pending = none;
  need_extrinsics = false;
  episode_extrinsics = none;
  last_snap_tick = none;
  last_wallclock = none;
  shutdown_done = false;
  effects = [];
}

unfoldable pub does : RecorderThread → List Effect → RecorderThread
does t es = record t { effects = t.effects ++ es }

abbrev pub is_idle : EpisodeState → Bool
is_idle idle = true
is_idle _ = false

abbrev pub is_recording : EpisodeState → Bool
is_recording recording = true
is_recording _ = false

-- The call of the audio sink, where there is one.
abbrev pub audio_call : Bool → Effect → List Effect
audio_call true e = e ∷ []
audio_call false e = []
