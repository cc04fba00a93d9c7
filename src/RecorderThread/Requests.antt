-- ===== src/RecorderThread/Requests.antt =====
-- The operations that other threads call.
use apollo_mavis_v2_runtime.ActionFilter as Filter
use apollo_mavis_v2_runtime.Prelude.{
  ℕ, ◌+◌, Bool, true, not, ◌&&◌, ◌∷◌, Option, none, some, ltb, ◌==◌, if◌then◌else◌, length,
}
use apollo_mavis_v2_runtime.RecorderThread.State.{
  EpisodeState, Op, RecorderThread, audio_begun, audio_call, blank, discard, does, is_idle,
  is_recording, recording, returning_detail, save, saving, started,
}

pub data Request : Type 0 where
  new_episode save_episode discard_episode unknown_op : Request

pub data Refusal : Type 0 where
  is_degraded is_returning start_failed no_frames not_an_op : Refusal
  busy : Op → Refusal
  in_state : EpisodeState → Refusal

-- What the recorder answers to a new episode: whether it starts, and how many were saved.
pub record Answer : Type 0 where
  pub starts : Bool
  pub episodes_saved : ℕ

unfoldable pub begin : RecorderThread → ℕ → RecorderThread
unfolding Filter.reset does
begin t index =
    does
      (record t {
        episode_index = some index;
        frames = 0;
        frames_dropped = 0;
        pending = none;
        need_extrinsics = true;
        episode_extrinsics = none;
        filter = Filter.reset t.filter;
        pending_prepare = true;
        state = recording;
        detail = blank;
      })
      (started ∷ audio_call t.has_audio audio_begun)

unfoldable pub request_new : RecorderThread → Answer → RecorderThread × Option Refusal
unfolding begin
request_new t a =
    if not (is_idle t.state)
    then (t, some (in_state t.state))
    else if t.returning
    then (t, some is_returning)
    else if not a.starts
    then (t, some start_failed)
    else (begin t a.episodes_saved, none)

abbrev pub waiting : Option Filter.Capture → ℕ
waiting none = 0
waiting (some c) = 1

unfoldable pub request_save : RecorderThread → RecorderThread × Option Refusal
request_save t =
    if not (is_recording t.state)
    then (t, some (in_state t.state))
    else if t.frames == 0 && ltb (length t.filter.buffer + waiting t.pending) 2
    then (t, some no_frames)
    else (record t { state = saving; pending_op = some save }, none)

unfoldable pub request_discard : RecorderThread → RecorderThread × Option Refusal
request_discard t =
    if not (is_recording t.state)
    then (t, some (in_state t.state))
    else (record t { state = saving; pending_op = some discard }, none)

abbrev pub request_op : RecorderThread → Request → Answer → RecorderThread × Option Refusal
request_op t new_episode a = request_new t a
request_op t save_episode a = request_save t
request_op t discard_episode a = request_discard t
request_op t unknown_op a = (t, some not_an_op)

abbrev pub unless_busy :
    RecorderThread → Option Op → Request → Answer → RecorderThread × Option Refusal
unless_busy t (some op) r a = (t, some (busy op))
unless_busy t none r a = request_op t r a

-- The refusal, or `none` where the request is accepted.
unfoldable pub request : RecorderThread → Request → Answer → RecorderThread × Option Refusal
request t r a = if t.degraded then (t, some is_degraded) else unless_busy t t.pending_op r a

unfoldable pub set_returning : RecorderThread → Bool → ℕ → RecorderThread
set_returning t active detail = record t { returning = active; detail = returning_detail detail }

-- `status().state`
pub data Shown : Type 0 where
  shown : EpisodeState → Shown
  shown_returning : Shown

unfoldable pub shown_state : RecorderThread → Shown
shown_state t = if is_idle t.state && t.returning then shown_returning else shown t.state

-- `status().index`
unfoldable pub shown_index : RecorderThread → Option ℕ
shown_index t = if is_idle t.state then t.last_saved_index else t.episode_index

-- `open_episode_id`, where the recorder's id is given
unfoldable pub open_episode_id : RecorderThread → Option ℕ → Option ℕ
open_episode_id t id = if is_idle t.state then none else id
