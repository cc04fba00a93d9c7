-- ===== src/RecorderThread/Iteration.antt =====
-- One paced iteration of the thread, and its shutdown.
use apollo_mavis_v2_runtime.ActionFilter.{ActionFilter, Capture}
use apollo_mavis_v2_runtime.ActionFilter as Filter
use apollo_mavis_v2_runtime.Prelude.{
  ℕ, ◌+◌, Bool, true, false, not, ◌&&◌, List, [], ◌∷◌, ◌++◌, Option, none, some, leb, ◌==◌,
  if◌then◌else◌, all, max, ℤ,
}
use apollo_mavis_v2_runtime.RecorderThread.Requests.{Answer, Request, request, set_returning}
use apollo_mavis_v2_runtime.RecorderThread.State.{
  Detail, Effect, Op, RecorderThread, Reason, audio_aborted, audio_call, degraded_detail, discard,
  discarded, discarded_done, discarded_hook, does, empty_discarded, empty_episode, finalized,
  frame_added, idle, is_idle, is_recording, operator, prepared, save, save_failed_twice, save_tried,
  saved_done, saved_hook, session_teardown,
}

-- A snapshot of the control loop: the capture that is built of it, but for the arms' stamps.
pub record Snapshot : Type 0 where
  pub capture : Capture
  pub stamp : ℕ
  pub stamps : List ℕ

-- What the surroundings answer during one iteration.
pub record Surroundings : Type 0 where
  pub now : ℕ
  pub snapshot : Option Snapshot
  pub cameras : List (Option ℕ)  -- the time of each camera's latest frame
  pub extrinsics : Option ℕ  -- `none` where the function raised
  pub adds : Capture → Bool  -- whether the recorder takes the frame of this capture
  pub episode_id : Option ℕ
  pub first_save : Option (ℕ × ℕ)  -- index and id, `none` where it raised
  pub second_save : Option (ℕ × ℕ)

-- `max(st.wallclock_ns for st in snap.arms.values())`
abbrev pub newest : ℕ → List ℕ → ℕ
newest s [] = s
newest s (r ∷ rs) = newest (max s r) rs

-- The previous kept capture, if any, is written with the action to this one.
abbrev pub add_frame : RecorderThread → (Capture → Bool) → Option Capture → Capture → RecorderThread
add_frame t adds none cur = t
add_frame t adds (some prev) cur =
    if adds prev
    then does (record t { frames = t.frames + 1 }) (frame_added prev cur ∷ [])
    else record t {
      frames_dropped = t.frames_dropped + 1;
      frames_dropped_total = t.frames_dropped_total + 1;
    }

-- `_emit`
unfoldable pub emit : RecorderThread → (Capture → Bool) → Capture → RecorderThread
unfolding does
emit t adds c = record (add_frame t adds t.pending c) { pending = some c }

unfoldable pub emit_all : RecorderThread → (Capture → Bool) → List Capture → RecorderThread
unfolding emit
emit_all t adds [] = t
emit_all t adds (c ∷ cs) = emit_all (emit t adds c) adds cs

abbrev pub detail_of : Reason → Detail → Detail
detail_of empty_episode d = empty_discarded
detail_of _ d = d

-- `_do_discard`
unfoldable pub do_discard : RecorderThread → Reason → Option ℕ → RecorderThread
unfolding does Filter.reset
do_discard t reason id =
    let asked = does t (
      discarded ∷ discarded_hook t.episode_index id reason ∷ audio_call t.has_audio audio_aborted
      ++ discarded_done ∷ []) in
    record asked {
      filter = Filter.reset t.filter;
      pending_op = none;
      state = idle;
      episode_index = none;
      frames = 0;
      pending = none;
      detail = detail_of reason t.detail;
    }

unfoldable pub degrade_after_failed_save : RecorderThread → Option ℕ → RecorderThread
unfolding does
degrade_after_failed_save t id =
    let told = does t (
      discarded_hook t.episode_index id save_failed_twice ∷ audio_call t.has_audio audio_aborted) in
    record told { degraded = true; pending_op = none; state = idle; detail = degraded_detail }

unfoldable pub finish_save : RecorderThread → ℕ → ℕ → RecorderThread
unfolding does
finish_save t index id =
    let told = does t (saved_hook index id ∷ saved_done index ∷ []) in
    record told {
      pending_op = none;
      state = idle;
      last_saved_index = some index;
      last_saved_id = some id;
      episode_index = none;
      pending = none;
    }

-- The second attempt to save, and the first.
abbrev pub save_again : RecorderThread → Option ℕ → Option (ℕ × ℕ) → RecorderThread
save_again t id none = degrade_after_failed_save t id
save_again t id (some (index, saved)) = finish_save t index saved

abbrev pub save_once : RecorderThread → Option ℕ → Option (ℕ × ℕ) → Option (ℕ × ℕ) → RecorderThread
save_once t id none second = save_again (does t (save_tried t.frames ∷ [])) id second
save_once t id (some (index, saved)) second = finish_save t index saved

abbrev pub is_fresh : ℕ → ℕ → Option ℕ → Bool
is_fresh now age none = false
is_fresh now age (some at) = leb now (at + age)

abbrev pub is_same : Option ℕ → ℕ → Bool
is_same none tick = false
is_same (some last) tick = last == tick

abbrev pub is_old : Option ℕ → ℕ → Bool
is_old none wallclock = false
is_old (some last) wallclock = leb wallclock last

-- The snapshot of the extrinsics, once in an episode.
abbrev pub with_extrinsics : RecorderThread → Option ℕ → RecorderThread
with_extrinsics t extrinsics =
    if t.need_extrinsics && t.has_extrinsics
    then record t { episode_extrinsics = extrinsics; need_extrinsics = false }
    else t

abbrev pub prepare_call : Bool → List Effect
prepare_call true = prepared ∷ []
prepare_call false = []

-- The second attempt to finalize, where the first fails.
abbrev pub finalize_calls : Bool → List Effect
finalize_calls true = finalized ∷ []
finalize_calls false = finalized ∷ finalized ∷ []

abbrev pub teardown_hook : RecorderThread → Option ℕ → List Effect
teardown_hook t id =
    if is_idle t.state then [] else discarded_hook t.episode_index id session_teardown ∷ []

-- `_shutdown`
unfoldable pub shutdown : RecorderThread → Option ℕ → Bool → RecorderThread
unfolding does
shutdown t id finalizes =
    if t.shutdown_done
    then t
    else does (record t { shutdown_done = true; state = idle; pending_op = none })
        (audio_call t.has_audio audio_aborted
          ++ discarded ∷ []
          ++ teardown_hook t id
          ++ finalize_calls finalizes)

-- What happens to the thread.
pub data Call : Type 0 where
  requests : Request → Answer → Call
  returns : (active : Bool) → (detail : ℕ) → Call
  iterates : Surroundings → Call
  shuts_down : (id : Option ℕ) → (finalizes : Bool) → Call

module _ (rotation_angle : List ℤ → List ℤ → ℕ) where
  -- `_do_save`
  unfoldable pub do_save : RecorderThread → Surroundings → RecorderThread
  unfolding do_discard finish_save degrade_after_failed_save emit_all does
  do_save t s =
      let flushed = Filter.flush rotation_angle t.filter in
      let t' = emit_all (record t { filter = flushed.0 }) s.adds flushed.1 in
      if t'.frames == 0
      then do_discard t' empty_episode s.episode_id
      else save_once (does t' (save_tried t'.frames ∷ [])) s.episode_id s.first_save s.second_save

  -- The end of `_capture`, from the frames of the cameras on.
  unfoldable pub take_capture : RecorderThread → Surroundings → Capture → RecorderThread
  unfolding emit_all
  take_capture t s c =
      let t' = with_extrinsics t s.extrinsics in
      let pushed = Filter.push rotation_angle t'.filter c in
      emit_all
        (record t' {
          last_snap_tick = some c.tick;
          last_wallclock = some c.wallclock_ns;
          filter = pushed.0;
        })
        s.adds pushed.1

  unfoldable pub capture_from : RecorderThread → Surroundings → Option Snapshot → RecorderThread
  unfolding take_capture
  capture_from t s none = t
  capture_from t s (some snap) =
      let wallclock = newest snap.stamp snap.stamps in
      if is_same t.last_snap_tick snap.capture.tick
      then t
      else if is_old t.last_wallclock wallclock
      then t
      else if not (all (is_fresh s.now t.max_frame_age_s) s.cameras)
      then record t {
        frames_dropped = t.frames_dropped + 1;
        frames_dropped_total = t.frames_dropped_total + 1;
      }
      else take_capture t s (record snap.capture { wallclock_ns = wallclock })

  abbrev pub work : RecorderThread → Option Op → Surroundings → RecorderThread
  work t (some save) s = do_save t s
  work t (some discard) s = do_discard t operator s.episode_id
  work t none s = if is_recording t.state then capture_from t s s.snapshot else t

  unfoldable pub run_iteration : RecorderThread → Surroundings → RecorderThread
  unfolding do_save do_discard capture_from does
  run_iteration t s =
      let t' =
        does (record t { pending_prepare = false })
          (prepare_call (t.pending_prepare && is_recording t.state)) in
      work t' t.pending_op s

  unfoldable pub step : RecorderThread → Call → RecorderThread
  step t (requests r a) = (request t r a).0
  step t (returns active detail) = set_returning t active detail
  step t (iterates s) = run_iteration t s
  step t (shuts_down id finalizes) = shutdown t id finalizes

  unfoldable pub run : RecorderThread → List Call → RecorderThread
  run t [] = t
  run t (c ∷ cs) = run (step t c) cs
