-- ===== src/RecorderThread/Ends.antt =====
-- What each part of an iteration does to the episode that is open.
use apollo_mavis_v2_runtime.ActionFilter.{ActionFilterConfig, Capture}
use apollo_mavis_v2_runtime.ActionFilter as Filter
use apollo_mavis_v2_runtime.Prelude.{
  ℕ, ◌+◌, ◌≡◌, refl, ◌∙◌, Bool, true, false, List, [], ◌∷◌, ◌++◌, Option, none, some, ℤ, arith,
}
use apollo_mavis_v2_runtime.RecorderThread.Iteration.{
  add_frame, newest, Snapshot, Surroundings, capture_from, degrade_after_failed_save, do_discard,
  emit, emit_all, finish_save, take_capture, with_extrinsics,
}
use apollo_mavis_v2_runtime.RecorderThread.State.{
  Effect, frame_added, EpisodeState, RecorderThread, Reason, audio_aborted, audio_begun, audio_call,
  discarded_hook, does, idle, saved_hook, started, discarded, discarded_done, save_failed_twice,
  saved_done,
}

abbrev pub begun : List Effect → ℕ
begun [] = 0
begun (started ∷ es) = 1 + begun es
begun (_ ∷ es) = begun es

-- The episodes that the hooks were told to be saved or discarded.
abbrev pub ended : List Effect → ℕ
ended [] = 0
ended (saved_hook index id ∷ es) = 1 + ended es
ended (discarded_hook index id reason ∷ es) = 1 + ended es
ended (_ ∷ es) = ended es

pub begun-append : (es fs : List Effect) → begun (es ++ fs) ≡ begun es + begun fs
begun-append [] fs = omega arith
begun-append (started ∷ es) fs = omega (arith, begun-append es fs)
begun-append (_ ∷ es) fs = begun-append es fs

pub ended-append : (es fs : List Effect) → ended (es ++ fs) ≡ ended es + ended fs
ended-append [] fs = omega arith
ended-append (saved_hook index id ∷ es) fs = omega (arith, ended-append es fs)
ended-append (discarded_hook index id reason ∷ es) fs = omega (arith, ended-append es fs)
ended-append (_ ∷ es) fs = ended-append es fs

abbrev pub open_episodes : EpisodeState → ℕ
open_episodes idle = 0
open_episodes _ = 1

abbrev pub Quiet : List Effect → Type 0
Quiet es = (begun es ≡ 0) × (ended es ≡ 0)

pub audio_call-Quiet :
    (b : Bool) → Quiet (audio_call b audio_aborted) × Quiet (audio_call b audio_begun)
audio_call-Quiet true = ((refl, refl), (refl, refl))
audio_call-Quiet false = ((refl, refl), (refl, refl))

-- A change that begins and ends no episode.
abbrev pub SameEpisode : RecorderThread → RecorderThread → Type 0
SameEpisode t t' =
    (begun t'.effects ≡ begun t.effects)
    × (ended t'.effects ≡ ended t.effects)
    × (t'.state ≡ t.state)
    × (t'.pending_op ≡ t.pending_op)
    × (t'.degraded ≡ t.degraded)

pub emit-SameEpisode :
    (t : RecorderThread) (adds : Capture → Bool) (c : Capture) → SameEpisode t (emit t adds c)
unfolding emit does
emit-SameEpisode t adds c = add t.pending
  where
    add :
        (prev : Option Capture)
        → SameEpisode t (record (add_frame t adds prev c) { pending = some c })
    add none = (refl, refl, refl, refl, refl)
    add (some prev) =
        let wrote = frame_added prev c ∷ [] in
        ground (arith, begun-append t.effects wrote, ended-append t.effects wrote)

pub emit_all-SameEpisode :
    (t : RecorderThread) (adds : Capture → Bool) (cs : List Capture)
    → SameEpisode t (emit_all t adds cs)
unfolding emit_all
emit_all-SameEpisode t adds [] = (refl, refl, refl, refl, refl)
emit_all-SameEpisode t adds (c ∷ cs) =
    let e = emit-SameEpisode t adds c in
    let r = emit_all-SameEpisode (emit t adds c) adds cs in
    (r.0 ∙ e.0, r.1 ∙ e.1, r.2 ∙ e.2, r.3 ∙ e.3, r.4 ∙ e.4)

-- An end of the open episode: by a hook, after which the thread is idle.
abbrev pub Ends : RecorderThread → RecorderThread → Type 0
Ends t t' =
    (begun t'.effects ≡ begun t.effects)
    × (ended t'.effects ≡ ended t.effects + 1)
    × (t'.state ≡ idle)
    × (t'.pending_op ≡ none)

pub do_discard-Ends :
    (t : RecorderThread) (reason : Reason) (id : Option ℕ) → Ends t (do_discard t reason id)
unfolding do_discard does
do_discard-Ends t reason id =
    let tail = audio_call t.has_audio audio_aborted ++ discarded_done ∷ [] in
    let told = discarded ∷ discarded_hook t.episode_index id reason ∷ tail in
    ground (
      arith,
      begun-append t.effects told,
      ended-append t.effects told,
      begun-append (audio_call t.has_audio audio_aborted) (discarded_done ∷ []),
      ended-append (audio_call t.has_audio audio_aborted) (discarded_done ∷ []),
      audio_call-Quiet t.has_audio,
    )

pub degrade-Ends : (t : RecorderThread) (id : Option ℕ) → Ends t (degrade_after_failed_save t id)
unfolding degrade_after_failed_save does
degrade-Ends t id =
    let told =
      discarded_hook t.episode_index id save_failed_twice ∷ audio_call t.has_audio audio_aborted in
    ground (
      arith,
      begun-append t.effects told,
      ended-append t.effects told,
      audio_call-Quiet t.has_audio,
    )

pub finish_save-Ends : (t : RecorderThread) (index id : ℕ) → Ends t (finish_save t index id)
unfolding finish_save does
finish_save-Ends t index id =
    let told = saved_hook index id ∷ saved_done index ∷ [] in
    ground (arith, begun-append t.effects told, ended-append t.effects told)

module _ (rotation_angle : List ℤ → List ℤ → ℕ) where
  pub take_capture-SameEpisode :
      (t : RecorderThread) (s : Surroundings) (c : Capture)
      → SameEpisode t (take_capture rotation_angle t s c)
  unfolding take_capture
  take_capture-SameEpisode t s c =
      let t' = with_extrinsics t s.extrinsics in
      let pushed = Filter.push rotation_angle t'.filter c in
      let u = record t' {
        last_snap_tick = some c.tick;
        last_wallclock = some c.wallclock_ns;
        filter = pushed.0;
      } in
      ground (arith, emit_all-SameEpisode u s.adds pushed.1)

  pub capture_from-SameEpisode :
      (t : RecorderThread) (s : Surroundings) (snap : Option Snapshot)
      → SameEpisode t (capture_from rotation_angle t s snap)
  unfolding capture_from
  capture_from-SameEpisode t s none = (refl, refl, refl, refl, refl)
  capture_from-SameEpisode t s (some snap) = ground (
    arith,
    take_capture-SameEpisode t s
        (record snap.capture { wallclock_ns = newest snap.stamp snap.stamps }),
  )
