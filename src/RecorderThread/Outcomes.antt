-- ===== src/RecorderThread/Outcomes.antt =====
-- How a waiting operation comes out, what a request may do, and what failures leave.
use apollo_mavis_v2_runtime.ActionFilter.{ActionFilterConfig, Capture}
use apollo_mavis_v2_runtime.ActionFilter as Filter
use apollo_mavis_v2_runtime.Prelude.{
  ℕ, ◌+◌, ◌≡◌, ◌≢◌, refl, true, false, ◌&&◌, List, [], ◌∷◌, ◌++◌, Option, none, some, ℤ, arith,
  Bool-cases, inl, inr, ◌==◌,
}
use apollo_mavis_v2_runtime.RecorderThread.Ends.{
  Ends, audio_call-Quiet, begun, begun-append, degrade-Ends, do_discard-Ends, emit_all-SameEpisode,
  ended, ended-append, finish_save-Ends,
}
use apollo_mavis_v2_runtime.RecorderThread.Iteration.{
  Call, Surroundings, degrade_after_failed_save, do_save, emit_all, finalize_calls, iterates,
  prepare_call, requests, returns, run, run_iteration, save_again, save_once, shutdown, shuts_down,
  step, teardown_hook, work,
}
use apollo_mavis_v2_runtime.RecorderThread.Requests.{
  Answer, Request, begin, is_degraded, new_episode, request, request_discard, request_new,
  request_save, set_returning,
}
use apollo_mavis_v2_runtime.RecorderThread.State.{
  Effect, Op, RecorderThread, audio_aborted, audio_call, discard, discarded, does, empty_episode,
  idle, is_recording, operator, recording, save, save_tried, saving,
}

-- One effect of no episode's begin or end, and then an end.
does-Ends :
    (t t' : RecorderThread) (e : Effect)
    → begun (e ∷ []) ≡ 0
    → ended (e ∷ []) ≡ 0
    → Ends (does t (e ∷ [])) t'
    → Ends t t'
unfolding does
does-Ends t t' e b f h =
    ground (arith, b, f, h, begun-append t.effects (e ∷ []), ended-append t.effects (e ∷ []))

save_again-Ends :
    (t : RecorderThread) (id : Option ℕ) (second : Option (ℕ × ℕ)) → Ends t (save_again t id second)
save_again-Ends t id none = degrade-Ends t id
save_again-Ends t id (some (index, saved)) = finish_save-Ends t index saved

save_once-Ends :
    (t : RecorderThread) (id : Option ℕ) (first second : Option (ℕ × ℕ))
    → Ends t (save_once t id first second)
save_once-Ends t id (some (index, saved)) second = finish_save-Ends t index saved
save_once-Ends t id none second =
    does-Ends t (save_again (does t (save_tried t.frames ∷ [])) id second) (save_tried t.frames)
      refl refl (save_again-Ends (does t (save_tried t.frames ∷ [])) id second)

module _ (rotation_angle : List ℤ → List ℤ → ℕ) where
  do_save-Ends : (t : RecorderThread) (s : Surroundings) → Ends t (do_save rotation_angle t s)
  unfolding do_save
  do_save-Ends t s =
      let flushed = Filter.flush rotation_angle t.filter in
      let t' = emit_all (record t { filter = flushed.0 }) s.adds flushed.1 in
      let e = emit_all-SameEpisode (record t { filter = flushed.0 }) s.adds flushed.1 in
      let tried =
        does-Ends t'
          (save_once (does t' (save_tried t'.frames ∷ [])) s.episode_id s.first_save s.second_save)
          (save_tried t'.frames) refl refl
          (save_once-Ends (does t' (save_tried t'.frames ∷ [])) s.episode_id s.first_save
            s.second_save) in
      elim (Bool-cases (t'.frames == 0)) [
        | inl nothing ↦
            rw nothing (ground (arith, e, do_discard-Ends t' empty_episode s.episode_id))
        | inr some_frames ↦ rw some_frames (ground (arith, e, tried))
      ]

  work-Ends :
      (t : RecorderThread) (op : Option Op) (s : Surroundings)
      → op ≢ none
      → Ends t (work rotation_angle t op s)
  work-Ends t none s waits = absurd (waits refl)
  work-Ends t (some save) s waits = do_save-Ends t s
  work-Ends t (some discard) s waits = do_discard-Ends t operator s.episode_id

  -- A save or a discard that waits is done within one iteration, whatever the recorder, the hooks and
  -- the cameras do: afterwards the thread is idle, nothing waits, and exactly one end was told.
  pub run_iteration-Ends :
      (t : RecorderThread) (s : Surroundings)
      → t.pending_op ≢ none
      → let t' = run_iteration rotation_angle t s in
        (begun t'.effects ≡ begun t.effects)
        × (ended t'.effects ≡ ended t.effects + 1)
        × (t'.state ≡ idle)
        × (t'.pending_op ≡ none)
  unfolding run_iteration
  run_iteration-Ends t s waits =
      let calls = prepare_call (t.pending_prepare && is_recording t.state) in
      let t' = does (record t { pending_prepare = false }) calls in
      let w : Ends t' (work rotation_angle t' t.pending_op s) = work-Ends t' t.pending_op s waits in
      unfold does in ground (arith, w, begun-append t.effects calls, ended-append t.effects calls)

  -- Recording was given up, and nothing is under way.
  abbrev IsOff : RecorderThread → RecorderThread → Type 0
  IsOff t t' =
      (t'.degraded ≡ true)
      × (t'.state ≡ idle)
      × (t'.pending_op ≡ none)
      × (t'.frames ≡ t.frames)
      × (begun t'.effects ≡ begun t.effects)

  step-IsOff : (t t' : RecorderThread) (c : Call) → IsOff t t' → IsOff t (step rotation_angle t' c)
  unfolding step set_returning request run_iteration shutdown does
  step-IsOff t t' (requests r a) v = ground (arith, v)
  step-IsOff t t' (returns active detail) v = v
  step-IsOff t t' (iterates s) v = ground (arith, v, begun-append t'.effects [])
  step-IsOff t t' (shuts_down id finalizes) v =
      let told =
        audio_call t'.has_audio audio_aborted
        ++ discarded ∷ []
        ++ teardown_hook t' id
        ++ finalize_calls finalizes in
      ground (
        arith,
        v,
        begun-append t'.effects told,
        begun-append (audio_call t'.has_audio audio_aborted)
            (discarded ∷ [] ++ teardown_hook t' id ++ finalize_calls finalizes),
        begun-append (teardown_hook t' id) (finalize_calls finalizes),
        audio_call-Quiet t'.has_audio,
      )

  run-IsOff :
      (t t' : RecorderThread) (cs : List Call) → IsOff t t' → IsOff t (run rotation_angle t' cs)
  unfolding run
  run-IsOff t t' [] v = v
  run-IsOff t t' (c ∷ cs) v = run-IsOff t (step rotation_angle t' c) cs (step-IsOff t t' c v)

  -- After the second failed save recording is off for good: through any calls every request is
  -- refused, no episode begins and no frame is added.
  pub degrade-run :
      (t : RecorderThread) (id : Option ℕ) (cs : List Call) (r : Request) (a : Answer)
      → let off = degrade_after_failed_save t id in
        let t' = run rotation_angle off cs in
        (request t' r a ≡ (t', some is_degraded))
        × (begun t'.effects ≡ begun t.effects)
        × (t'.frames ≡ t.frames)
  unfolding request
  degrade-run t id cs r a =
      let off = degrade_after_failed_save t id in
      let v : IsOff off off =
        unfold degrade_after_failed_save does in (refl, refl, refl, refl, refl) in
      let w = run-IsOff off off cs v in
      let same_frames : off.frames ≡ t.frames = unfold degrade_after_failed_save does in refl in
      ground (arith, w, same_frames, degrade-Ends t id)

-- A refused request changes nothing, and one that is accepted found the thread neither degraded nor
-- busy: a new episode found it idle with no return motion, the others found it recording.
pub request_lem :
    (t : RecorderThread) (r : Request) (a : Answer)
    → let o = request t r a in
      (o.1 ≢ none → o.0 ≡ t)
      × (o.1 ≡ none → (t.degraded ≡ false) × (t.pending_op ≡ none))
      × (o.1 ≡ none
          → r ≡ new_episode
          → (t.state ≡ idle) × (t.returning ≡ false) × (o.0.state ≡ recording))
      × (o.1 ≡ none → r ≢ new_episode → (t.state ≡ recording) × (o.0.state ≡ saving))
unfolding request request_new request_save request_discard begin does
request_lem t r a = ground arith
