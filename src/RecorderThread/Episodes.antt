-- ===== src/RecorderThread/Episodes.antt =====
-- Every episode that begins ends exactly once.
use apollo_mavis_v2_runtime.ActionFilter.{ActionFilterConfig, Capture}
use apollo_mavis_v2_runtime.ActionFilter as Filter
use apollo_mavis_v2_runtime.Prelude.{
  ℕ, ◌+◌, ◌≡◌, ◌≢◌, refl, Bool, true, false, ◌&&◌, List, [], ◌∷◌, ◌++◌, Option, none, some, ℤ,
  arith, Bool-cases, inl, inr, ◌==◌,
}
use apollo_mavis_v2_runtime.RecorderThread.Iteration.{
  Call, finalize_calls, teardown_hook, Surroundings, capture_from, degrade_after_failed_save,
  do_discard, do_save, emit_all, finish_save, iterates, requests, returns, run, run_iteration,
  save_again, save_once, shutdown, shuts_down, step, work, prepare_call,
}
use apollo_mavis_v2_runtime.RecorderThread.Requests.{
  Answer, Request, begin, request, request_discard, request_new, request_save, set_returning,
}
use apollo_mavis_v2_runtime.RecorderThread.State.{
  Effect, Op, RecorderThread, audio_aborted, audio_begun, audio_call, does, idle, init, started,
  is_recording, discarded, saving, save, discard, save_tried, empty_episode, operator,
}
use apollo_mavis_v2_runtime.RecorderThread.Ends.{
  begun, ended, begun-append, ended-append, open_episodes, audio_call-Quiet, SameEpisode,
  emit_all-SameEpisode, Ends, do_discard-Ends, degrade-Ends, finish_save-Ends,
  capture_from-SameEpisode,
}

-- The operation that waits belongs to an episode that is being saved.
abbrev pub IsConsistent : RecorderThread → Type 0
IsConsistent t =
    (t.state ≡ saving → t.pending_op ≢ none)
    × (t.pending_op ≢ none → t.state ≡ saving)
    × (t.degraded ≡ true → t.state ≡ idle)

-- The episodes begun are those that ended, and the one that is open.
abbrev pub IsBalanced : RecorderThread → Type 0
IsBalanced t = (begun t.effects ≡ ended t.effects + open_episodes t.state) × IsConsistent t

does-IsBalanced :
    (t : RecorderThread) (es : List Effect)
    → (begun es ≡ 0) × (ended es ≡ 0)
    → IsBalanced t
    → IsBalanced (does t es)
unfolding does
does-IsBalanced t es q v =
    ground (arith, begun-append t.effects es, ended-append t.effects es, q, v)

request-IsBalanced :
    (t : RecorderThread) (r : Request) (a : Answer) → IsBalanced t → IsBalanced (request t r a).0
unfolding request request_new request_save request_discard begin does
request-IsBalanced t r a v = ground (
  arith,
  v,
  begun-append t.effects (started ∷ audio_call t.has_audio audio_begun),
  ended-append t.effects (started ∷ audio_call t.has_audio audio_begun),
  audio_call-Quiet t.has_audio,
)

-- An end from a state in which an episode is open.
Ends-IsBalanced :
    (t t' : RecorderThread) → Ends t t' → t.state ≢ idle → IsBalanced t → IsBalanced t'
Ends-IsBalanced t t' e busy v = ground (arith, e, busy, v)

save_once-IsBalanced :
    (t : RecorderThread) (id : Option ℕ) (first second : Option (ℕ × ℕ))
    → t.state ≢ idle
    → IsBalanced t
    → IsBalanced (save_once t id first second)
save_once-IsBalanced t id (some (index, saved)) second busy v =
    Ends-IsBalanced t (finish_save t index saved) (finish_save-Ends t index saved) busy v
save_once-IsBalanced t id none second busy v = again second
  where
    u : RecorderThread
    u = does t (save_tried t.frames ∷ [])

    tried : IsBalanced u
    tried = does-IsBalanced t (save_tried t.frames ∷ []) (refl, refl) v

    still : u.state ≢ idle
    still = unfold does in busy

    again : (second : Option (ℕ × ℕ)) → IsBalanced (save_again u id second)
    again none = Ends-IsBalanced u (degrade_after_failed_save u id) (degrade-Ends u id) still tried
    again (some (index, saved)) =
        Ends-IsBalanced u (finish_save u index saved) (finish_save-Ends u index saved) still tried

SameEpisode-IsBalanced : (t t' : RecorderThread) → SameEpisode t t' → IsBalanced t → IsBalanced t'
SameEpisode-IsBalanced t t' e v = ground (arith, e, v)

module _ (rotation_angle : List ℤ → List ℤ → ℕ) where
  do_save-IsBalanced :
      (t : RecorderThread) (s : Surroundings)
      → t.state ≢ idle
      → IsBalanced t
      → IsBalanced (do_save rotation_angle t s)
  unfolding do_save
  do_save-IsBalanced t s busy v =
      let flushed = Filter.flush rotation_angle t.filter in
      let t' = emit_all (record t { filter = flushed.0 }) s.adds flushed.1 in
      let e = emit_all-SameEpisode (record t { filter = flushed.0 }) s.adds flushed.1 in
      let w = SameEpisode-IsBalanced t t' e v in
      let still : t'.state ≢ idle = ground (arith, e, busy) in
      elim (Bool-cases (t'.frames == 0)) [
        | inl nothing ↦ rw nothing (
            Ends-IsBalanced t' (do_discard t' empty_episode s.episode_id)
              (do_discard-Ends t' empty_episode s.episode_id) still w)
        | inr some_frames ↦ rw some_frames (
            save_once-IsBalanced (does t' (save_tried t'.frames ∷ [])) s.episode_id s.first_save
              s.second_save (unfold does in still)
              (does-IsBalanced t' (save_tried t'.frames ∷ []) (refl, refl) w))
      ]

  work-IsBalanced :
      (t : RecorderThread) (op : Option Op) (s : Surroundings)
      → (op ≢ none → t.state ≢ idle)
      → IsBalanced t
      → IsBalanced (work rotation_angle t op s)
  work-IsBalanced t (some save) s busy v = do_save-IsBalanced t s (busy (ground arith)) v
  work-IsBalanced t (some discard) s busy v =
      Ends-IsBalanced t (do_discard t operator s.episode_id)
        (do_discard-Ends t operator s.episode_id) (busy (ground arith)) v
  work-IsBalanced t none s busy v = elim (Bool-cases (is_recording t.state)) [
    | inl is_open ↦ rw is_open (
        SameEpisode-IsBalanced t (capture_from rotation_angle t s s.snapshot)
          (capture_from-SameEpisode rotation_angle t s s.snapshot) v)
    | inr closed ↦ rw closed v
  ]

  run_iteration-IsBalanced :
      (t : RecorderThread) (s : Surroundings)
      → IsBalanced t
      → IsBalanced (run_iteration rotation_angle t s)
  unfolding run_iteration
  run_iteration-IsBalanced t s v =
      let calls = prepare_call (t.pending_prepare && is_recording t.state) in
      let t' = does (record t { pending_prepare = false }) calls in
      work-IsBalanced t' t.pending_op s (unfold does in ground (arith, v))
        (does-IsBalanced (record t { pending_prepare = false }) calls (ground arith) v)

  shutdown-IsBalanced :
      (t : RecorderThread) (id : Option ℕ) (finalizes : Bool)
      → IsBalanced t
      → IsBalanced (shutdown t id finalizes)
  unfolding shutdown does
  shutdown-IsBalanced t id finalizes v =
      let hook = teardown_hook t id in
      let last_calls = finalize_calls finalizes in
      let told = audio_call t.has_audio audio_aborted ++ discarded ∷ [] ++ hook ++ last_calls in
      ground (
        arith,
        v,
        begun-append t.effects told,
        ended-append t.effects told,
        begun-append (audio_call t.has_audio audio_aborted) (discarded ∷ [] ++ hook ++ last_calls),
        ended-append (audio_call t.has_audio audio_aborted) (discarded ∷ [] ++ hook ++ last_calls),
        begun-append hook last_calls,
        ended-append hook last_calls,
        audio_call-Quiet t.has_audio,
      )

  step-IsBalanced :
      (t : RecorderThread) (c : Call) → IsBalanced t → IsBalanced (step rotation_angle t c)
  unfolding step set_returning
  step-IsBalanced t (requests r a) v = request-IsBalanced t r a v
  step-IsBalanced t (returns active detail) v = v
  step-IsBalanced t (iterates s) v = run_iteration-IsBalanced t s v
  step-IsBalanced t (shuts_down id finalizes) v = shutdown-IsBalanced t id finalizes v

  run-keeps_IsBalanced :
      (t : RecorderThread) (cs : List Call) → IsBalanced t → IsBalanced (run rotation_angle t cs)
  unfolding run
  run-keeps_IsBalanced t [] v = v
  run-keeps_IsBalanced t (c ∷ cs) v =
      run-keeps_IsBalanced (step rotation_angle t c) cs (step-IsBalanced t c v)

-- Whatever is requested, captured, saved or shut down, and whatever fails: the episodes begun are
-- those whose end was told by exactly one of the two hooks, and the one that is open; the thread
-- is saving exactly while an operation waits; and a degraded thread has none open.
pub run-init-IsBalanced :
    (rotation_angle : List ℤ → List ℤ → ℕ) (cfg : ActionFilterConfig) (arms : List ℕ)
    (audio extrinsics : Bool) (max_age : ℕ) (cs : List Call)
    → IsBalanced (run rotation_angle (init cfg arms audio extrinsics max_age) cs)
run-init-IsBalanced rotation_angle cfg arms audio extrinsics max_age cs =
    run-keeps_IsBalanced rotation_angle (init cfg arms audio extrinsics max_age) cs
      (unfold init in ground arith)
