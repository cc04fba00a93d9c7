-- ===== src/RecorderThread/Tests.antt =====
-- An episode of two captures, saved, and one whose save fails twice; and the theorems there.
use apollo_mavis_v2_runtime.ActionFilter.{ActionFilterConfig, Capture, Pose}
use apollo_mavis_v2_runtime.ActionFilter as Filter
use apollo_mavis_v2_runtime.Prelude.{
  ℕ, ◌+◌, ◌≡◌, refl, true, false, List, [], ◌∷◌, ◌++◌, none, some, ℤ, pos, arith,
}
use apollo_mavis_v2_runtime.RecorderThread.Ends.{begun, ended}
use apollo_mavis_v2_runtime.RecorderThread.Episodes.{IsBalanced, run-init-IsBalanced}
use apollo_mavis_v2_runtime.RecorderThread.Iteration.{
  Call, Surroundings, capture_from, degrade_after_failed_save, do_discard, do_save, emit, emit_all,
  finish_save, iterates, requests, run, run_iteration, step, take_capture,
}
use apollo_mavis_v2_runtime.RecorderThread.Frames.{episode-frames, frames_in, pairs, take_captures}
use apollo_mavis_v2_runtime.RecorderThread.Outcomes.{degrade-run, run_iteration-Ends}
use apollo_mavis_v2_runtime.RecorderThread.Requests.{
  Answer, begin, is_degraded, new_episode, request, request_new, request_save, save_episode,
}
use apollo_mavis_v2_runtime.RecorderThread.State.{RecorderThread, does, idle, init, save, saving}

abbrev no_angle : List ℤ → List ℤ → ℕ
no_angle p q = 0

abbrev cfg : ActionFilterConfig
cfg = record {
  enabled = false;
  pos_eps_m = 10;
  rot_eps_rad = 10;
  gripper_eps_frac = 5;
  rail_eps_m = 10;
  context = 1;
}

abbrev seen : ℕ → Capture
seen tick = record {
  wallclock_ns = 0;
  tick = tick;
  cmd_pose_b = λ arm. record { x = pos tick; y = pos 0; z = pos 0; orientation = [] };
  grip_cmd = λ arm. none;
  rail_cmd = λ arm. none;
  action_source = none;
}

-- Everything works at `now`.
abbrev fine : ℕ → Surroundings
fine now = record {
  now = now;
  snapshot = some (record { capture = seen now; stamp = now; stamps = [] });
  cameras = some now ∷ [];
  extrinsics = none;
  adds = λ c. true;
  episode_id = some 5;
  first_save = some (0, 5);
  second_save = none;
}

abbrev broken : ℕ → Surroundings
broken now = record (fine now) { first_save = none }

abbrev answer : Answer
answer = record { starts = true; episodes_saved = 0 }

abbrev calls : Surroundings → List Call
calls last =
    requests new_episode answer
    ∷ iterates (fine 10)
    ∷ iterates (fine 20)
    ∷ requests save_episode answer
    ∷ iterates last
    ∷ []

abbrev begins : RecorderThread
begins = init cfg (7 ∷ []) true false 5

runs :
    ((run no_angle begins (calls (fine 30))).last_saved_id ≡ some 5)
    × ((run no_angle begins (calls (broken 30))).degraded ≡ true)
    × ((run no_angle begins (calls (broken 30))).frames ≡ 1)
unfolding run step init request request_new request_save begin run_iteration capture_from
    take_capture do_save do_discard finish_save degrade_after_failed_save emit_all emit does
    Filter.init Filter.push Filter.flush Filter.drain Filter.reset
runs = (refl, refl, refl)

run-init-IsBalanced_example : IsBalanced (run no_angle begins (calls (broken 30)))
run-init-IsBalanced_example =
    run-init-IsBalanced no_angle cfg (7 ∷ []) true false 5 (calls (broken 30))

abbrev waits : RecorderThread
waits = record begins { state = saving; pending_op = some save; frames = 1 }

run_iteration-Ends_example :
    let t' = run_iteration no_angle waits (broken 30) in
    (begun t'.effects ≡ begun waits.effects)
    × (ended t'.effects ≡ ended waits.effects + 1)
    × (t'.state ≡ idle)
    × (t'.pending_op ≡ none)
run_iteration-Ends_example = run_iteration-Ends no_angle waits (broken 30) (λ e. ground (arith, e))

degrade-run_example :
    let off = degrade_after_failed_save waits (some 5) in
    let t' = run no_angle off (calls (fine 30)) in
    (request t' new_episode answer ≡ (t', some is_degraded))
    × (begun t'.effects ≡ begun waits.effects)
    × (t'.frames ≡ waits.frames)
degrade-run_example = degrade-run no_angle waits (some 5) (calls (fine 30)) new_episode answer

episode-frames_example :
    frames_in
      (do_save no_angle
        (take_captures no_angle (fine 30) (begin begins 0) (seen 1 ∷ seen 2 ∷ []))
        (fine 30)).effects
    ≡ frames_in begins.effects
      ++ pairs none (Filter.episode no_angle begins.filter (seen 1 ∷ seen 2 ∷ [])).1
episode-frames_example = episode-frames no_angle (fine 30) begins 0 (seen 1 ∷ seen 2 ∷ []) refl
