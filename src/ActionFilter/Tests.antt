-- ===== src/ActionFilter/Tests.antt =====
-- An episode with a pause of the operator, and the theorems there.
use apollo_mavis_v2_runtime.ActionFilter.{
  ActionFilter, ActionFilterConfig, Capture, decide, drain, episode, flush, gripper_change_near,
  idle, init, push, pushes, reset,
}
use apollo_mavis_v2_runtime.ActionFilter.Counting.{skips_in, episode-IsCounted}
use apollo_mavis_v2_runtime.ActionFilter.Offline.{offline, episode-offline}
use apollo_mavis_v2_runtime.Prelude.{
  ℕ, ◌+◌, ◌≡◌, refl, true, List, [], ◌∷◌, map, none, some, ℤ, pos, negsuc, length,
}

abbrev no_angle : List ℤ → List ℤ → ℕ
no_angle p q = 0

abbrev cfg : ActionFilterConfig
cfg = record {
  enabled = true;
  pos_eps_m = 10;
  rot_eps_rad = 10;
  gripper_eps_frac = 5;
  rail_eps_m = 10;
  context = 1;
}

-- At `x` along the first axis, with the gripper at `g`.
abbrev at : (tick : ℕ) (x g : ℤ) (source : ℕ) → Capture
at tick x g source = record {
  wallclock_ns = tick;
  tick = tick;
  cmd_pose_b = λ arm. record { x = x; y = pos 0; z = pos 0; orientation = [] };
  grip_cmd = λ arm. some g;
  rail_cmd = λ arm. none;
  action_source = some source;
}

abbrev captures : List Capture
captures =
    at 1 (pos 0) (pos 0) 1
    ∷ at 2 (pos 3) (pos 0) 1
    ∷ at 3 (negsuc 2) (pos 0) 1
    ∷ at 4 (pos 12) (pos 0) 1
    ∷ at 5 (pos 13) (pos 0) 1
    ∷ at 6 (pos 13) (pos 9) 1
    ∷ []

abbrev done : ActionFilter × List Capture
done = episode no_angle (init cfg (7 ∷ [])) captures

done_lem : (map (λ c. c.tick) done.1 ≡ 1 ∷ 4 ∷ 5 ∷ 6 ∷ []) × (done.0.gaps ≡ (1, 2) ∷ [])
unfolding episode reset init pushes push flush drain decide idle gripper_change_near
done_lem = (refl, refl)

episode-offline_example : done.1 ≡ offline no_angle cfg (7 ∷ []) 1 none [] captures
episode-offline_example = episode-offline no_angle cfg (7 ∷ []) captures refl

episode-IsCounted_example :
    let r = episode no_angle done.0 captures in
    (r.0.buffer ≡ [])
    × (r.0.kept ≡ length r.1)
    × (6 ≡ length r.1 + r.0.frames_skipped)
    × (skips_in r.0.gaps + r.0.pending_skips ≡ r.0.frames_skipped)
episode-IsCounted_example = episode-IsCounted no_angle done.0 captures
