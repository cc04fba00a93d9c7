-- ===== src/ActionFilter.antt =====
-- recorder/action_filter.py: the idle-frame filter between the captures and the dataset.
-- Lengths, angles and fractions are integers of one fine unit, the thresholds natural numbers of it.
-- The angle between two quaternions is the core library's: a parameter. The filter's arms are given,
-- as the recorder gives them, and a capture has a pose for each of them.
pub mod Offline
pub mod Counting
mod Tests
use apollo_mavis_v2_runtime.Prelude.{
  ℕ, ◌+◌, Bool, true, false, not, ◌&&◌, ◌||◌, List, [], ◌∷◌, ◌++◌, Option, none, some, ltb, leb,
  ◌==◌, if◌then◌else◌, length, last, any, max, ℤ, pos, dist,
}

pub record Pose : Type 0 where
  pub x : ℤ
  pub y : ℤ
  pub z : ℤ
  pub orientation : List ℤ

-- A capture, as far as the filter and the recorder's thread read it.
pub record Capture : Type 0 where
  pub wallclock_ns : ℕ
  pub tick : ℕ
  pub cmd_pose_b : ℕ → Pose
  pub grip_cmd : ℕ → Option ℤ
  pub rail_cmd : ℕ → Option ℤ
  pub action_source : Option ℕ

-- The core's `ActionFilterConfig`, with `round(gripper_context_s * fps)` as `context`.
pub record ActionFilterConfig : Type 0 where
  pub enabled : Bool
  pub pos_eps_m : ℕ
  pub rot_eps_rad : ℕ
  pub gripper_eps_frac : ℕ
  pub rail_eps_m : ℕ
  pub context : ℕ

pub record ActionFilter : Type 0 where
  pub cfg : ActionFilterConfig
  pub arms : List ℕ
  pub window : ℕ
  pub buffer : List Capture  -- undecided captures, oldest first
  pub history : List Capture  -- decided captures, at most `max window 1`
  pub last_kept : Option Capture
  pub kept : ℕ
  pub pending_skips : ℕ
  pub frames_seen : ℕ
  pub frames_skipped : ℕ
  pub gaps : List (ℕ × ℕ)

abbrev pub window_of : ActionFilterConfig → ℕ
window_of cfg = if cfg.enabled then cfg.context else 0

unfoldable pub init : ActionFilterConfig → List ℕ → ActionFilter
init cfg arms = record {
  cfg = cfg;
  arms = arms;
  window = window_of cfg;
  buffer = [];
  history = [];
  last_kept = none;
  kept = 0;
  pending_skips = 0;
  frames_seen = 0;
  frames_skipped = 0;
  gaps = [];
}

unfoldable pub reset : ActionFilter → ActionFilter
reset f = record f {
  buffer = [];
  history = [];
  last_kept = none;
  kept = 0;
  pending_skips = 0;
  frames_seen = 0;
  frames_skipped = 0;
  gaps = [];
}

abbrev pub buffered : ActionFilter → ℕ
buffered f = length f.buffer

-- `HUMAN_ACTION_SOURCES`: teleoperation and takeover
abbrev pub is_human : ℕ → Bool
is_human source = source == 1 || source == 3

-- `_filterable`
abbrev pub filterable_source : Option ℕ → Bool
filterable_source none = true
filterable_source (some source) = is_human source

abbrev pub filterable : Capture → Bool
filterable c = filterable_source c.action_source

-- `grip_cmd.get(arm, 0.0)`
abbrev pub grip_or_nil : Option ℤ → ℤ
grip_or_nil none = pos 0
grip_or_nil (some g) = g

abbrev pub grip_dist : Capture → Capture → ℕ → ℕ
grip_dist a b arm = dist (grip_or_nil (b.grip_cmd arm)) (grip_or_nil (a.grip_cmd arm))

-- The rail of an arm moved, where both captures have one.
abbrev pub rail_moved : ℕ → Option ℤ → Option ℤ → Bool
rail_moved eps (some c) (some r) = leb eps (dist c r)
rail_moved eps _ _ = false

abbrev pub pose_dist : Pose → Pose → ℕ
pose_dist p q = max (dist p.x q.x) (max (dist p.y q.y) (dist p.z q.z))

-- An adjacent pair of captures moves a gripper.
abbrev pub pair_moves : ℕ → List ℕ → Capture → Capture → Bool
pair_moves eps arms a b = any (λ arm. ltb eps (grip_dist a b arm)) arms

abbrev pub moves_on : ℕ → List ℕ → Capture → List Capture → Bool
moves_on eps arms a [] = false
moves_on eps arms a (b ∷ cs) = pair_moves eps arms a b || moves_on eps arms b cs

abbrev pub some_pair_moves : ℕ → List ℕ → List Capture → Bool
some_pair_moves eps arms [] = false
some_pair_moves eps arms (a ∷ cs) = moves_on eps arms a cs

-- `_gripper_change_near`, of a capture with `past` decided before it and `future` waiting after it.
unfoldable pub gripper_change_near :
    ActionFilterConfig → List ℕ → List Capture → Capture → List Capture → Bool
gripper_change_near cfg arms past c future =
    some_pair_moves cfg.gripper_eps_frac arms (past ++ c ∷ future)

module _ (rotation_angle : List ℤ → List ℤ → ℕ) where
  -- The body of the loop in `_idle`: the arm moved from `ref` to `c`.
  abbrev pub arm_moved : ActionFilterConfig → Capture → Capture → ℕ → Bool
  arm_moved cfg c ref arm =
      let pc = c.cmd_pose_b arm in
      let pr = ref.cmd_pose_b arm in
      leb cfg.pos_eps_m (pose_dist pc pr)
      || leb cfg.rot_eps_rad (rotation_angle pr.orientation pc.orientation)
      || leb cfg.gripper_eps_frac (grip_dist ref c arm)
      || rail_moved cfg.rail_eps_m (c.rail_cmd arm) (ref.rail_cmd arm)

  -- `_idle`
  unfoldable pub idle : ActionFilterConfig → List ℕ → Capture → Capture → Bool
  idle cfg arms c ref = not (any (arm_moved cfg c ref) arms)

  -- The rule of `_decide_oldest`.
  abbrev pub keeps :
      ActionFilterConfig → List ℕ → Option Capture → List Capture → Capture → List Capture → Bool
  keeps cfg arms none past c future = true
  keeps cfg arms (some ref) past c future =
      not (filterable c) || not (idle cfg arms c ref) || gripper_change_near cfg arms past c future

  abbrev pub with_gap : ActionFilter → ActionFilter
  with_gap f =
      if f.pending_skips == 0
      then f
      else record f { gaps = f.gaps ++ (f.kept, f.pending_skips) ∷ []; pending_skips = 0 }

  -- `_decide_oldest`, of the capture `c` that was popped, with `future` left in the buffer.
  unfoldable pub decide : ActionFilter → Capture → List Capture → ActionFilter × List Capture
  decide f c future =
      let popped = record f {
        buffer = future;
        history = last (max f.window 1) (f.history ++ c ∷ []);
      } in
      if keeps f.cfg f.arms f.last_kept f.history c future
      then (let gapped = with_gap popped in
          (record gapped { last_kept = some c; kept = gapped.kept + 1 }, c ∷ []))
      else (
        record popped {
          frames_skipped = popped.frames_skipped + 1;
          pending_skips = popped.pending_skips + 1;
        },
        [],
      )

  -- `while len(self._buffer) > window: …`, of a buffer `cs`.
  unfoldable pub drain : ActionFilter → ℕ → List Capture → ActionFilter × List Capture
  unfolding decide
  drain f n [] = (record f { buffer = [] }, [])
  drain f n (c ∷ cs) =
      let decided = decide f c cs in
      let rest = drain decided.0 n cs in
      if ltb n (length (c ∷ cs))
      then (rest.0, decided.1 ++ rest.1)
      else (record f { buffer = c ∷ cs }, [])

  unfoldable pub push : ActionFilter → Capture → ActionFilter × List Capture
  unfolding drain
  push f c =
      let seen = record f { frames_seen = f.frames_seen + 1 } in
      if not f.cfg.enabled
      then (record seen { kept = seen.kept + 1 }, c ∷ [])
      else drain seen f.window (f.buffer ++ c ∷ [])

  unfoldable pub flush : ActionFilter → ActionFilter × List Capture
  unfolding drain
  flush f = drain f 0 f.buffer

  -- One episode: captures in turn, with all that is kept of them.
  unfoldable pub pushes : ActionFilter → List Capture → ActionFilter × List Capture
  unfolding push
  pushes f [] = (f, [])
  pushes f (c ∷ cs) =
      let pushed = push f c in let rest = pushes pushed.0 cs in (rest.0, pushed.1 ++ rest.1)

  -- An episode from its start to the save.
  unfoldable pub episode : ActionFilter → List Capture → ActionFilter × List Capture
  unfolding pushes flush
  episode f cs =
      let pushed = pushes (reset f) cs in
      let flushed = flush pushed.0 in (flushed.0, pushed.1 ++ flushed.1)
