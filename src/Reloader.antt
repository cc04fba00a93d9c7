-- ===== src/Reloader.antt =====
-- dagger/reloader.py: the one place that changes the weights of the live policy.
-- The policy is code of the deployment: the parameter `loads` says for which versions
-- `load_weights` and `set_version` return without an exception, and `weights` is the version that
-- they loaded last. A load that fails leaves the weights as they were, as `load_weights` promises
-- by working on a scratch copy.
pub mod Staging
pub mod Rollback
mod Tests
use apollo_mavis_v2_runtime.Checkpoints.{
  CheckpointInfo, CheckpointStore, read_manifest, verify, latest, last_known_good,
  set_last_known_good,
}
use apollo_mavis_v2_runtime.Prelude.{
  ℕ, Bool, true, false, not, ◌&&◌, ◌||◌, List, [], ◌∷◌, ◌++◌, Option, none, some, ltb, leb, ◌==◌,
  if◌then◌else◌,
}

pub data Reason : Type 0 where
  unreadable_manifest insane other_frame other_space sha256_mismatch : Reason
  swap_failed rollback_failed : Reason

pub Reason-discrete : Discrete Reason
Reason-discrete = hlevel

pub record Reloader : Type 0 where
  pub session_action_frame : ℕ
  pub session_action_space : ℕ
  pub current_version : ℕ
  pub weights : ℕ
  pub staged : Option CheckpointInfo
  pub rejected : List (ℕ × Reason)
  pub notified : List ℕ  -- what `on_rollback` told the trainer

-- The runtime's view: the reloader, and the directory that it shares with the trainer.
pub record World : Type 0 where
  pub reloader : Reloader
  pub store : CheckpointStore

abbrev init_pointer : Option ℕ → CheckpointStore → ℕ → CheckpointStore
init_pointer none s version = set_last_known_good s version
init_pointer (some v) s version = s

unfoldable pub init : CheckpointStore → ℕ → ℕ → ℕ → World
init s frame space current_version = record {
  reloader = record {
    session_action_frame = frame;
    session_action_space = space;
    current_version = current_version;
    weights = current_version;
    staged = none;
    rejected = [];
    notified = [];
  };
  store = init_pointer (last_known_good s) s current_version;
}

-- `self.rejected[-1] != (version, reason)`, where there is a last entry
abbrev pub same_reason : Reason → Reason → Bool
same_reason a b = elim (Reason-discrete a b) [ yes e ↦ true | no n ↦ false ]

abbrev pub ends_with : List (ℕ × Reason) → ℕ → Reason → Bool
ends_with [] version reason = false
ends_with ((v, r) ∷ []) version reason = v == version && same_reason r reason
ends_with (e ∷ f ∷ rs) version reason = ends_with (f ∷ rs) version reason

unfoldable pub reject : Reloader → ℕ → Reason → Reloader
reject r version reason =
    if ends_with r.rejected version reason
    then r
    else record r { rejected = r.rejected ++ (version, reason) ∷ [] }

-- `self._staged is None or ckpt.version > self._staged.version`
abbrev pub is_newer : Option CheckpointInfo → ℕ → Bool
is_newer none version = true
is_newer (some c) version = ltb c.version version

unfoldable pub stage : CheckpointStore → Reloader → CheckpointInfo → Reloader
stage s r c =
    if not c.sanity_ok
    then reject r c.version insane
    else if not (c.action_frame == r.session_action_frame)
    then reject r c.version other_frame
    else if not (c.action_space == r.session_action_space)
    then reject r c.version other_space
    else if not (verify s c)
    then reject r c.version sha256_mismatch
    else if is_newer r.staged c.version
    then record r { staged = some c }
    else r

abbrev stage_read : CheckpointStore → Reloader → ℕ → Option CheckpointInfo → Reloader
stage_read s r version none = reject r version unreadable_manifest
stage_read s r version (some c) = stage s r c

abbrev poll_latest : CheckpointStore → Reloader → Option ℕ → Reloader
poll_latest s r none = r
poll_latest s r (some v) =
    if leb v r.current_version
    then r
    else if not (is_newer r.staged v)
    then r
    else stage_read s r v (read_manifest s v)

unfoldable pub poll : CheckpointStore → Reloader → Reloader
poll s r = poll_latest s r (latest s)

abbrev version_of : Option CheckpointInfo → Option ℕ
version_of none = none
version_of (some c) = some c.version

unfoldable pub staged_version : Reloader → Option ℕ
staged_version r = version_of r.staged

module _ (loads : ℕ → Bool) where
  unfoldable pub load : Reloader → ℕ → Reason → Reloader × Bool
  load r version why =
      if loads version
      then (record r { current_version = version; weights = version }, true)
      else (reject r version why, false)

  abbrev swap_in : Reloader → CheckpointInfo → Reloader × Option ℕ
  swap_in r c =
      let (r', loaded) = load r c.version swap_failed in
      (r', if loaded then some c.version else none)

  abbrev swap_staged : Reloader → Option CheckpointInfo → Reloader × Option ℕ
  swap_staged r none = (record r { staged = none }, none)
  swap_staged r (some c) =
      let emptied = record r { staged = none } in
      if leb c.version r.current_version then (emptied, none) else swap_in emptied c

  -- The source reads the mode in no case, so it is left out.
  unfoldable pub maybe_swap : Reloader → Bool → Reloader × Option ℕ
  maybe_swap r at_episode_boundary =
      if not at_episode_boundary then (r, none) else swap_staged r r.staged

  abbrev notify : Reloader → ℕ → Reloader
  notify r target = record r { notified = r.notified ++ target ∷ [] }

  abbrev rollback_to : Reloader → Option ℕ → Reloader
  rollback_to r none = r
  rollback_to r (some target) =
      if target == r.current_version
      then notify r target
      else notify (load r target rollback_failed).0 target

  unfoldable pub rollback : CheckpointStore → Reloader → Reloader
  rollback s r = rollback_to r (last_known_good s)

unfoldable pub mark_good : World → World
mark_good w = record w { store = set_last_known_good w.store w.reloader.current_version }

-- What happens to the reloader: its own methods, and the trainer's writes to the directory.
pub data Call : Type 0 where
  polls rolls_back marks_good : Call
  stages : CheckpointInfo → Call
  swaps : (at_episode_boundary : Bool) → Call
  trains : CheckpointStore → Call

unfoldable pub step : (ℕ → Bool) → World → Call → World
step loads w polls = record w { reloader = poll w.store w.reloader }
step loads w rolls_back = record w { reloader = rollback loads w.store w.reloader }
step loads w marks_good = mark_good w
step loads w (stages c) = record w { reloader = stage w.store w.reloader c }
step loads w (swaps b) = record w { reloader = (maybe_swap loads w.reloader b).0 }
step loads w (trains s) = record w { store = s }

unfoldable pub run : (ℕ → Bool) → World → List Call → World
run loads w [] = w
run loads w (c ∷ cs) = run loads (step loads w c) cs
