-- ===== src/Reloader/Rollback.antt =====
-- The rollback to the last version known to be good.
use apollo_mavis_v2_runtime.Checkpoints.{
  CheckpointInfo, CheckpointStore, latest, last_known_good, set_last_known_good, read_manifest,
  verify,
}
use apollo_mavis_v2_runtime.Checkpoints.Pointer.{read-pointer_text}
use apollo_mavis_v2_runtime.Prelude.{
  ℕ, ◌≡◌, ◌<◌, Bool, true, false, [], ◌∷◌, ◌++◌, none, some, arith, if◌then◌else◌, ltb,
}
use apollo_mavis_v2_runtime.Reloader.{
  Reloader, World, reject, stage, poll, load, maybe_swap, rollback, mark_good,
}

-- A rollback loads the last known good version at once, where that loads, and tells the trainer;
-- where the load fails the policy stays as it is, and the trainer is told all the same.
pub rollback_lem :
    (loads : ℕ → Bool) (s : CheckpointStore) (r : Reloader) (target : ℕ)
    → r.weights ≡ r.current_version
    → last_known_good s ≡ some target
    → ((rollback loads s r).notified ≡ r.notified ++ target ∷ [])
      × ((rollback loads s r).staged ≡ r.staged)
      × (loads target ≡ true
          → ((rollback loads s r).current_version ≡ target)
            × ((rollback loads s r).weights ≡ target))
      × (loads target ≡ false
          → ((rollback loads s r).current_version ≡ r.current_version)
            × ((rollback loads s r).weights ≡ r.weights))
unfolding rollback load reject
rollback_lem loads s r target live known = ground arith

last_known_good-set_last_known_good :
    (s : CheckpointStore) (v : ℕ)
    → last_known_good (set_last_known_good s v) ≡ (if ltb v 1_000_000 then some v else none)
unfolding last_known_good set_last_known_good
last_known_good-set_last_known_good s v = read-pointer_text v

-- After an episode is marked good, a rollback keeps the version and the weights that it ran on,
-- for every version of six digits.
pub rollback-mark_good :
    (loads : ℕ → Bool) (w : World)
    → w.reloader.current_version < 1_000_000
    → let r = w.reloader in
      let r' = rollback loads (mark_good w).store r in
      (r'.current_version ≡ r.current_version)
      × (r'.weights ≡ r.weights)
      × (r'.notified ≡ r.notified ++ r.current_version ∷ [])
unfolding rollback mark_good
rollback-mark_good loads w small =
    ground (arith, last_known_good-set_last_known_good w.store w.reloader.current_version)

-- A rollback does not last. The version that was rolled back is the one that `LATEST` names, it is
-- sane, fits the session and loads: then the next poll stages it again, and the next episode's end
-- makes it current again.
pub rollback_undone :
    (loads : ℕ → Bool) (s : CheckpointStore) (r : Reloader) (good : ℕ) (bad : CheckpointInfo)
    → r.current_version ≡ bad.version
    → r.staged ≡ none
    → last_known_good s ≡ some good
    → good < bad.version
    → latest s ≡ some bad.version
    → read_manifest s bad.version ≡ some bad
    → bad.sanity_ok ≡ true
    → bad.action_frame ≡ r.session_action_frame
    → bad.action_space ≡ r.session_action_space
    → verify s bad ≡ true
    → loads good ≡ true
    → loads bad.version ≡ true
    → ((rollback loads s r).current_version ≡ good)
      × ((maybe_swap loads (poll s (rollback loads s r)) true).0.current_version ≡ bad.version)
unfolding rollback load poll stage maybe_swap
rollback_undone loads s r good bad cur empty known older newest read sane frame space sound lg lb =
    ground arith
