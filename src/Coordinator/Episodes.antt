-- ===== src/Coordinator/Episodes.antt =====
-- What the recorder, the takeover gate and the operator report.
use apollo_mavis_v2_runtime.Coordinator.State.{
  Rollout, Block, episode_saved, episode_discarded, gate, train_now, Coordinator, TrainerStatus,
  emit, on_session_start, close,
}
use apollo_mavis_v2_runtime.Coordinator.Trainer.{
  Refusal, no_trainer, episode_open, trainer_alive, on_trainer_status, on_spec_version,
}
use apollo_mavis_v2_runtime.Prelude.{
  ℕ, ◌+◌, Bool, true, false, not, List, [], ◌∷◌, ◌++◌, map, Option, none, some, if◌then◌else◌,
}

-- A kept rollout: its counts, and the spool's path if it was written.
unfoldable pub on_episode_saved :
    Coordinator
    → (episode_id index novice expert : ℕ) → (spool_path : Option ℕ) → (now wall : ℕ) → Coordinator
on_episode_saved c episode_id index novice expert spool_path now wall =
    let row : Rollout = record {
      episode_id = episode_id;
      saved_at = wall;
      novice = novice;
      expert = expert;
      policy_version = c.policy_version_acting;
      spool_path = spool_path;
    } in
    let c' = record c {
      rollouts_saved = c.rollouts_saved + 1;
      expert_frames_session = c.expert_frames_session + expert;
      novice_frames_session = c.novice_frames_session + novice;
      rollouts = c.rollouts ++ row ∷ [];
    } in
    let block : Block = record {
      episode_id = episode_id;
      rollouts_saved = c'.rollouts_saved;
      novice = novice;
      expert = expert;
      policy_version = c.policy_version_acting;
      spool_path = spool_path;
    } in
    emit c' (episode_saved index block ∷ []) true now wall

unfoldable pub on_episode_discarded :
    Coordinator → (episode_id index : Option ℕ) → (reason : List ℕ) → (now wall : ℕ) → Coordinator
on_episode_discarded c episode_id index reason now wall =
    emit c (episode_discarded index episode_id reason ∷ []) false now wall

-- An empty list of payloads publishes nothing.
unfoldable pub on_gate_events : Coordinator → List ℕ → (now wall : ℕ) → Coordinator
on_gate_events c [] now wall = c
on_gate_events c (p ∷ ps) now wall = emit c (map gate (p ∷ ps)) false now wall

-- The operator's **Train now**: refused, or accepted with the count of rollouts.
unfoldable pub request_train_now :
    Coordinator → (is_open : Bool) → (now wall : ℕ) → Coordinator × Option Refusal
unfolding trainer_alive
request_train_now c is_open now wall =
    if is_open
    then (c, some episode_open)
    else if not (trainer_alive c now)
    then (c, some no_trainer)
    else (emit c (train_now c.rollouts_saved ∷ []) false now wall, none)

-- What happens to the coordinator, with the readings of the clocks.
pub data Call : Type 0 where
  starts closes : Call
  reports : TrainerStatus → (t : ℕ) → Call
  announces : (version : ℕ) → Call
  saves : (episode_id index novice expert : ℕ) → (spool_path : Option ℕ) → Call
  discards : (episode_id index : Option ℕ) → (reason : List ℕ) → Call
  gates : List ℕ → Call
  asks : (is_open : Bool) → Call

unfoldable pub step : Coordinator → (now wall : ℕ) → Call → Coordinator
step c now wall starts = on_session_start c now wall
step c now wall closes = close c now wall
step c now wall (reports msg t) = on_trainer_status c msg t now wall
step c now wall (announces v) = on_spec_version c v now wall
step c now wall (saves id index nov exp spool) = on_episode_saved c id index nov exp spool now wall
step c now wall (discards id index reason) = on_episode_discarded c id index reason now wall
step c now wall (gates ps) = on_gate_events c ps now wall
step c now wall (asks is_open) = (request_train_now c is_open now wall).0

-- A call with the readings of the clocks at it.
pub record Timed : Type 0 where
  pub now : ℕ
  pub wall : ℕ
  pub call : Call

unfoldable pub run : Coordinator → List Timed → Coordinator
run c [] = c
run c (k ∷ ks) = run (step c k.now k.wall k.call) ks
