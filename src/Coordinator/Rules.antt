-- ===== src/Coordinator/Rules.antt =====
-- Rules for predicates on the coordinator: what its small changes keep, every call keeps.
use apollo_mavis_v2_runtime.Prelude.{
  ℕ, ◌+◌, true, false, List, [], ◌∷◌, ◌++◌, Bool, Option, none, some, if◌then◌else◌, All,
  Bool-cases, inl, inr, ◌==◌, map,
}
use apollo_mavis_v2_runtime.Coordinator.State.{
  TrainerState, TrainerStatus, Rollout, Block, Event, episode_saved, gate, LogRow, Coordinator,
  emit, log, on_session_start, close,
}
use apollo_mavis_v2_runtime.Coordinator.Trainer.{
  on_trainer_status, on_spec_version, follow, log_trainer_state, is_ready, is_stale, is_foreign,
  is_own, same_state, phase_for, swap_version, trainer_alive,
}
use apollo_mavis_v2_runtime.Coordinator.Episodes.{
  on_episode_saved, on_episode_discarded, on_gate_events, request_train_now, Call, starts, closes,
  reports, announces, saves, discards, gates, asks, step, Timed, run,
}

abbrev pub latch : Coordinator → TrainerStatus → Coordinator
latch c msg = if is_ready msg.state then record c { trainer_seen_ready = true } else c

abbrev pub add_rollout : Coordinator → Rollout → Coordinator
add_rollout c row = record c {
  rollouts_saved = c.rollouts_saved + 1;
  expert_frames_session = c.expert_frames_session + row.expert;
  novice_frames_session = c.novice_frames_session + row.novice;
  rollouts = c.rollouts ++ row ∷ [];
}

-- What the event says of the `n`-th rollout.
abbrev pub block_of : ℕ → Rollout → Block
block_of n row = record {
  episode_id = row.episode_id;
  rollouts_saved = n;
  novice = row.novice;
  expert = row.expert;
  policy_version = row.policy_version;
  spool_path = row.spool_path;
}

-- An event that saves no episode.
abbrev pub IsPlain : Event → Type 0
IsPlain (episode_saved index block) = ⊥
IsPlain _ = Unit

-- The changes that calls are made of. The event of a saved episode goes with its rollout's row.
pub record Keeps {ℓ} (P : Coordinator → Type ℓ) : Type ℓ where
  pub emitted :
      (c : Coordinator) (events : List Event) (write : Bool) (now wall : ℕ)
      → All IsPlain events
      → P c
      → P (emit c events write now wall)
  pub added :
      (c : Coordinator) (row : Rollout) (index now wall : ℕ)
      → P c
      → P (
          emit
            (add_rollout c row)
            (episode_saved index (block_of (c.rollouts_saved + 1) row) ∷ [])
            true
            now
            wall)
  pub logs : (c : Coordinator) (row : LogRow) → P c → P (log c row)
  pub remembers :
      (c : Coordinator) (s : Option TrainerState) → P c → P (record c { logged_state = s })
  pub tracks :
      (c : Coordinator) (tr : Option TrainerStatus) (t : Option ℕ)
      → P c
      → P (record c { trainer = tr; trainer_t = t })
  pub moves :
      (c : Coordinator) (msg : TrainerStatus)
      → P c
      → P (record (latch c msg) { phase = phase_for (latch c msg) msg.state })
  pub acts : (c : Coordinator) (v : Option ℕ) → P c → P (record c { policy_version_acting = v })
  pub begins : (c : Coordinator) → P c → P (record c { started = true })

module _ {ℓ} (P : Coordinator → Type ℓ) (keeps : Keeps P) where
  log_trainer_state-Keeps :
      (c : Coordinator) (msg : TrainerStatus) (wall : ℕ) → P c → P (log_trainer_state c msg wall).0
  unfolding log_trainer_state
  log_trainer_state-Keeps c msg wall p = elim (Bool-cases (same_state c.logged_state msg.state)) [
    | inl same ↦ rw same p
    | inr new ↦ rw new (keeps.logs _ _ (keeps.remembers c (some msg.state) p))
  ]

  follow-Keeps :
      (c : Coordinator) (msg : TrainerStatus) (now wall : ℕ) → P c → P (follow c msg now wall)
  unfolding follow
  follow-Keeps c msg now wall p =
      keeps.emitted _ [] _ now wall tt
        (keeps.moves (log_trainer_state c msg wall).0 msg (log_trainer_state-Keeps c msg wall p))

  on_trainer_status-Keeps :
      (c : Coordinator) (msg : TrainerStatus) (t now wall : ℕ)
      → P c
      → P (on_trainer_status c msg t now wall)
  unfolding on_trainer_status
  on_trainer_status-Keeps c msg t now wall p =
      let seen = keeps.tracks c (some msg) (some t) p in
      elim (Bool-cases (is_stale c.trainer_t t)) [
        | inl stale ↦ rw stale p
        | inr fresh ↦ elim (Bool-cases (is_foreign msg.session_id c.cfg.session_id)) [
          | inl foreign ↦ rw (fresh, foreign) p
          | inr near ↦ elim (Bool-cases (is_own msg.session_id c.cfg.session_id)) [
            | inl own ↦ rw (fresh, near, own) (follow-Keeps _ msg now wall seen)
            | inr nobody ↦ rw (fresh, near, nobody) (keeps.emitted _ [] _ now wall tt seen)
          ]
        ]
      ]

  swap_version-Keeps :
      (c : Coordinator) (old : Option ℕ) (v now wall : ℕ) → P c → P (swap_version c old v now wall)
  swap_version-Keeps c none v now wall p = keeps.acts c (some v) p
  swap_version-Keeps c (some old) v now wall p = elim (Bool-cases (old == v)) [
    | inl same ↦ rw same p
    | inr new ↦
        rw new (keeps.emitted _ [] true now wall tt (keeps.logs _ _ (keeps.acts c (some v) p)))
  ]

  gates-IsPlain : (ps : List ℕ) → All IsPlain (map gate ps)
  gates-IsPlain [] = tt
  gates-IsPlain (p ∷ ps) = (tt, gates-IsPlain ps)

  request_train_now-Keeps :
      (c : Coordinator) (is_open : Bool) (now wall : ℕ)
      → P c
      → P (request_train_now c is_open now wall).0
  unfolding request_train_now
  request_train_now-Keeps c true now wall p = p
  request_train_now-Keeps c false now wall p = elim (Bool-cases (trainer_alive c now)) [
    | inl alive ↦ rw alive (keeps.emitted c _ false now wall (tt, tt) p)
    | inr gone ↦ rw gone p
  ]

  step-Keeps : (c : Coordinator) (now wall : ℕ) (k : Call) → P c → P (step c now wall k)
  unfolding step on_session_start close on_spec_version on_episode_saved on_episode_discarded
      on_gate_events
  step-Keeps c now wall starts p = keeps.emitted _ [] true now wall tt (keeps.begins c p)
  step-Keeps c now wall closes p = keeps.emitted c [] true now wall tt p
  step-Keeps c now wall (reports msg t) p = on_trainer_status-Keeps c msg t now wall p
  step-Keeps c now wall (announces v) p = swap_version-Keeps c c.policy_version_acting v now wall p
  step-Keeps c now wall (saves id index nov exp spool) p = keeps.added c _ index now wall p
  step-Keeps c now wall (discards id index reason) p = keeps.emitted c _ false now wall (tt, tt) p
  step-Keeps c now wall (gates []) p = p
  step-Keeps c now wall (gates (q ∷ qs)) p =
      keeps.emitted c _ false now wall (gates-IsPlain (q ∷ qs)) p
  step-Keeps c now wall (asks is_open) p = request_train_now-Keeps c is_open now wall p

  pub run-Keeps : (c : Coordinator) (ks : List Timed) → P c → P (run c ks)
  unfolding run
  run-Keeps c [] p = p
  run-Keeps c (k ∷ ks) p =
      run-Keeps (step c k.now k.wall k.call) ks (step-Keeps c k.now k.wall k.call p)
