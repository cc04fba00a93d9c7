-- ===== src/Coordinator/Invariant.antt =====
-- What holds of the coordinator throughout a session.
use apollo_mavis_v2_runtime.Prelude.{
  ℕ, ◌+◌, ◌≤◌, ◌≡◌, ◌⊎◌, Bool, true, false, List, [], ◌∷◌, ◌++◌, Option, arith, length,
  length-append, length-last_le,
}
use apollo_mavis_v2_runtime.Coordinator.Rules.{Keeps, run-Keeps, latch, add_rollout}
use apollo_mavis_v2_runtime.Coordinator.State.{
  Phase, waiting_trainer, rollout, TrainerStatus, Rollout, Event, LogRow, Config, Coordinator, init,
  emit, log,
}
use apollo_mavis_v2_runtime.Coordinator.Trainer.{phase_for}
use apollo_mavis_v2_runtime.Coordinator.Episodes.{Timed, run}

abbrev pub experts : List Rollout → ℕ
experts [] = 0
experts (r ∷ rs) = r.expert + experts rs

abbrev pub novices : List Rollout → ℕ
novices [] = 0
novices (r ∷ rs) = r.novice + novices rs

experts-append : (rs ss : List Rollout) → experts (rs ++ ss) ≡ experts rs + experts ss
experts-append [] ss = omega arith
experts-append (r ∷ rs) ss = omega (arith, experts-append rs ss)

novices-append : (rs ss : List Rollout) → novices (rs ++ ss) ≡ novices rs + novices ss
novices-append [] ss = omega arith
novices-append (r ∷ rs) ss = omega (arith, novices-append rs ss)

-- The counters are those of the rollouts' rows.
abbrev pub IsCounted : Coordinator → Type 0
IsCounted c =
    (c.rollouts_saved ≡ length c.rollouts)
    × (c.expert_frames_session ≡ experts c.rollouts)
    × (c.novice_frames_session ≡ novices c.rollouts)

-- The phases that the configuration allows.
abbrev pub IsPhased : Coordinator → Type 0
IsPhased c =
    (c.phase ≡ Phase.training → c.cfg.pause_while_training ≡ true)
    × (c.phase ≡ waiting_trainer
        → (c.cfg.wait_for_trainer_ready ≡ true) × (c.trainer_seen_ready ≡ false))
    × (c.phase ≡ rollout → (c.cfg.wait_for_trainer_ready ≡ false) ⊎ (c.trainer_seen_ready ≡ true))

abbrev pub IsSound : Coordinator → Type 0
IsSound c =
    IsCounted c
    × IsPhased c
    × (length c.trainer_log ≤ 200)
    × (c.events_published ≡ length c.published)

emit-IsSound :
    (c : Coordinator) (events : List Event) (write : Bool) (now wall : ℕ)
    → IsSound c
    → IsSound (emit c events write now wall)
unfolding emit
emit-IsSound c events write now wall v = ground (arith, length-append c.published events)

log-IsSound : (c : Coordinator) (row : LogRow) → IsSound c → IsSound (log c row)
unfolding log
log-IsSound c row v = ground (arith, length-last_le 200 (c.trainer_log ++ row ∷ []))

moves-IsSound :
    (c : Coordinator) (msg : TrainerStatus)
    → IsSound c
    → IsSound (record (latch c msg) { phase = phase_for (latch c msg) msg.state })
moves-IsSound c msg v = ground arith

add_rollout-IsSound : (c : Coordinator) (row : Rollout) → IsSound c → IsSound (add_rollout c row)
add_rollout-IsSound c row v = ground (
  arith,
  length-append c.rollouts (row ∷ []),
  experts-append c.rollouts (row ∷ []),
  novices-append c.rollouts (row ∷ []),
)

pub Keeps-IsSound : Keeps IsSound
Keeps-IsSound = record {
  emitted = λ c events write now wall _ v. emit-IsSound c events write now wall v;
  added = λ c row index now wall v. emit-IsSound _ _ true now wall (add_rollout-IsSound c row v);
  logs = log-IsSound;
  remembers = λ c s v. v;
  tracks = λ c tr t v. v;
  moves = moves-IsSound;
  acts = λ c version v. v;
  begins = λ c v. v;
}

-- Through any calls of a new session: the counters are those of the rollouts' rows, the phase is one
-- that the configuration allows (no pause for training unless asked for, no rollout phase before
-- the trainer was ready where that is awaited, no waiting after it), the log keeps at most 200 rows,
-- and every published event is counted.
pub run-init-IsSound :
    (cfg : Config) (version : Option ℕ) (wall : ℕ) (ks : List Timed)
    → IsSound (run (init cfg version wall) ks)
unfolding init
run-init-IsSound cfg version wall ks = run-Keeps IsSound Keeps-IsSound _ ks (ground arith)
