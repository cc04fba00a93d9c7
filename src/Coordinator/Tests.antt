-- ===== src/Coordinator/Tests.antt =====
-- A session with one kept rollout, and the theorems there.
use apollo_mavis_v2_runtime.Coordinator.Episodes.{
  Call, starts, reports, saves, asks, Timed, step, run, on_episode_saved, request_train_now,
}
use apollo_mavis_v2_runtime.Coordinator.Gatekeeping.{no_episode_before_ready}
use apollo_mavis_v2_runtime.Coordinator.Invariant.{IsSound, run-init-IsSound}
use apollo_mavis_v2_runtime.Coordinator.Announced.{
  told, of_row, counts, first, IsFileTold, run-IsAnnounced,
}
use apollo_mavis_v2_runtime.Coordinator.Resume.{Recovers, run-Recovers}
use apollo_mavis_v2_runtime.Coordinator.Writer.{work}
use apollo_mavis_v2_runtime.Coordinator.State.{
  TrainerState, TrainerState-discrete, Phase, TrainerStatus, Config, Coordinator, init, emit, log,
  on_session_start, write_due,
}
use apollo_mavis_v2_runtime.Coordinator.Trainer.{
  refuse_episode_new, trainer_alive, on_trainer_status, follow, log_trainer_state,
}
use apollo_mavis_v2_runtime.Prelude.{
  ℕ, suc, ◌≡◌, ◌≢◌, refl, Bool, true, false, map, length, ◌++◌, List, [], ◌∷◌, Option, none, some,
  arith, inl, inr,
}

abbrev cfg : Config
cfg = record {
  wait_for_trainer_ready = true;
  pause_while_training = true;
  session_id = 7;
  spec_stale_s = 5;
  write_period = 1;
}

abbrev says : Option ℕ → TrainerState → TrainerStatus
says session state = record {
  session_id = session;
  state = state;
  detail = [];
  progress = 40;
  policy_version = 1;
}

abbrev at : ℕ → Call → Timed
at t call = record { now = t; wall = t; call = call }

abbrev session : List Timed
session =
    at 0 starts
    ∷ at 1 (reports (says none TrainerState.idle) 1)
    ∷ at 2 (reports (says (some 7) TrainerState.ready) 2)
    ∷ at 3 (saves 10 0 20 5 (some 3))
    ∷ at 4 (asks false)
    ∷ at 5 (reports (says (some 7) TrainerState.training) 5)
    ∷ []

abbrev ended : Coordinator
ended = run (init cfg (some 1) 0) session

session_lem :
    (ended.phase ≡ Phase.training)
    × (ended.rollouts_saved ≡ 1)
    × (refuse_episode_new ended 6 ≢ none)
unfolding run step init on_session_start on_trainer_status follow log_trainer_state on_episode_saved
    request_train_now emit log write_due trainer_alive refuse_episode_new TrainerState-discrete
session_lem = (refl, refl, λ e. ground arith)

run-init-IsSound_example : IsSound ended
run-init-IsSound_example = run-init-IsSound cfg (some 1) 0 session

abbrev fresh : Coordinator
fresh = init cfg (some 1) 0

abbrev unready : List Timed
unready =
    at 0 starts
    ∷ at 1 (reports (says none TrainerState.ready) 1)
    ∷ at 2 (reports (says (some 7) TrainerState.preparing) 2)
    ∷ []

no_episode_before_ready_example : refuse_episode_new (run (init cfg none 0) unready) 3 ≢ none
no_episode_before_ready_example =
    no_episode_before_ready cfg none 0 unready 3 refl (tt, (inl refl, (inr refl, tt)))

abbrev begun : Coordinator
begun = run (on_session_start fresh 0 0) session

-- Six documents were handed over, of which the third was not written.
abbrev oks : List Bool
oks = true ∷ true ∷ false ∷ true ∷ true ∷ []

handed_lem : suc (length oks) ≡ length begun.handed
unfolding run step init on_session_start on_trainer_status follow log_trainer_state on_episode_saved
    request_train_now emit log write_due trainer_alive TrainerState-discrete
handed_lem = refl

run-Recovers_example : Recovers begun fresh (work none begun.handed (oks ++ true ∷ []))
run-Recovers_example = run-Recovers cfg (some 1) 0 0 session fresh oks handed_lem

run-IsAnnounced_example :
    (told ended.published ≡ map of_row ended.rollouts)
    × (counts ended.published ≡ first ended.rollouts_saved)
    × IsFileTold ended.published (work none ended.handed (false ∷ true ∷ []))
run-IsAnnounced_example = run-IsAnnounced cfg (some 1) 0 session (false ∷ true ∷ [])
