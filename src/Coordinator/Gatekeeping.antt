-- ===== src/Coordinator/Gatekeeping.antt =====
-- When an episode may begin, which trainer's word counts, and what the operator may ask.
use apollo_mavis_v2_runtime.Prelude.{
  ℕ, ◌<◌, ◌≡◌, ◌≢◌, ◌⊎◌, ◌↔◌, refl, Bool, true, false, List, [], ◌∷◌, ◌++◌, Option, none, some,
  arith,
}
use apollo_mavis_v2_runtime.Coordinator.State.{
  rollout, TrainerStatus, Event, train_now, Config, Coordinator, init, emit, log, write_due,
  on_session_start, close,
}
use apollo_mavis_v2_runtime.Coordinator.Trainer.{
  on_trainer_status, on_spec_version, follow, log_trainer_state, refuse_episode_new, trainer_alive,
  is_ready, is_own, is_stale,
}
use apollo_mavis_v2_runtime.Coordinator.Episodes.{
  on_episode_saved, on_episode_discarded, on_gate_events, request_train_now, Call, starts, closes,
  reports, announces, saves, discards, gates, asks, step, Timed, run,
}
use apollo_mavis_v2_runtime.Coordinator.Invariant.{IsSound, run-init-IsSound}

-- An episode may begin exactly when a fresh trainer status is there and the session is in its
-- rollout phase.
pub refuse_episode_new-none :
    (c : Coordinator) (now : ℕ)
    → (refuse_episode_new c now ≡ none) ↔ ((trainer_alive c now ≡ true) × (c.phase ≡ rollout))
unfolding refuse_episode_new
refuse_episode_new-none c now = ground arith

-- A status for another session, or one older than the newest seen, changes nothing at all.
pub on_trainer_status-ignored :
    (c : Coordinator) (msg : TrainerStatus) (t now wall other seen : ℕ)
    → ((msg.session_id ≡ some other) × (other ≢ c.cfg.session_id))
      ⊎ ((c.trainer_t ≡ some seen) × (t < seen))
    → on_trainer_status c msg t now wall ≡ c
unfolding on_trainer_status
on_trainer_status-ignored c msg t now wall other seen h = ground arith

-- A status of a trainer that serves nobody yet, not older than the newest seen, shows that it is
-- alive and moves nothing.
pub on_trainer_status-unserving :
    (c : Coordinator) (msg : TrainerStatus) (t now wall : ℕ)
    → msg.session_id ≡ none
    → is_stale c.trainer_t t ≡ false
    → let c' = on_trainer_status c msg t now wall in
      (c'.trainer_t ≡ some t)
      × (c'.trainer ≡ some msg)
      × (c'.phase ≡ c.phase)
      × (c'.trainer_seen_ready ≡ c.trainer_seen_ready)
      × (c'.trainer_log ≡ c.trainer_log)
unfolding on_trainer_status emit
on_trainer_status-unserving c msg t now wall e h = ground arith

-- **Train now** is accepted exactly when no episode is open and the trainer is alive; it then
-- publishes one event with the count of rollouts, and else changes nothing.
pub request_train_now_lem :
    (c : Coordinator) (is_open : Bool) (now wall : ℕ)
    → let r = request_train_now c is_open now wall in
      ((r.1 ≡ none) ↔ ((is_open ≡ false) × (trainer_alive c now ≡ true)))
      × (r.1 ≡ none → r.0.published ≡ c.published ++ train_now c.rollouts_saved ∷ [])
      × (r.1 ≢ none → r.0 ≡ c)
unfolding request_train_now emit
request_train_now_lem c is_open now wall = ground arith

-- Any call but a report of this session's trainer that it is ready.
abbrev pub IsUnready : ℕ → Call → Type 0
IsUnready own (reports msg t) = (is_own msg.session_id own ≡ false) ⊎ (is_ready msg.state ≡ false)
IsUnready own _ = Unit

abbrev pub AllUnready : ℕ → List Timed → Type 0
AllUnready own [] = Unit
AllUnready own (k ∷ ks) = IsUnready own k.call × AllUnready own ks

-- The session waits for a trainer that has not been ready.
abbrev Awaits : ℕ → Coordinator → Type 0
Awaits own c =
    (c.cfg.session_id ≡ own)
    × (c.cfg.wait_for_trainer_ready ≡ true)
    × (c.trainer_seen_ready ≡ false)

emit-Awaits :
    (own : ℕ) (c : Coordinator) (events : List Event) (write : Bool) (now wall : ℕ)
    → Awaits own c
    → Awaits own (emit c events write now wall)
unfolding emit
emit-Awaits own c events write now wall v = ground arith

log_trainer_state-Awaits :
    (own : ℕ) (c : Coordinator) (msg : TrainerStatus) (wall : ℕ)
    → Awaits own c
    → Awaits own (log_trainer_state c msg wall).0
unfolding log_trainer_state log
log_trainer_state-Awaits own c msg wall v = ground arith

follow-Awaits :
    (own : ℕ) (c : Coordinator) (msg : TrainerStatus) (now wall : ℕ)
    → Awaits own c
    → is_ready msg.state ≡ false
    → Awaits own (follow c msg now wall)
unfolding follow
follow-Awaits own c msg now wall v unready =
    rw unready (emit-Awaits own _ [] _ now wall (log_trainer_state-Awaits own c msg wall v))

report-Awaits :
    (own : ℕ) (c : Coordinator) (msg : TrainerStatus) (t now wall : ℕ)
    → (is_own msg.session_id own ≡ false) ⊎ (is_ready msg.state ≡ false)
    → Awaits own c
    → Awaits own (on_trainer_status c msg t now wall)
unfolding on_trainer_status
report-Awaits own c msg t now wall u v =
    let seen = record c { trainer = some msg; trainer_t = some t } in
    ground (
      arith,
      follow-Awaits own seen msg now wall v,
      emit-Awaits own seen [] (write_due seen now) now wall v,
    )

step-Awaits :
    (own : ℕ) (c : Coordinator) (now wall : ℕ) (k : Call)
    → IsUnready own k
    → Awaits own c
    → Awaits own (step c now wall k)
unfolding step on_session_start close on_episode_saved on_episode_discarded on_gate_events
    request_train_now on_spec_version
step-Awaits own c now wall starts u v =
    emit-Awaits own (record c { started = true }) [] true now wall v
step-Awaits own c now wall closes u v = emit-Awaits own c [] true now wall v
step-Awaits own c now wall (reports msg t) u v = report-Awaits own c msg t now wall u v
step-Awaits own c now wall (announces version) u v = unfold emit log in ground arith
step-Awaits own c now wall (saves id index nov exp spool) u v = emit-Awaits own _ _ true now wall v
step-Awaits own c now wall (discards id index reason) u v = emit-Awaits own c _ false now wall v
step-Awaits own c now wall (gates []) u v = v
step-Awaits own c now wall (gates (p ∷ ps)) u v = emit-Awaits own c _ false now wall v
step-Awaits own c now wall (asks is_open) u v = unfold emit in ground arith

run-Awaits :
    (own : ℕ) (c : Coordinator) (ks : List Timed)
    → AllUnready own ks
    → Awaits own c
    → Awaits own (run c ks)
unfolding run
run-Awaits own c [] u v = v
run-Awaits own c (k ∷ ks) u v =
    run-Awaits own (step c k.now k.wall k.call) ks u.1 (step-Awaits own c k.now k.wall k.call u.0 v)

-- A session that is to wait for its trainer refuses every episode until a report for this session
-- says ready, whatever else happens and however long.
pub no_episode_before_ready :
    (cfg : Config) (version : Option ℕ) (wall : ℕ) (ks : List Timed) (now : ℕ)
    → cfg.wait_for_trainer_ready ≡ true
    → AllUnready cfg.session_id ks
    → refuse_episode_new (run (init cfg version wall) ks) now ≢ none
no_episode_before_ready cfg version wall ks now waits unready allowed =
    let c = run (init cfg version wall) ks in
    let at_start : Awaits cfg.session_id (init cfg version wall) =
      unfold init in (refl, waits, refl) in
    let awaits : Awaits cfg.session_id c =
      run-Awaits cfg.session_id (init cfg version wall) ks unready at_start in
    let sound : IsSound c = run-init-IsSound cfg version wall ks in
    ground (arith, (refuse_episode_new-none c now).0 allowed, awaits, sound.1.2)
