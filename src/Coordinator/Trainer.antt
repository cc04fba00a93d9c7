-- ===== src/Coordinator/Trainer.antt =====
-- What the trainer reports, and what it means for the session.
use apollo_mavis_v2_runtime.Coordinator.State.{
  TrainerState, TrainerState-discrete, Phase, waiting_trainer, rollout, TrainerStatus, reported,
  swapped, Coordinator, emit, write_due, log,
}
use apollo_mavis_v2_runtime.Prelude.{
  ℕ, ◌+◌, Bool, true, false, not, ◌||◌, List, [], ◌∷◌, Option, none, some, ltb, leb, ◌==◌,
  if◌then◌else◌, min,
}

abbrev pub same_state : Option TrainerState → TrainerState → Bool
same_state none s = false
same_state (some r) s = elim (TrainerState-discrete r s) [ yes e ↦ true | no n ↦ false ]

abbrev pub is_ready : TrainerState → Bool
is_ready TrainerState.ready = true
is_ready _ = false

-- The end of `_phase_for`.
abbrev pub rollout_or_wait : Coordinator → Bool → Phase
rollout_or_wait c ready =
    if ready || c.trainer_seen_ready || not c.cfg.wait_for_trainer_ready
    then rollout
    else waiting_trainer

abbrev pub phase_for : Coordinator → TrainerState → Phase
phase_for c TrainerState.error = Phase.error
phase_for c TrainerState.training =
    if c.cfg.pause_while_training then Phase.training else rollout_or_wait c false
phase_for c TrainerState.ready = rollout_or_wait c true
phase_for c _ = rollout_or_wait c false

-- `_log_trainer_state`
unfoldable pub log_trainer_state : Coordinator → TrainerStatus → ℕ → Coordinator × Bool
log_trainer_state c msg wall = if same_state c.logged_state msg.state then (c, false) else (
  log (record c { logged_state = some msg.state })
      (record {
        at = wall;
        state = reported msg.state;
        policy_version = msg.policy_version;
        detail = msg.detail;
      }),
  true,
)

abbrev pub same_phase : Phase → Phase → Bool
same_phase waiting_trainer waiting_trainer = true
same_phase rollout rollout = true
same_phase Phase.training Phase.training = true
same_phase Phase.error Phase.error = true
same_phase _ _ = false

-- `self._trainer_t is not None and t < self._trainer_t`
abbrev pub is_stale : Option ℕ → ℕ → Bool
is_stale none t = false
is_stale (some seen) t = ltb t seen

-- A status for another session; one for this session.
abbrev pub is_foreign : Option ℕ → ℕ → Bool
is_foreign none own = false
is_foreign (some s) own = not (s == own)

abbrev pub is_own : Option ℕ → ℕ → Bool
is_own none own = false
is_own (some s) own = s == own

-- A status for this session, already kept in `c`, from the log on.
unfoldable pub follow : Coordinator → TrainerStatus → ℕ → ℕ → Coordinator
follow c msg now wall =
    let (c', changed) = log_trainer_state c msg wall in
    let latched = if is_ready msg.state then record c' { trainer_seen_ready = true } else c' in
    let moved = record latched { phase = phase_for latched msg.state } in
    emit moved [] (not (same_phase moved.phase c.phase) || changed || write_due moved now) now wall

unfoldable pub on_trainer_status : Coordinator → TrainerStatus → ℕ → ℕ → ℕ → Coordinator
on_trainer_status c msg t now wall =
    if is_stale c.trainer_t t
    then c
    else if is_foreign msg.session_id c.cfg.session_id
    then c
    else let seen = record c { trainer = some msg; trainer_t = some t } in
      if is_own msg.session_id c.cfg.session_id
      then follow seen msg now wall
      else emit seen [] (write_due seen now) now wall

abbrev pub swap_version : Coordinator → Option ℕ → ℕ → ℕ → ℕ → Coordinator
swap_version c none v now wall = record c { policy_version_acting = some v }
swap_version c (some old) v now wall =
    if old == v
    then c
    else emit
        (log (record c { policy_version_acting = some v })
          (record { at = wall; state = swapped old v; policy_version = v; detail = [] }))
        [] true now wall

unfoldable pub on_spec_version : Coordinator → ℕ → ℕ → ℕ → Coordinator
on_spec_version c v now wall = swap_version c c.policy_version_acting v now wall

abbrev is_fresh : Option ℕ → Option TrainerStatus → ℕ → ℕ → Bool
is_fresh none tr stale now = false
is_fresh (some t) none stale now = false
is_fresh (some t) (some tr) stale now = leb now (t + stale)

-- `_trainer_alive`
unfoldable pub trainer_alive : Coordinator → ℕ → Bool
trainer_alive c now = is_fresh c.trainer_t c.trainer c.cfg.spec_stale_s now

pub data Detail : Type 0 where
  no_status_yet not_serving : Detail
  said : List ℕ → Detail
  percent : ℕ → Detail
  trainer_is : TrainerState → Detail

abbrev pub by_state : TrainerState → ℕ → Detail
by_state TrainerState.training progress = percent (min 100 progress)
by_state state progress = trainer_is state

abbrev pub by_detail : TrainerStatus → List ℕ → Detail
by_detail tr [] = by_state tr.state tr.progress
by_detail tr (c ∷ cs) = said (c ∷ cs)

abbrev pub detail_from : Option TrainerStatus → ℕ → Detail
detail_from none own = no_status_yet
detail_from (some tr) own = if is_own tr.session_id own then by_detail tr tr.detail else not_serving

-- `_trainer_detail`
unfoldable pub trainer_detail : Coordinator → Detail
trainer_detail c = detail_from c.trainer c.cfg.session_id

-- `(tr.detail if tr is not None else "") or "unknown"`; the empty text stands for "unknown".
abbrev pub error_detail : Option TrainerStatus → List ℕ
error_detail none = []
error_detail (some tr) = tr.detail

pub data Refusal : Type 0 where
  no_trainer episode_open : Refusal
  trainer_error : List ℕ → Refusal
  waiting in_training : Detail → Refusal

abbrev pub refuse_in : Coordinator → Phase → Option Refusal
refuse_in c Phase.error = some (trainer_error (error_detail c.trainer))
refuse_in c waiting_trainer = some (waiting (trainer_detail c))
refuse_in c Phase.training = some (in_training (trainer_detail c))
refuse_in c rollout = none

-- Why `episode_new` is refused at `now`, if it is.
unfoldable pub refuse_episode_new : Coordinator → ℕ → Option Refusal
unfolding trainer_alive
refuse_episode_new c now =
    if not (trainer_alive c now) then some no_trainer else refuse_in c c.phase
