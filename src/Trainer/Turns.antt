-- ===== src/Trainer/Turns.antt =====
-- The turns of the trainer's loop, and what a run of them leaves, also where one raises.
use apollo_mavis_v2_runtime.Prelude.{
  ℕ, ◌+◌, ◌≤◌, ◌≡◌, or_else, ℤ, pos, negsuc, Bool, true, false, ◌&&◌, List, [], ◌∷◌, Option, none,
  some, arith, leb, all, not, if-either,
}
use apollo_mavis_v2_runtime.Trainer.Control.{
  Request, ask_status, submit_episode, train_now, roll_back, stop, unknown, Received, nothing,
  garbled, no_object, message, Reply, is_ok, ControlEndpoint, poll, received,
}
use apollo_mavis_v2_runtime.Trainer.Labels.{add_episode-n_frames}
use apollo_mavis_v2_runtime.Trainer.Main.{
  TrainerConfig, TrainerMain, Turn, train_burst, roll_back_to, submitted, submit_rows, replied,
  answer, at_boundary, on_poll, is_orphan, load_trainer_state, load_weights_version, handle, turn,
  run,
}
use apollo_mavis_v2_runtime.Trainer.Sampling.{SpoolRow, LabelIndex, n_frames, add_episode}
use apollo_mavis_v2_runtime.Trainer.Steps.{IsSound, Extends-refl}
use apollo_mavis_v2_runtime.Trainer.Invariant.{
  Steps, Steps-refl, Steps-trans, train_burst-Steps, load_trainer_state-Steps,
  load_weights_version-Steps,
}
use apollo_mavis_v2_runtime.Trainer.Tuning.{Torch}

-- A request that rolls nothing back.
abbrev is_quiet : Request → Bool
is_quiet (roll_back version) = false
is_quiet _ = true

abbrev pub is_quiet_turn : Received → Bool
is_quiet_turn (message req) = is_quiet req
is_quiet_turn _ = true

module _ (torch : Torch) (cfg : TrainerConfig) where
  submit_rows-Steps :
      (t : TrainerMain) (episode_index : ℤ) (episode_id : ℕ) (rows : Option (List SpoolRow))
      → IsSound t
      → Steps cfg true t (submit_rows torch cfg t episode_index episode_id rows).0
  submit_rows-Steps t episode_index episode_id none sound = Steps-refl cfg true t sound
  submit_rows-Steps t episode_index episode_id (some rows) sound =
      go (add_episode t.index episode_index rows episode_id)
        (add_episode-n_frames t.index episode_index rows episode_id)
    where
      go :
          (added : LabelIndex × Option ℕ)
          → n_frames t.index + or_else added.1 0 ≤ n_frames added.0
          → Steps cfg true t (submitted torch cfg t added).0
      go (index, none) grows =
          (sound, (omega arith, Extends-refl cfg t.version t.disk, (λ q n h. omega (arith, h))))
      go (index, some k) grows =
          (sound, (omega arith, Extends-refl cfg t.version t.disk, (λ q n h. omega (arith, h))))

  roll_back_to-Steps :
      (t : TrainerMain) (version : ℕ)
      → IsSound t
      → Steps cfg false t (roll_back_to torch cfg t version).0
  unfolding roll_back_to
  roll_back_to-Steps t version sound =
      let first = load_weights_version-Steps torch cfg false t version sound in
      let u = (load_weights_version t version).0 in
      let second = load_trainer_state-Steps torch cfg u version first.0 in
      let both = Steps-trans cfg false t u (load_trainer_state u version) first second in
      if-either {A = TrainerMain × Reply} (λ d. Steps cfg false t d.0)
        (load_weights_version t version).1
        (record (load_trainer_state u version) { parent_version = some version }, is_ok true)
        (u, is_ok false) both first

  handle-Steps :
      (t : TrainerMain) (i : Turn) (req : Request)
      → IsSound t
      → Steps cfg (is_quiet req) t (handle torch cfg t i req).0
  unfolding handle
  handle-Steps t i ask_status sound =
      (sound, (omega arith, Extends-refl cfg t.version t.disk, (λ q n h. h)))
  handle-Steps t i (submit_episode path episode_index episode_id) sound =
      submit_rows-Steps t episode_index episode_id (i.spool path) sound
  handle-Steps t i train_now sound = train_burst-Steps torch cfg true t i.handled_at i.reaches sound
  handle-Steps t i (roll_back none) sound = Steps-refl cfg false t sound
  handle-Steps t i (roll_back (some (pos version))) sound = roll_back_to-Steps t version sound
  handle-Steps t i (roll_back (some (negsuc n))) sound = Steps-refl cfg false t sound
  handle-Steps t i stop sound =
      (sound, (omega arith, Extends-refl cfg t.version t.disk, (λ q n h. h)))
  handle-Steps t i unknown sound = Steps-refl cfg true t sound

  replied-Steps :
      (quiet : Bool) (t : TrainerMain) (i : Turn) (d : TrainerMain × Option Reply)
      → Steps cfg quiet t d.0
      → Steps cfg quiet t (replied torch cfg i d).0
  replied-Steps quiet t i (u, none) s = s
  replied-Steps quiet t i (u, some payload) s = s

  -- From a turn's state, whatever the socket's end looks like.
  answer-Steps :
      (t : TrainerMain) (i : Turn) (r : Received)
      → IsSound t
      → Steps cfg
          (is_quiet_turn r)
          t
          (answer torch cfg
            (record t { control = (received t.control r).0 })
            i
            (received t.control r).1).0
  answer-Steps t i nothing sound = Steps-refl cfg true t sound
  answer-Steps t i garbled sound = Steps-refl cfg true t sound
  answer-Steps t i no_object sound = replied-Steps true t i _ (handle-Steps _ i unknown sound)
  answer-Steps t i (message req) sound =
      replied-Steps (is_quiet req) t i _ (handle-Steps _ i req sound)

  at_boundary-Steps :
      (quiet : Bool) (t : TrainerMain) (i : Turn) (d : TrainerMain × Bool)
      → Steps cfg quiet t d.0
      → Steps cfg quiet t (at_boundary torch cfg i d).0
  at_boundary-Steps quiet t i (u, false) s = s
  at_boundary-Steps quiet t i (u, true) s =
      if-either {A = TrainerMain × Bool} (λ d. Steps cfg quiet t d.0)
        (u.boundary_pending && leb cfg.min_new_labels u.new_label_frames)
        (train_burst torch cfg (record u { boundary_pending = false }) i.trained_at i.reaches)
        (u, true)
        (Steps-trans cfg quiet t u
          (train_burst torch cfg (record u { boundary_pending = false }) i.trained_at i.reaches).0 s
          (train_burst-Steps torch cfg quiet (record u { boundary_pending = false }) i.trained_at
            i.reaches s.0))
        s

  turn-Steps :
      (t : TrainerMain) (i : Turn)
      → IsSound t
      → Steps cfg (is_quiet_turn i.received) t (turn torch cfg t i).0
  unfolding turn poll
  turn-Steps t i sound =
      let quiet = is_quiet_turn i.received in
      let p = received t.control i.received in
      if-either {A = Option (ControlEndpoint × Option Request)}
        (λ o. Steps cfg quiet t (on_poll torch cfg t i o).0) t.control.pending none (some p)
        (Steps-refl cfg quiet t sound)
        (at_boundary-Steps quiet t i (answer torch cfg (record t { control = p.0 }) i p.1)
          (answer-Steps t i i.received sound))

  weaken-Steps :
      (a b : Bool) (t u : TrainerMain) → (b ≡ true → a ≡ true) → Steps cfg a t u → Steps cfg b t u
  weaken-Steps a b t u weaker s = (s.0, (s.1.0, s.1.1, (λ q n h. s.1.2 (weaker q) n h)))

  -- Wherever the run ends: at its last turn, on request, as an orphan, or by a raise.
  pub run-Steps :
      (t : TrainerMain) (is : List Turn)
      → IsSound t
      → Steps cfg (all (λ i. is_quiet_turn i.received) is) t (run torch cfg t is).0
  unfolding run
  run-Steps t [] sound = Steps-refl cfg true t sound
  run-Steps t (i ∷ is) sound =
      let a = is_quiet_turn i.received in
      let b = all (λ i. is_quiet_turn i.received) is in
      let (u, ok) = turn torch cfg t i in
      let first = weaken-Steps a (a && b) t u (λ h. ground arith) (turn-Steps t i sound) in
      let later =
        weaken-Steps b (a && b) u (run torch cfg u is).0 (λ h. ground arith)
          (run-Steps u is first.0) in
      let P : TrainerMain × Bool → Type 0 = λ d. Steps cfg (a && b) t d.0 in
      if-either P t.stops (t, true) _ (Steps-refl cfg (a && b) t sound)
        (if-either P (not ok) (u, false) _ first
          (if-either P (is_orphan torch cfg u i) (u, true) (run torch cfg u is) first
            (Steps-trans cfg (a && b) t u (run torch cfg u is).0 first later)))
