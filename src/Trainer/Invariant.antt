-- ===== src/Trainer/Invariant.antt =====
-- What a burst, a checkpoint and a rollback of the trainer change, also where they raise.
use apollo_mavis_v2_runtime.Prelude.Dicts.{lookup}
use apollo_mavis_v2_runtime.Prelude.{
  ℕ, suc, Bool, true, false, Option, none, some, arith, ◌==◌, if-either,
}
use apollo_mavis_v2_runtime.Trainer.Main.{
  TrainerConfig, TrainerMain, Stage, at_latest, all_written, write_files, after_files,
  write_checkpoint, written, trained, is_throttled, after_burst, train_burst, load_trainer_state,
  load_weights_version, load_net, load_state, TrainerState,
}
use apollo_mavis_v2_runtime.Trainer.Sampling.{n_frames}
use apollo_mavis_v2_runtime.Trainer.Steps.{
  IsSound, Advances, Extends-refl, Advances-trans, write_files-Extends, write_files-IsFresh,
}
use apollo_mavis_v2_runtime.Trainer.Tuning.{Torch, Tuning, BurstStats, burst}

-- The state after is sound, and the step to it advances.
abbrev pub Steps : TrainerConfig → Bool → TrainerMain → TrainerMain → Type 0
Steps cfg quiet t u = IsSound u × Advances cfg quiet t u

pub Steps-refl :
    (cfg : TrainerConfig) (quiet : Bool) (t : TrainerMain) → IsSound t → Steps cfg quiet t t
Steps-refl cfg quiet t sound =
    (sound, (omega arith, Extends-refl cfg t.version t.disk, (λ q n h. h)))

pub Steps-trans :
    (cfg : TrainerConfig) (quiet : Bool) (t u v : TrainerMain)
    → Steps cfg quiet t u
    → Steps cfg quiet u v
    → Steps cfg quiet t v
Steps-trans cfg quiet t u v first second =
    (second.0, Advances-trans cfg quiet t u v first.1 second.1)

module _ (torch : Torch) (cfg : TrainerConfig) where
  written-Steps :
      (quiet : Bool) (t : TrainerMain) (sane : Bool) (now : ℕ) (reaches : ℕ → Stage)
      → IsSound t
      → Steps cfg quiet t (written torch cfg t sane now reaches).0
  unfolding written
  written-Steps quiet t sane now reaches sound =
      go (reaches (suc t.version)) (reaches (suc t.version))
    where
      -- The stage that the files reach, and the one that the notes are of.
      go :
          (stage noted : Stage)
          → Steps cfg quiet t
              (after_files torch cfg
                (record t {
                  version = suc t.version;
                  disk = write_files torch cfg t (suc t.version) sane stage;
                })
                (suc t.version)
                now
                sane
                noted).0
      go stage all_written = (
        write_files-IsFresh torch cfg t sane stage sound,
        (omega arith, write_files-Extends torch cfg t sane stage sound, (λ q n h. h)),
      )
      go stage at_latest = (
        write_files-IsFresh torch cfg t sane stage sound,
        (omega arith, write_files-Extends torch cfg t sane stage sound, (λ q n h. h)),
      )
      go stage _ = (
        write_files-IsFresh torch cfg t sane stage sound,
        (omega arith, write_files-Extends torch cfg t sane stage sound, (λ q n h. h)),
      )

  write_checkpoint-Steps :
      (quiet : Bool) (t : TrainerMain) (sane : Bool) (now : ℕ) (reaches : ℕ → Stage)
      → IsSound t
      → Steps cfg quiet t (write_checkpoint torch cfg t sane now reaches).0
  unfolding write_checkpoint
  write_checkpoint-Steps quiet t sane now reaches sound =
      if-either {A = TrainerMain × Bool} (λ d. Steps cfg quiet t d.0)
        (is_throttled torch cfg t.last_ckpt_ts now) (t, true) (written torch cfg t sane now reaches)
        (Steps-refl cfg quiet t sound) (written-Steps quiet t sane now reaches sound)

  trained-Steps :
      (quiet : Bool) (t : TrainerMain) (done : Tuning × BurstStats)
      → IsSound t
      → Steps cfg quiet t (trained torch cfg t done)
  unfolding trained
  trained-Steps quiet t done sound =
      (sound, (omega arith, Extends-refl cfg t.version t.disk, (λ q n h. omega (arith, h))))

  after_burst-Steps :
      (quiet : Bool) (t : TrainerMain) (now : ℕ) (reaches : ℕ → Stage)
      (done : Option (Tuning × BurstStats))
      → IsSound t
      → Steps cfg quiet t (after_burst torch cfg t now reaches done).0
  unfolding after_burst
  after_burst-Steps quiet t now reaches none sound = Steps-refl cfg quiet t sound
  after_burst-Steps quiet t now reaches (some done) sound =
      let u = trained torch cfg t done in
      let first = trained-Steps quiet t done sound in
      Steps-trans cfg quiet t u (after_burst torch cfg t now reaches (some done)).0 first
        (write_checkpoint-Steps quiet u _ now reaches first.0)

  pub train_burst-Steps :
      (quiet : Bool) (t : TrainerMain) (now : ℕ) (reaches : ℕ → Stage)
      → IsSound t
      → Steps cfg quiet t (train_burst torch cfg t now reaches).0
  unfolding train_burst
  train_burst-Steps quiet t now reaches sound =
      if-either {A = TrainerMain × Bool} (λ d. Steps cfg quiet t d.0) (n_frames t.index == 0)
        (t, true) (after_burst torch cfg t now reaches (burst torch t.index cfg.batch_size _ _ _))
        (Steps-refl cfg quiet t sound) (after_burst-Steps quiet t now reaches _ sound)

  pub load_weights_version-Steps :
      (quiet : Bool) (t : TrainerMain) (version : ℕ)
      → IsSound t
      → Steps cfg quiet t (load_weights_version t version).0
  unfolding load_weights_version
  load_weights_version-Steps quiet t version sound = go (lookup version t.disk.bundles)
    where
      go : (o : Option ℕ) → Steps cfg quiet t (load_net t o).0
      go none = Steps-refl cfg quiet t sound
      go (some net) = (sound, (omega arith, Extends-refl cfg t.version t.disk, (λ q n h. h)))

  pub load_trainer_state-Steps :
      (t : TrainerMain) (version : ℕ) → IsSound t → Steps cfg false t (load_trainer_state t version)
  unfolding load_trainer_state
  load_trainer_state-Steps t version sound = go (lookup version t.disk.trainer_states)
    where
      go : (o : Option TrainerState) → Steps cfg false t (load_state t version o)
      go none = Steps-refl cfg false t sound
      go (some s) =
          let u = record t {
            opt = s.optimizer;
            steps_total = s.steps_total;
            trained_on_frames = s.trained_on_frames;
          } in
          Steps-trans cfg false t u (load_weights_version u version).0
            (sound, (omega arith, Extends-refl cfg t.version t.disk, (λ q n h. cc)))
            (load_weights_version-Steps false u version sound)
