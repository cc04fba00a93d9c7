-- ===== src/Trainer/Steps.antt =====
-- What one operation of the trainer keeps, and what it may change in the directory.
use apollo_mavis_v2_runtime.Checkpoints.{
  CheckpointInfo, pointer_text, advance_latest, write_manifest,
}
use apollo_mavis_v2_runtime.Prelude.Dicts.{lookup, insert, lookup-insert}
use apollo_mavis_v2_runtime.Prelude.{
  ℕ, suc, ◌+◌, ◌<◌, ◌≤◌, ◌≡◌, refl, ap, ◌∙◌, ◌⊎◌, inl, inr, Bool, true, false, List, none, some,
  arith, ==_refl, if◌then◌else◌,
}
use apollo_mavis_v2_runtime.Trainer.Main.{
  TrainerConfig, TrainerMain, Disk, write_files, Stage, at_directory, at_bundle, at_state,
  at_manifest, at_latest, all_written,
}
use apollo_mavis_v2_runtime.Trainer.Sampling.{n_frames}
use apollo_mavis_v2_runtime.Trainer.Tuning.{Torch}

-- No entry is of a version above `n`.
abbrev pub IsFresh {ℓ} : {V : Type ℓ} → ℕ → List (ℕ × V) → Type ℓ
IsFresh n d = (k : ℕ) → n < k → lookup k d ≡ none

-- Every entry stays as it is.
abbrev pub Keeps {ℓ} : {V : Type ℓ} → List (ℕ × V) → List (ℕ × V) → Type ℓ
Keeps {V = V} d e = (k : ℕ) (v : V) → lookup k d ≡ some v → lookup k e ≡ some v

-- No file is of a version to come.
abbrev pub IsSound : TrainerMain → Type 0
IsSound t =
    IsFresh t.version t.disk.store.manifests
    × IsFresh t.version t.disk.store.state_dicts
    × IsFresh t.version t.disk.bundles

-- `LATEST` is as it was, or names a checkpoint above version `n` that passed the sanity gate and
-- whose network is the one that its manifest describes, in the trainer's own frame and space.
abbrev pub IsVouched : TrainerConfig → ℕ → Disk → Disk → Type 0
IsVouched cfg n d e =
    (e.store.latest_file ≡ d.store.latest_file)
    ⊎ ((v : ℕ) × (info : CheckpointInfo) × (n < v)
        × (e.store.latest_file ≡ some (pointer_text v))
        × (lookup v e.store.manifests ≡ some info)
        × (info.version ≡ v)
        × (info.sanity_ok ≡ true)
        × (info.action_frame ≡ cfg.action_frame)
        × (info.action_space ≡ cfg.action_space)
        × (lookup v e.store.state_dicts ≡ some info.sha256))

abbrev pub Extends : TrainerConfig → ℕ → Disk → Disk → Type 0
Extends cfg n d e =
    Keeps d.store.manifests e.store.manifests
    × Keeps d.store.state_dicts e.store.state_dicts
    × Keeps d.bundles e.bundles
    × IsVouched cfg n d e

-- As many frames as before are neither counted as trained on nor as new.
abbrev pub StaysCounted : TrainerMain → TrainerMain → Type 0
StaysCounted t u =
    (n : ℕ)
    → n + t.trained_on_frames + t.new_label_frames ≤ n_frames t.index
    → n + u.trained_on_frames + u.new_label_frames ≤ n_frames u.index

-- A step from `t` to `u`, in which only a rollback may upset the count.
abbrev pub Advances : TrainerConfig → Bool → TrainerMain → TrainerMain → Type 0
Advances cfg quiet t u =
    (t.version ≤ u.version)
    × Extends cfg t.version t.disk u.disk
    × (quiet ≡ true → StaysCounted t u)

abbrev pub Extends-refl : (cfg : TrainerConfig) (n : ℕ) (d : Disk) → Extends cfg n d d
Extends-refl cfg n d = ((λ k v h. h), (λ k v h. h), (λ k v h. h), inl refl)

pub Advances-trans :
    (cfg : TrainerConfig) (quiet : Bool) (t u v : TrainerMain)
    → Advances cfg quiet t u
    → Advances cfg quiet u v
    → Advances cfg quiet t v
Advances-trans cfg quiet t u v first second = (
  omega arith,
  (
    (λ k w h. second.1.0 k w (first.1.0 k w h)),
    (λ k w h. second.1.1 k w (first.1.1 k w h)),
    (λ k w h. second.1.2 k w (first.1.2 k w h)),
    go first.1.3 second.1.3,
  ),
  (λ q n h. second.2 q n (first.2 q n h)),
)
  where
    go :
        IsVouched cfg t.version t.disk u.disk
        → IsVouched cfg u.version u.disk v.disk
        → IsVouched cfg t.version t.disk v.disk
    go a (inr (w, info, newer, named, listed, of, sane, frame, space, saved)) =
        inr (w, info, omega (arith, newer, first.0), named, listed, of, sane, frame, space, saved)
    go (inl e) (inl f) = inl (f ∙ e)
    go (inr (w, info, newer, named, listed, of, sane, frame, space, saved)) (inl f) = inr (
      w,
      info,
      newer,
      f ∙ named,
      second.1.0 w info listed,
      of,
      sane,
      frame,
      space,
      second.1.1 w info.sha256 saved,
    )

insert-Keeps {ℓ} :
    {V : Type ℓ} (n : ℕ) (v : V) (d : List (ℕ × V)) → IsFresh n d → Keeps d (insert (suc n) v d)
insert-Keeps n v d fresh k w h = ground (arith, lookup-insert (suc n) k v d, fresh (suc n))

insert-IsFresh {ℓ} :
    {V : Type ℓ} (n : ℕ) (v : V) (d : List (ℕ × V))
    → IsFresh n d
    → IsFresh (suc n) (insert (suc n) v d)
insert-IsFresh n v d fresh k above = ground (arith, lookup-insert (suc n) k v d, fresh k)

lookup-inserted {ℓ} :
    {V : Type ℓ} (k : ℕ) (v : V) (d : List (ℕ × V)) → lookup k (insert k v d) ≡ some v
lookup-inserted k v d =
    lookup-insert k k v d ∙ ap (λ b. if b then some v else lookup k d) (==_refl k)

weaken-IsFresh {ℓ} : {V : Type ℓ} (n : ℕ) (d : List (ℕ × V)) → IsFresh n d → IsFresh (suc n) d
weaken-IsFresh n d fresh k above = fresh k (omega arith)

module _ (torch : Torch) (cfg : TrainerConfig) where
  -- The files of the next version, wherever the writing stops.
  pub write_files-Extends :
      (t : TrainerMain) (sane : Bool) (stage : Stage)
      → IsSound t
      → Extends cfg t.version t.disk (write_files torch cfg t (suc t.version) sane stage)
  unfolding write_files advance_latest write_manifest
  write_files-Extends t sane at_directory sound = Extends-refl cfg t.version t.disk
  write_files-Extends t sane at_bundle sound = Extends-refl cfg t.version t.disk
  write_files-Extends t sane at_state sound = (
    (λ k v h. h),
    insert-Keeps t.version _ t.disk.store.state_dicts sound.1,
    insert-Keeps t.version _ t.disk.bundles sound.2,
    inl refl,
  )
  write_files-Extends t sane at_manifest sound = (
    (λ k v h. h),
    insert-Keeps t.version _ t.disk.store.state_dicts sound.1,
    insert-Keeps t.version _ t.disk.bundles sound.2,
    inl refl,
  )
  write_files-Extends t sane at_latest sound = (
    insert-Keeps t.version _ t.disk.store.manifests sound.0,
    insert-Keeps t.version _ t.disk.store.state_dicts sound.1,
    insert-Keeps t.version _ t.disk.bundles sound.2,
    inl refl,
  )
  write_files-Extends t false all_written sound = (
    insert-Keeps t.version _ t.disk.store.manifests sound.0,
    insert-Keeps t.version _ t.disk.store.state_dicts sound.1,
    insert-Keeps t.version _ t.disk.bundles sound.2,
    inl refl,
  )
  write_files-Extends t true all_written sound = (
    insert-Keeps t.version _ t.disk.store.manifests sound.0,
    insert-Keeps t.version _ t.disk.store.state_dicts sound.1,
    insert-Keeps t.version _ t.disk.bundles sound.2,
    inr (
      suc t.version,
      _,
      omega arith,
      refl,
      lookup-inserted (suc t.version) _ t.disk.store.manifests,
      refl,
      refl,
      refl,
      refl,
      lookup-inserted (suc t.version) _ t.disk.store.state_dicts,
    ),
  )

  abbrev IsFreshDisk : ℕ → Disk → Type 0
  IsFreshDisk n d =
      IsFresh n d.store.manifests × IsFresh n d.store.state_dicts × IsFresh n d.bundles

  pub write_files-IsFresh :
      (t : TrainerMain) (sane : Bool) (stage : Stage)
      → IsSound t
      → IsFreshDisk (suc t.version) (write_files torch cfg t (suc t.version) sane stage)
  unfolding write_files advance_latest write_manifest
  write_files-IsFresh t sane stage sound = go sane stage
    where
      manifests : IsFresh (suc t.version) t.disk.store.manifests
      manifests = weaken-IsFresh t.version t.disk.store.manifests sound.0

      digests :
          (v : ℕ) → IsFresh (suc t.version) (insert (suc t.version) v t.disk.store.state_dicts)
      digests v = insert-IsFresh t.version v t.disk.store.state_dicts sound.1

      bundles : (v : ℕ) → IsFresh (suc t.version) (insert (suc t.version) v t.disk.bundles)
      bundles v = insert-IsFresh t.version v t.disk.bundles sound.2

      listed :
          (v : CheckpointInfo)
          → IsFresh (suc t.version) (insert (suc t.version) v t.disk.store.manifests)
      listed v = insert-IsFresh t.version v t.disk.store.manifests sound.0

      unchanged : IsFreshDisk (suc t.version) t.disk
      unchanged = (
        manifests,
        weaken-IsFresh t.version t.disk.store.state_dicts sound.1,
        weaken-IsFresh t.version t.disk.bundles sound.2,
      )

      go :
          (sane : Bool) (stage : Stage)
          → IsFreshDisk (suc t.version) (write_files torch cfg t (suc t.version) sane stage)
      go sane at_directory = unchanged
      go sane at_bundle = unchanged
      go sane at_state = (manifests, digests _, bundles _)
      go sane at_manifest = (manifests, digests _, bundles _)
      go sane at_latest = (listed _, digests _, bundles _)
      go false all_written = (listed _, digests _, bundles _)
      go true all_written = (listed _, digests _, bundles _)
