-- ===== src/Trainer/Handover.antt =====
-- From the trainer's checkpoints to the reloader's stage.
use apollo_mavis_v2_runtime.Checkpoints.{
  CheckpointInfo, CheckpointStore, pointer_text, read_pointer, latest, read_manifest, verify,
}
use apollo_mavis_v2_runtime.Checkpoints.Pointer.{read-pointer_text}
use apollo_mavis_v2_runtime.Prelude.{
  ℕ, ◌<◌, ◌≤◌, ◌≡◌, sym, ap, ◌∙◌, ◌⊎◌, inl, inr, Bool, true, List, Option, none, some, arith, ltb,
  or_else, if◌then◌else◌,
}
use apollo_mavis_v2_runtime.Prelude.Dicts.{lookup}
use apollo_mavis_v2_runtime.Reloader.{Reloader, poll, stage, staged_version}
use apollo_mavis_v2_runtime.Trainer.Main.{TrainerConfig, Turn, Disk, newest, init, run}
use apollo_mavis_v2_runtime.Trainer.Published.{IsListed, run-init-Extends}
use apollo_mavis_v2_runtime.Trainer.Sampling.{SpoolRow}
use apollo_mavis_v2_runtime.Trainer.Steps.{IsVouched}
use apollo_mavis_v2_runtime.Trainer.Tuning.{Torch}

ltb-true : (m n : ℕ) → m < n → ltb m n ≡ true
ltb-true m n h = ground arith

stage-stages :
    (s : CheckpointStore) (r : Reloader) (c : CheckpointInfo)
    → c.sanity_ok ≡ true
    → c.action_frame ≡ r.session_action_frame
    → c.action_space ≡ r.session_action_space
    → lookup c.version s.state_dicts ≡ some c.sha256
    → r.staged ≡ none
    → staged_version (stage s r c) ≡ some c.version
unfolding stage staged_version verify
stage-stages s r c sane frames spaces saved empty = ground arith

poll-stages :
    (s : CheckpointStore) (r : Reloader) (v : ℕ) (c : CheckpointInfo)
    → latest s ≡ some v
    → r.current_version < v
    → r.staged ≡ none
    → lookup v s.manifests ≡ some c
    → staged_version (poll s r) ≡ staged_version (stage s r c)
unfolding poll read_manifest
poll-stages s r v c named newer empty listed = ground arith

module _ (torch : Torch) (cfg : TrainerConfig) where
  staged-vouched :
      (r : Reloader) (n : ℕ) (d e : Disk)
      → r.session_action_frame ≡ cfg.action_frame
      → r.session_action_space ≡ cfg.action_space
      → r.current_version ≤ n
      → r.staged ≡ none
      → IsVouched cfg n d e
      → (e.store.latest_file ≡ d.store.latest_file)
        ⊎ ((v : ℕ) × (e.store.latest_file ≡ some (pointer_text v))
            × (v < 1_000_000 → staged_version (poll e.store r) ≡ some v))
  staged-vouched r n d e frames spaces live empty (inl same) = inl same
  staged-vouched r n d e frames spaces live empty
        (inr (v, c, newer, named, listed, of, sane, frame, space, saved)) =
      inr (
        v,
        named,
        λ short.
            poll-stages e.store r v c (named_by short) (omega arith) empty listed
            ∙ stage-stages e.store r c sane (frame ∙ sym frames) (space ∙ sym spaces)
                (ap (λ k. lookup k e.store.state_dicts) of ∙ saved) empty
            ∙ ap some of,
      )
    where
      named_by : v < 1_000_000 → latest e.store ≡ some v
      named_by short =
          unfold latest in
          ap read_pointer named
          ∙ read-pointer_text v
          ∙ ap (λ b. if b then some v else none) (ltb-true v 1_000_000 short)

  -- Where the trainer has moved `LATEST` in a run from its start, to a version of six digits, a
  -- reloader of the same frame and space whose live version is at most the newest at that start,
  -- and with nothing staged, stages that version at its next poll; also where the run was ended by a
  -- raise.
  pub run-init-staged :
      (net opt : ℕ) (seed : Option (List SpoolRow)) (disk : Disk) (resume : Bool) (now : ℕ)
      (is : List Turn) (r : Reloader)
      → IsListed disk
      → r.session_action_frame ≡ cfg.action_frame
      → r.session_action_space ≡ cfg.action_space
      → r.current_version ≤ or_else (newest disk.dirs) 0
      → r.staged ≡ none
      → (let u = (run torch cfg (init net opt seed disk resume now) is).0 in
          (u.disk.store.latest_file ≡ disk.store.latest_file)
          ⊎ ((v : ℕ) × (u.disk.store.latest_file ≡ some (pointer_text v))
              × (v < 1_000_000 → staged_version (poll u.disk.store r) ≡ some v)))
  run-init-staged net opt seed disk resume now is r listed frames spaces live empty =
      let u = (run torch cfg (init net opt seed disk resume now) is).0 in
      let after = run-init-Extends torch cfg net opt seed disk resume now is listed in
      staged-vouched r (or_else (newest disk.dirs) 0) disk u.disk frames spaces live empty after.3
