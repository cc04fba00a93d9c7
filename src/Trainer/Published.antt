-- ===== src/Trainer/Published.antt =====
-- What the trainer publishes in the directory, from its start on, and what the reloader makes of it.
use apollo_mavis_v2_runtime.Prelude.{
  ℕ, ◌+◌, ◌≤◌, ◌≡◌, refl, sym, subst, Bool, true, false, ◌&&◌, List, Option, none, some, arith, ltb,
  all, or_else, if-either,
}
use apollo_mavis_v2_runtime.Prelude.Dicts.{lookup}
use apollo_mavis_v2_runtime.Trainer.Main.{
  TrainerConfig, TrainerMain, Turn, Disk, newest, seeded, load_trainer_state, load_weights_version,
  load_net, load_state, TrainerState, started, init, run,
}
use apollo_mavis_v2_runtime.Trainer.Sampling.{SpoolRow, n_frames}
use apollo_mavis_v2_runtime.Trainer.Steps.{IsFresh, IsSound, Extends}
use apollo_mavis_v2_runtime.Trainer.Tuning.{Torch}
use apollo_mavis_v2_runtime.Trainer.Turns.{is_quiet_turn, run-Steps}

-- The directory listing names the newest files: no file is of a later version than it shows.
abbrev pub IsListed : Disk → Type 0
IsListed d =
    IsFresh (or_else (newest d.dirs) 0) d.store.manifests
    × IsFresh (or_else (newest d.dirs) 0) d.store.state_dicts
    × IsFresh (or_else (newest d.dirs) 0) d.bundles

-- Loading weights and state changes nothing but those.
load_weights_version-eq :
    (t : TrainerMain) (version : ℕ)
    → (net : ℕ) × ((load_weights_version t version).0 ≡ record t { net = net })
unfolding load_weights_version
load_weights_version-eq t version = go (lookup version t.disk.bundles)
  where
    go : (o : Option ℕ) → (net : ℕ) × ((load_net t o).0 ≡ record t { net = net })
    go none = (t.net, refl)
    go (some net) = (net, refl)

load_trainer_state-eq :
    (t : TrainerMain) (version : ℕ)
    → (net opt steps n : ℕ) × (load_trainer_state t version
        ≡ record t { net = net; opt = opt; steps_total = steps; trained_on_frames = n })
unfolding load_trainer_state
load_trainer_state-eq t version = go (lookup version t.disk.trainer_states)
  where
    go :
        (o : Option TrainerState)
        → (net opt steps n : ℕ) × (load_state t version o
            ≡ record t { net = net; opt = opt; steps_total = steps; trained_on_frames = n })
    go none = (t.net, t.opt, t.steps_total, t.trained_on_frames, refl)
    go (some s) =
        let (net, e) =
          load_weights_version-eq
            (record t {
              opt = s.optimizer;
              steps_total = s.steps_total;
              trained_on_frames = s.trained_on_frames;
            })
            version in
        (net, s.optimizer, s.steps_total, s.trained_on_frames, e)

-- A trainer that has just started on the directory.
abbrev StartsOn : Disk → TrainerMain → Type 0
StartsOn disk t = IsSound t × (t.disk ≡ disk) × (t.version ≡ or_else (newest disk.dirs) 0)

started-StartsOn :
    (net opt : ℕ) (seed : Option (List SpoolRow)) (disk : Disk) (now : ℕ)
    → IsListed disk
    → StartsOn disk (started net opt seed disk now)
unfolding started
started-StartsOn net opt seed disk now listed = ((listed.0, listed.1, listed.2), refl, refl)

init-StartsOn :
    (net opt : ℕ) (seed : Option (List SpoolRow)) (disk : Disk) (resume : Bool) (now : ℕ)
    → IsListed disk
    → StartsOn disk (init net opt seed disk resume now)
unfolding init
init-StartsOn net opt seed disk resume now listed =
    let t = started net opt seed disk now in
    let starts = started-StartsOn net opt seed disk now listed in
    let (n, o, k, m, e) = load_trainer_state-eq t t.version in
    if-either (StartsOn disk) (resume && ltb 0 t.version) (load_trainer_state t t.version) t
      (subst (StartsOn disk) (sym e) starts) starts

module _ (torch : Torch) (cfg : TrainerConfig) where
  -- From its start on any directory whose listing shows the newest version, resumed or not, whatever
  -- requests it gets, and also where a request, a burst or the writing of a file raises and ends it,
  -- the trainer changes no manifest, no digest and no network that was there, and `LATEST` is either
  -- as it was or names a version above those that were there, whose manifest says that it passed the
  -- sanity gate, is of the trainer's frame and space, and has the digest of the network saved.
  pub run-init-Extends :
      (net opt : ℕ) (seed : Option (List SpoolRow)) (disk : Disk) (resume : Bool) (now : ℕ)
      (is : List Turn)
      → IsListed disk
      → (let u = (run torch cfg (init net opt seed disk resume now) is).0 in
          Extends cfg (or_else (newest disk.dirs) 0) disk u.disk)
  run-init-Extends net opt seed disk resume now is listed =
      let starts = init-StartsOn net opt seed disk resume now listed in
      let t = init net opt seed disk resume now in
      let u = (run torch cfg t is).0 in
      let after = run-Steps torch cfg t is starts.0 in
      subst (λ d. Extends cfg (or_else (newest disk.dirs) 0) d u.disk) starts.1
        (subst (λ n. Extends cfg n t.disk u.disk) starts.2 after.1.1)

  -- A trainer that starts without `resume` and is told to roll nothing back never counts a frame
  -- twice: those of the seed, those it trained on and the new ones are together at most the frames of
  -- its index, also after an episode whose rows do not fit and after a raise.
  pub run-init-counted :
      (net opt : ℕ) (seed : Option (List SpoolRow)) (disk : Disk) (now : ℕ) (is : List Turn)
      → IsListed disk
      → all (λ i. is_quiet_turn i.received) is ≡ true
      → (let u = (run torch cfg (init net opt seed disk false now) is).0 in
          n_frames (seeded seed) + u.trained_on_frames + u.new_label_frames ≤ n_frames u.index)
  run-init-counted net opt seed disk now is listed quiet =
      let t = init net opt seed disk false now in
      let starts = init-StartsOn net opt seed disk false now listed in
      let after = run-Steps torch cfg t is starts.0 in
      after.1.2 quiet (n_frames (seeded seed)) counted
    where
      counted :
          (let t = init net opt seed disk false now in
            n_frames (seeded seed) + t.trained_on_frames + t.new_label_frames ≤ n_frames t.index)
      counted = unfold init started in omega arith
