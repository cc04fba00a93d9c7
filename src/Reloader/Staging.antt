-- ===== src/Reloader/Staging.antt =====
-- What is staged, and what of it becomes the live policy.
use apollo_mavis_v2_runtime.Checkpoints.{CheckpointInfo, CheckpointStore}
use apollo_mavis_v2_runtime.Prelude.{
  ℕ, ◌≡◌, ◌≤◌, ◌<◌, refl, Bool, true, List, [], ◌∷◌, Option, none, some, arith, All,
}
use apollo_mavis_v2_runtime.Reloader.{
  Reason, Reloader, World, reject, stage, poll, load, maybe_swap, rollback, mark_good, init, Call,
  polls, rolls_back, marks_good, stages, swaps, trains, step, run, staged_version,
}

abbrev IsVettedAt : ℕ → ℕ → Option CheckpointInfo → Type 0
IsVettedAt frame space none = Unit
IsVettedAt frame space (some c) =
    (c.sanity_ok ≡ true) × (c.action_frame ≡ frame) × (c.action_space ≡ space)

-- The live weights are those of the current version, and what is staged passed the session's tests.
pub record IsVetted (frame space : ℕ) (r : Reloader) : Type 0 where
  pub frames : r.session_action_frame ≡ frame
  pub spaces : r.session_action_space ≡ space
  pub live : r.weights ≡ r.current_version
  pub staged : IsVettedAt frame space r.staged

module _ (frame space : ℕ) where
  reject-IsVetted :
      (r : Reloader) (version : ℕ) (why : Reason)
      → IsVetted frame space r
      → IsVetted frame space (reject r version why)
  unfolding reject
  reject-IsVetted r version why v = ground arith

  stage-IsVetted :
      (s : CheckpointStore) (r : Reloader) (c : CheckpointInfo)
      → IsVetted frame space r
      → IsVetted frame space (stage s r c)
  unfolding stage
  stage-IsVetted s r c v = grind (arith, reject-IsVetted)

  poll-IsVetted :
      (s : CheckpointStore) (r : Reloader)
      → IsVetted frame space r
      → IsVetted frame space (poll s r)
  unfolding poll
  poll-IsVetted s r v = grind (arith, stage-IsVetted, reject-IsVetted)

  module _ (loads : ℕ → Bool) where
    load-IsVetted :
        (r : Reloader) (version : ℕ) (why : Reason)
        → IsVetted frame space r
        → IsVetted frame space (load loads r version why).0
    unfolding load
    load-IsVetted r version why v = grind (arith, reject-IsVetted)

    swap-IsVetted :
        (r : Reloader) (b : Bool)
        → IsVetted frame space r
        → IsVetted frame space (maybe_swap loads r b).0
    unfolding maybe_swap
    swap-IsVetted r b v = grind (arith, load-IsVetted)

    rollback-IsVetted :
        (s : CheckpointStore) (r : Reloader)
        → IsVetted frame space r
        → IsVetted frame space (rollback loads s r)
    unfolding rollback
    rollback-IsVetted s r v = grind (arith, load-IsVetted)

    step-IsVetted :
        (w : World) (c : Call)
        → IsVetted frame space w.reloader
        → IsVetted frame space (step loads w c).reloader
    unfolding step mark_good
    step-IsVetted w polls v = poll-IsVetted w.store w.reloader v
    step-IsVetted w rolls_back v = rollback-IsVetted w.store w.reloader v
    step-IsVetted w marks_good v = v
    step-IsVetted w (stages c) v = stage-IsVetted w.store w.reloader c v
    step-IsVetted w (swaps b) v = swap-IsVetted w.reloader b v
    step-IsVetted w (trains s) v = v

    run_from-IsVetted :
        (w : World) (cs : List Call)
        → IsVetted frame space w.reloader
        → IsVetted frame space (run loads w cs).reloader
    unfolding run
    run_from-IsVetted w [] v = v
    run_from-IsVetted w (c ∷ cs) v = run_from-IsVetted (step loads w c) cs (step-IsVetted w c v)

-- Whatever the trainer writes meanwhile, and whichever loads fail: after any calls the live weights
-- are those of the current version, and a staged checkpoint passed its sanity gate and fits the
-- session's action frame and action space.
pub run-IsVetted :
    (loads : ℕ → Bool) (s : CheckpointStore) (frame space version : ℕ) (cs : List Call)
    → IsVetted frame space (run loads (init s frame space version) cs).reloader
unfolding init
run-IsVetted loads s frame space version cs =
    run_from-IsVetted frame space loads _ cs
      (record { frames = refl; spaces = refl; live = refl; staged = tt })

-- A swap goes through only at an episode's end, to the staged checkpoint, which is newer than the
-- current version, and only if it loads; nothing is staged afterwards.
abbrev pub Swaps : (ℕ → Bool) → Reloader → Bool → ℕ → Reloader → Type 0
Swaps loads r b v r' =
    (b ≡ true)
    × (staged_version r ≡ some v)
    × (r.current_version < v)
    × (loads v ≡ true)
    × (r'.current_version ≡ v)
    × (r'.weights ≡ v)
    × (r'.staged ≡ none)

-- And where it does not go through, version and weights stay.
abbrev pub Stays : Reloader → Reloader → Type 0
Stays r r' = (r'.current_version ≡ r.current_version) × (r'.weights ≡ r.weights)

abbrev pub SwapResult : (ℕ → Bool) → Reloader → Bool → Reloader × Option ℕ → Type 0
SwapResult loads r b (r', none) = Stays r r'
SwapResult loads r b (r', some v) = Swaps loads r b v r'

reject-Stays :
    (r : Reloader) (version : ℕ) (why : Reason)
    → Stays r (reject r version why) × ((reject r version why).staged ≡ r.staged)
unfolding reject
reject-Stays r version why = ground arith

-- Both outcomes of `maybe_swap`, at an episode's end and elsewhere.
pub maybe_swap-SwapResult :
    (loads : ℕ → Bool) (r : Reloader) (b : Bool) → SwapResult loads r b (maybe_swap loads r b)
unfolding maybe_swap load staged_version
maybe_swap-SwapResult loads r b = grind (arith, reject-Stays)

-- Every version that becomes current without a rollback is newer than the one before it.
abbrev pub IsForward : Call → Type 0
IsForward rolls_back = ⊥
IsForward _ = Unit

maybe_swap-le :
    (loads : ℕ → Bool) (r : Reloader) (b : Bool)
    → r.current_version ≤ (maybe_swap loads r b).0.current_version
unfolding maybe_swap load
maybe_swap-le loads r b = grind (arith, reject-Stays)

stage-Stays : (s : CheckpointStore) (r : Reloader) (c : CheckpointInfo) → Stays r (stage s r c)
unfolding stage
stage-Stays s r c = grind (arith, reject-Stays)

poll-Stays : (s : CheckpointStore) (r : Reloader) → Stays r (poll s r)
unfolding poll
poll-Stays s r = grind (arith, reject-Stays, stage-Stays)

step-le :
    (loads : ℕ → Bool) (w : World) (c : Call)
    → IsForward c
    → w.reloader.current_version ≤ (step loads w c).reloader.current_version
unfolding step mark_good
step-le loads w polls f = omega (arith, poll-Stays w.store w.reloader)
step-le loads w rolls_back f = absurd f
step-le loads w marks_good f = omega arith
step-le loads w (stages c) f = omega (arith, stage-Stays w.store w.reloader c)
step-le loads w (swaps b) f = maybe_swap-le loads w.reloader b
step-le loads w (trains s) f = omega arith

-- Without a rollback the live policy only moves forward, whatever the trainer writes.
pub run-le :
    (loads : ℕ → Bool) (w : World) (cs : List Call)
    → All IsForward cs
    → w.reloader.current_version ≤ (run loads w cs).reloader.current_version
unfolding run
run-le loads w [] f = omega arith
run-le loads w (c ∷ cs) f =
    omega (arith, step-le loads w c f.0, run-le loads (step loads w c) cs f.1)
