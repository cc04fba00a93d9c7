-- ===== src/Takeover/Loops.antt =====
-- What a whole tick and a whole reset do to one arm.
use apollo_mavis_v2_runtime.Prelude.Dicts.{lookup, keys, lookup-insert, lookup-remove}
use apollo_mavis_v2_runtime.Prelude.{
  ℕ, ◌+◌, ◌≤◌, ◌≡◌, refl, true, false, List, [], ◌∷◌, ◌++◌, none, some, arith, if◌then◌else◌, ◌==◌,
  any, Bool-cases, inl, inr, append_assoc, append-nil,
}
use apollo_mavis_v2_runtime.Takeover.{
  policy, takeover_transition, human, Gate, is_engaged, tick_arm, tick_arms, tick, reset_arm,
  reset_arms, reset,
}

lookup-any :
    {V : Type 0} (a : ℕ) (d : List (ℕ × V)) → any (λ k. k == a) (keys d) ≡ false → lookup a d ≡ none
lookup-any a [] h = refl
lookup-any a ((b, v) ∷ d) h = ground (arith, lookup-any a d)

reset_arm-mode :
    (g : Gate) (b a : ℕ)
    → is_engaged (lookup a (reset_arm g b).0.modes)
      ≡ (if b == a then false else is_engaged (lookup a g.modes))
unfolding reset_arm
reset_arm-mode g b a = ground (arith, lookup-insert b a policy g.modes)

reset_arms-mode :
    (g : Gate) (arms : List ℕ) (a : ℕ)
    → is_engaged (lookup a (reset_arms g arms).0.modes)
      ≡ (if any (λ k. k == a) arms then false else is_engaged (lookup a g.modes))
unfolding reset_arms
reset_arms-mode g [] a = refl
reset_arms-mode g (b ∷ arms) a =
    ground (arith, reset_arms-mode (reset_arm g b).0 arms a, reset_arm-mode g b a)

reset_arm-events : (g : Gate) (b : ℕ) → (reset_arm g b).0.events ≡ g.events ++ (reset_arm g b).1
unfolding reset_arm
reset_arm-events g b = ground (arith, append-nil g.events)

reset_arms-events :
    (g : Gate) (arms : List ℕ) → (reset_arms g arms).0.events ≡ g.events ++ (reset_arms g arms).1
unfolding reset_arms
reset_arms-events g [] = rw append-nil
reset_arms-events g (b ∷ arms) =
    rw
      (
        ← append_assoc g.events (reset_arm g b).1 (reset_arms (reset_arm g b).0 arms).1,
        ← reset_arm-events g b,
      )
      (reset_arms-events (reset_arm g b).0 arms)

-- At an episode's end every arm of the gate is back with the policy, no transition is timed, and
-- the events returned are those added to the log.
pub reset_lem :
    (g : Gate) (a : ℕ)
    → (is_engaged (lookup a (reset g).0.modes) ≡ false)
      × ((reset g).0.transition_t0 ≡ [])
      × ((reset g).0.events ≡ g.events ++ (reset g).1)
unfolding reset
reset_lem g a = (
  ground (arith, reset_arms-mode g (keys g.modes) a, lookup-any a g.modes),
  refl,
  reset_arms-events g (keys g.modes),
)

module _ (a t0 t : ℕ) where
  -- The arm's transition is over by `t`, or the operator has the arm.
  abbrev IsDue : Gate → Type 0
  IsDue g =
      (lookup a g.modes ≡ some takeover_transition)
      × (lookup a g.transition_t0 ≡ some t0)
      × (t0 + g.t_blend_s ≤ t)

  abbrev HasArm : Gate → Type 0
  HasArm g = lookup a g.modes ≡ some human

  tick_arm-HasArm : (g : Gate) (b : ℕ) → HasArm g → HasArm (tick_arm g b t).0
  unfolding tick_arm
  tick_arm-HasArm g b h = ground (arith, lookup-insert b a human g.modes)

  tick_arms-HasArm : (g : Gate) (arms : List ℕ) → HasArm g → HasArm (tick_arms g arms t).0
  unfolding tick_arms
  tick_arms-HasArm g [] h = h
  tick_arms-HasArm g (b ∷ arms) h = tick_arms-HasArm (tick_arm g b t).0 arms (tick_arm-HasArm g b h)

  tick_arm-IsDue : (g : Gate) (b : ℕ) → (b == a) ≡ false → IsDue g → IsDue (tick_arm g b t).0
  unfolding tick_arm
  tick_arm-IsDue g b n due =
      ground (arith, lookup-insert b a human g.modes, lookup-remove b a g.transition_t0)

  tick_arm-advances : (g : Gate) (b : ℕ) → (b == a) ≡ true → IsDue g → HasArm (tick_arm g b t).0
  unfolding tick_arm
  tick_arm-advances g b e due = ground (arith, lookup-insert b a human g.modes)

  tick_arms-advances :
      (g : Gate) (arms : List ℕ)
      → any (λ k. k == a) arms ≡ true
      → IsDue g
      → HasArm (tick_arms g arms t).0
  unfolding tick_arms
  tick_arms-advances g [] there due = cc
  tick_arms-advances g (b ∷ arms) there due = elim (Bool-cases (b == a)) [
    | inl e ↦ tick_arms-HasArm (tick_arm g b t).0 arms (tick_arm-advances g b e due)
    | inr n ↦ tick_arms-advances (tick_arm g b t).0 arms (rw n at there) (tick_arm-IsDue g b n due)
  ]

-- A tick gives the operator every arm whose transition began the blend time or longer ago.
pub tick_advances :
    (g : Gate) (a t0 t : ℕ)
    → lookup a g.modes ≡ some takeover_transition
    → lookup a g.transition_t0 ≡ some t0
    → t0 + g.t_blend_s ≤ t
    → lookup a (tick g t).0.modes ≡ some human
unfolding tick
tick_advances g a t0 t moving at due =
    tick_arms-advances a t0 t g (keys g.modes) (ground (arith, lookup-any a g.modes))
      (moving, at, due)
