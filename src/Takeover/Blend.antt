-- ===== src/Takeover/Blend.antt =====
-- The blend time of a takeover.
use apollo_mavis_v2_runtime.Prelude.Dicts.{
  lookup, insert, remove, keys, lookup-insert, lookup-remove,
}
use apollo_mavis_v2_runtime.Prelude.{
  ℕ, ◌+◌, ◌≤◌, ◌≡◌, refl, ap, true, List, [], ◌∷◌, ◌++◌, Option, none, some, arith, append_assoc,
  append-nil, Option-cases, inl, inr,
}
use apollo_mavis_v2_runtime.Takeover.Log.{last_event, last_event-snoc}
use apollo_mavis_v2_runtime.Takeover.Rules.{
  Keeps, run-Keeps, init_ind, on_toggle_ind, tick_arm_ind, reset_arm_ind, reset_arms_ind,
}
use apollo_mavis_v2_runtime.Takeover.{
  ControlMode, policy, takeover_transition, human, auto_advance, Source, GateEvent, Gate, Call,
  is_blended, emit, reset_arm, reset, start, init, run,
}

-- The arm's newest event began a transition at `t0`.
abbrev BeganAt : Option GateEvent → ℕ → Type 0
BeganAt none t0 = ⊥
BeganAt (some e) t0 = (e.mode ≡ takeover_transition) × (e.t_mono ≡ t0)

-- The event before began a transition, and `blend` has passed from it to `t`.
abbrev pub IsBlended : Option GateEvent → ℕ → ℕ → Type 0
IsBlended none blend t = ⊥
IsBlended (some e) blend t = (e.mode ≡ takeover_transition) × (e.t_mono + blend ≤ t)

-- Each event that gives an arm to the operator comes `blend` or more after the same arm's event
-- before it, which began a transition.
abbrev pub IsEarned : ℕ → List GateEvent → List GateEvent → Type 0
IsEarned blend past [] = Unit
IsEarned blend past (e ∷ es) =
    (e.mode ≡ human → IsBlended (last_event e.arm_id past) blend e.t_mono)
    × IsEarned blend (past ++ e ∷ []) es

IsEarned-snoc :
    (blend : ℕ) (past es : List GateEvent) (e : GateEvent)
    → IsEarned blend past es
    → (e.mode ≡ human → IsBlended (last_event e.arm_id (past ++ es)) blend e.t_mono)
    → IsEarned blend past (es ++ e ∷ [])
IsEarned-snoc blend past [] e v h = (rw append-nil at h, tt)
IsEarned-snoc blend past (x ∷ es) e v h =
    (v.0, IsEarned-snoc blend (past ++ x ∷ []) es e v.1 (rw append_assoc h))

pub record IsTimed (blend : ℕ) (g : Gate) : Type 0 where
  pub steady : g.t_blend_s ≡ blend
  pub began : (a t0 : ℕ) → lookup a g.transition_t0 ≡ some t0 → BeganAt (last_event a g.events) t0
  pub earned : IsEarned blend [] g.events

module _ (blend : ℕ) where
  engage-IsTimed :
      (g : Gate) (arm t : ℕ) (source : Source)
      → IsTimed blend g
      → IsTimed blend
          (emit
            (record g { transition_t0 = insert arm t g.transition_t0 })
            arm
            takeover_transition
            t
            source).0
  unfolding emit
  engage-IsTimed g arm t source v = record {
    steady = v.steady;
    began = λ a t0 h.
        rw (last_event-snoc a g.events _)
          (ground (arith, lookup-insert arm a t g.transition_t0, v.began a t0));
    earned = IsEarned-snoc blend [] g.events _ v.earned (λ h. cc);
  }

  -- An event that ends the arm's transition, once its timer is gone.
  leave-IsTimed :
      (g : Gate) (arm t : ℕ) (m : ControlMode) (source : Source)
      → IsTimed blend g
      → (m ≡ human → IsBlended (last_event arm g.events) blend t)
      → IsTimed blend
          (emit (record g { transition_t0 = remove arm g.transition_t0 }) arm m t source).0
  unfolding emit
  leave-IsTimed g arm t m source v ripe = record {
    steady = v.steady;
    began = λ a t0 h.
        rw (last_event-snoc a g.events _)
          (ground (arith, lookup-remove arm a g.transition_t0, v.began a t0));
    earned = IsEarned-snoc blend [] g.events _ v.earned ripe;
  }

  ripe :
      (g : Gate) (arm t : ℕ)
      → IsTimed blend g
      → is_blended (lookup arm g.transition_t0) g.t_blend_s t ≡ true
      → IsBlended (last_event arm g.events) blend t
  ripe g arm t v done = elim (Option-cases (lookup arm g.transition_t0)) [
    | inl idle ↦ cc (ap (λ o. is_blended o g.t_blend_s t) idle)
    | inr (t0, at) ↦
        ground (arith, v.began arm t0 at, v.steady, ap (λ o. is_blended o g.t_blend_s t) at)
  ]

  abbrev Earned : Gate → Type 0
  Earned g = (g.t_blend_s ≡ blend) × IsEarned blend [] g.events

  reset_arm-Earned : (g : Gate) (arm : ℕ) → Earned g → Earned (reset_arm g arm).0
  reset_arm-Earned g arm v =
      reset_arm_ind Earned g arm v
        (unfold emit in (v.0, IsEarned-snoc blend [] g.events _ v.1 (λ h. cc)))

  reset-IsTimed : (g : Gate) → IsTimed blend g → IsTimed blend (reset g).0
  unfolding reset
  reset-IsTimed g v =
      let kept = reset_arms_ind Earned reset_arm-Earned g (keys g.modes) (v.steady, v.earned) in
      record { steady = kept.0; began = λ a t0 h. cc; earned = kept.1 }

  Keeps-IsTimed : Keeps (IsTimed blend)
  Keeps-IsTimed = record {
    toggled = λ g arm t source v.
        on_toggle_ind (IsTimed blend) g arm t source v (engage-IsTimed g arm t source v)
          (leave-IsTimed g arm t policy source v (λ h. cc));
    ticked = λ g arm t v.
        tick_arm_ind (IsTimed blend) g arm t v
          (λ done. leave-IsTimed g arm t human auto_advance v (λ _. ripe g arm t v done));
    returned = reset-IsTimed;
  }

start-IsTimed : (arms : List ℕ) (blend : ℕ) → IsTimed blend (start arms blend)
unfolding start
start-IsTimed arms blend = record { steady = refl; began = λ a t0 h. cc; earned = tt }

-- Through any toggles, ticks and resets from the start, an arm is given to the operator only by
-- way of a transition that the log shows, and no sooner than the blend time after it began.
pub run-IsEarned :
    (arms : List ℕ) (blend : ℕ) {g : Gate} (cs : List Call)
    → init arms blend ≡ some g
    → IsEarned blend [] (run g cs).events
run-IsEarned arms blend {g} cs e =
    (run-Keeps (IsTimed blend) (Keeps-IsTimed blend) g cs
      (init_ind (IsTimed blend) arms blend (start-IsTimed arms blend) e)).earned
