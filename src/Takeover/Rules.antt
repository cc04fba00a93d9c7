-- ===== src/Takeover/Rules.antt =====
-- Rules for the loops of the takeover gate: what each arm's turn keeps, the whole loop keeps.
use apollo_mavis_v2_runtime.Prelude.{
  ℕ, ◌≡◌, true, List, [], ◌∷◌, Option, none, some, Bool-cases, inl, inr, subst, arith,
}
use apollo_mavis_v2_runtime.Prelude.Dicts.{keys, lookup, insert, remove}
use apollo_mavis_v2_runtime.Takeover.{
  init, start, ControlMode, policy, takeover_transition, human, auto_advance, episode_reset,
  engaged_arm, is_other, is_blended, in_transition, is_engaged, emit, toggle_mode, toggle_at, Gate,
  Source, Call, toggles, ticks, resets, on_toggle, tick_arm, tick_arms, tick, reset_arm, reset_arms,
  reset, step, run,
}

-- What is to be shown of a predicate on gates.
pub record Keeps {ℓ} (P : Gate → Type ℓ) : Type ℓ where
  pub toggled : (g : Gate) (arm t : ℕ) (source : Source) → P g → P (on_toggle g arm t source).0
  pub ticked : (g : Gate) (arm t : ℕ) → P g → P (tick_arm g arm t).0
  pub returned : (g : Gate) → P g → P (reset g).0

pub tick_arms_ind {ℓ} :
    (P : Gate → Type ℓ) (t : ℕ)
    → ((g : Gate) (arm : ℕ) → P g → P (tick_arm g arm t).0)
    → (g : Gate) (arms : List ℕ) → P g
    → P (tick_arms g arms t).0
unfolding tick_arms
tick_arms_ind P t keep g [] p = p
tick_arms_ind P t keep g (a ∷ arms) p = tick_arms_ind P t keep (tick_arm g a t).0 arms (keep g a p)

pub reset_arms_ind {ℓ} :
    (P : Gate → Type ℓ)
    → ((g : Gate) (arm : ℕ) → P g → P (reset_arm g arm).0)
    → (g : Gate) (arms : List ℕ) → P g
    → P (reset_arms g arms).0
unfolding reset_arms
reset_arms_ind P keep g [] p = p
reset_arms_ind P keep g (a ∷ arms) p = reset_arms_ind P keep (reset_arm g a).0 arms (keep g a p)

toggle_mode_ind {ℓ} :
    (P : Gate → Type ℓ) (g : Gate) (m : ControlMode) (arm t : ℕ) (source : Source)
    → P
        (emit
          (record g { transition_t0 = insert arm t g.transition_t0 })
          arm
          takeover_transition
          t
          source).0
    → P (emit (record g { transition_t0 = remove arm g.transition_t0 }) arm policy t source).0
    → P (toggle_mode g m arm t source).0
unfolding toggle_mode
toggle_mode_ind P g policy arm t source engage release = engage
toggle_mode_ind P g _ arm t source engage release = release

toggle_at_ind {ℓ} :
    (P : Gate → Type ℓ) (g : Gate) (m : Option ControlMode) (arm t : ℕ) (source : Source)
    → P g
    → ((m : ControlMode) → P (toggle_mode g m arm t source).0)
    → P (toggle_at g m arm t source).0
unfolding toggle_at
toggle_at_ind P g none arm t source refused toggled = refused
toggle_at_ind P g (some m) arm t source refused toggled =
    elim (Bool-cases (is_other (engaged_arm g) arm)) [
      | inl other ↦ rw other refused
      | inr free ↦ rw free (toggled m)
    ]

-- A toggle is refused, engages the arm, or gives it back.
pub on_toggle_ind {ℓ} :
    (P : Gate → Type ℓ) (g : Gate) (arm t : ℕ) (source : Source)
    → P g
    → P
        (emit
          (record g { transition_t0 = insert arm t g.transition_t0 })
          arm
          takeover_transition
          t
          source).0
    → P (emit (record g { transition_t0 = remove arm g.transition_t0 }) arm policy t source).0
    → P (on_toggle g arm t source).0
unfolding on_toggle
on_toggle_ind P g arm t source refused engage release =
    toggle_at_ind P g (lookup arm g.modes) arm t source refused
      (λ m. toggle_mode_ind P g m arm t source engage release)

-- A tick leaves the arm alone, or hands it to the operator once its transition has lasted.
pub tick_arm_ind {ℓ} :
    (P : Gate → Type ℓ) (g : Gate) (arm t : ℕ)
    → P g
    → (is_blended (lookup arm g.transition_t0) g.t_blend_s t ≡ true
        → P
            (emit
              (record g { transition_t0 = remove arm g.transition_t0 })
              arm
              human
              t
              auto_advance).0)
    → P (tick_arm g arm t).0
unfolding tick_arm
tick_arm_ind P g arm t stay advance = elim (Bool-cases (in_transition (lookup arm g.modes))) [
  | inr still ↦ rw still stay
  | inl moving ↦ elim (Bool-cases (is_blended (lookup arm g.transition_t0) g.t_blend_s t)) [
    | inl done ↦ rw (moving, done) (advance done)
    | inr early ↦ rw (moving, early) stay
  ]
]

pub reset_arm_ind {ℓ} :
    (P : Gate → Type ℓ) (g : Gate) (arm : ℕ)
    → P g
    → P (emit g arm policy 0 episode_reset).0
    → P (reset_arm g arm).0
unfolding reset_arm
reset_arm_ind P g arm stay release = elim (Bool-cases (is_engaged (lookup arm g.modes))) [
  | inl out ↦ rw out release
  | inr in_hand ↦ rw in_hand stay
]

module _ {ℓ} (P : Gate → Type ℓ) (keeps : Keeps P) where
  step-Keeps : (g : Gate) (c : Call) → P g → P (step g c)
  unfolding step tick
  step-Keeps g (toggles arm t source) p = keeps.toggled g arm t source p
  step-Keeps g (ticks t) p = tick_arms_ind P t (λ h a. keeps.ticked h a t) g (keys g.modes) p
  step-Keeps g resets p = keeps.returned g p

  pub run-Keeps : (g : Gate) (cs : List Call) → P g → P (run g cs)
  unfolding run
  run-Keeps g [] p = p
  run-Keeps g (c ∷ cs) p = run-Keeps (step g c) cs (step-Keeps g c p)

pub init_ind {ℓ} :
    (P : Gate → Type ℓ) (arms : List ℕ) (blend : ℕ) {g : Gate}
    → P (start arms blend)
    → init arms blend ≡ some g
    → P g
unfolding init
init_ind P arms blend {g} p e = let same : start arms blend ≡ g = ground arith in subst P same p
