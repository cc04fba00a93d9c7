-- ===== src/SafetyGate/Tests.antt =====
-- Two arms over one pair of bodies, and the theorems there.
use apollo_mavis_v2_runtime.Prelude.{
  ℕ, ◌≡◌, refl, arith, true, false, List, [], ◌∷◌, Option, none, some, pos, if◌then◌else◌, All, ltb,
}
use apollo_mavis_v2_runtime.Prelude.Dicts.{lookup}
use apollo_mavis_v2_runtime.SafetyGate.{
  GateDecision, GateTwin, SafetyGate, all_violations, block, escapes, filter, init, join_arms,
  let_through, null_filter, per_arm, reseed, cleared, threshold, with_band,
}
use apollo_mavis_v2_runtime.SafetyGate.Decisions.{Decided}
use apollo_mavis_v2_runtime.SafetyGate.Total.{filter_lem}
use apollo_mavis_v2_runtime.SafetyGate.Hysteresis.{IsClear, filter-cleared}

abbrev joints : Option ℕ → ℕ
joints none = 0
joints (some q) = q

-- The pair 3 moves the arm 1 only; its distance is the arm's joint value.
abbrev twin : GateTwin
twin = record {
  inflation_m = 5000;
  check = λ q. if ltb (joints (lookup 1 q)) 8000 then (3, pos (joints (lookup 1 q))) ∷ [] else [];
  pair_distance = λ p q far. elim q [ none ↦ pos 7000 | some cmd ↦ pos (joints (lookup 1 cmd)) ];
  arms_of_pair = λ p. 1 ∷ [];
}

abbrev gate : SafetyGate
gate = init (record { min_clearance_m = 3000; hysteresis_m = 2000 })

abbrev safe_gate : SafetyGate
safe_gate = record gate { last_safe = some ((1, 9000) ∷ (2, 1) ∷ []) }

abbrev outputs : Option (SafetyGate × GateDecision) → List (ℕ × ℕ)
outputs none = []
outputs (some (g, dec)) = dec.q_out

holds :
    outputs (filter safe_gate twin ((1, 6000) ∷ (2, 7) ∷ []) ((1, 7000) ∷ (2, 1) ∷ []) false)
    ≡ (1, 9000) ∷ (2, 7) ∷ []
unfolding filter init join_arms all_violations block per_arm escapes threshold with_band
holds = refl

opens :
    outputs (filter safe_gate twin ((1, 7500) ∷ (2, 7) ∷ []) ((1, 7000) ∷ (2, 1) ∷ []) false)
    ≡ (1, 7500) ∷ (2, 7) ∷ []
unfolding filter init join_arms all_violations block per_arm escapes threshold with_band
opens = refl

reseeds :
    ((reseed gate 1 7000).last_safe ≡ some ((1, 7000) ∷ []))
    × ((null_filter ((1, 5) ∷ [])).q_out ≡ (1, 5) ∷ [])
unfolding reseed init null_filter
reseeds = (refl, refl)

abbrev toward : List (ℕ × ℕ)
toward = (1, 6000) ∷ (2, 7) ∷ []

abbrev measured : List (ℕ × ℕ)
measured = (1, 7000) ∷ (2, 1) ∷ []

filter_lem_example :
    (r : SafetyGate × GateDecision) × (filter safe_gate twin toward measured false ≡ some r)
    × Decided safe_gate twin toward measured false (some r)
filter_lem_example =
    filter_lem safe_gate twin toward measured false
      ((λ e. ground (arith, e)), ((λ e. ground (arith, e)), tt))

abbrev held_gate : SafetyGate
held_gate = record safe_gate { blocked = true; block_pairs = 3 ∷ [] }

abbrev clear_cmd : List (ℕ × ℕ)
clear_cmd = (1, 10500) ∷ (2, 7) ∷ []

filter-cleared_example :
    (false ≡ false)
    × (twin.check clear_cmd ≡ [])
    × All (IsClear twin clear_cmd (threshold held_gate twin)) (3 ∷ [])
    × (clear_cmd ≡ clear_cmd)
    × (cleared ∷ [] ≡ cleared ∷ [])
filter-cleared_example =
    filter-cleared held_gate twin clear_cmd ((1, 9000) ∷ (2, 1) ∷ []) false
      (record held_gate { last_safe = some clear_cmd; blocked = false; block_pairs = [] })
      (record { q_out = clear_cmd; is_blocked = false; events = cleared ∷ [] }) refl
      (unfold filter init join_arms all_violations threshold with_band let_through in refl) refl
