-- ===== src/SafetyGate/Total.antt =====
-- The gate answers every command whose arms are measured.
use apollo_mavis_v2_runtime.Prelude.Dicts.{insert, keys, lookup, lookup-insert}
use apollo_mavis_v2_runtime.Prelude.{
  ℕ, ◌≡◌, ◌≢◌, refl, Bool, true, false, List, [], ◌∷◌, none, some, All, Option-cases, subst, inl,
  inr, or_else, ℤ, arith,
}
use apollo_mavis_v2_runtime.SafetyGate.{
  GateDecision, GateTwin, SafetyGate, all_violations, block, collect, decide_on, escapes,
  fail_closed, filter, filter_from, held_or_measured, is_offending, join_arms, per_arm,
}
use apollo_mavis_v2_runtime.SafetyGate.Decisions.{Decided, filter-Decided}

-- Every one of these arms has an entry.
abbrev pub Covers : List (ℕ × ℕ) → List ℕ → Type 0
Covers d arms = All (λ a. lookup a d ≢ none) arms

insert-Covers :
    (d : List (ℕ × ℕ)) (a q : ℕ) (arms : List ℕ) → Covers d arms → Covers (insert a q d) arms
insert-Covers d a q [] c = tt
insert-Covers d a q (b ∷ arms) c =
    ((λ e. ground (arith, e, c.0, lookup-insert a b q d)), insert-Covers d a q arms c.1)

-- The arms that are covered already stay so, and all others come to be.
join_arms-Covers :
    (meas safe : List (ℕ × ℕ)) (arms done : List ℕ)
    → Covers meas arms
    → Covers safe done
    → (s : List (ℕ × ℕ)) × (join_arms meas safe arms ≡ some s) × Covers s done × Covers s arms
unfolding join_arms
join_arms-Covers meas safe [] done m c = (safe, refl, c, tt)
join_arms-Covers meas safe (a ∷ arms) done m c = elim (Option-cases (lookup a safe)) [
  | inr (h, there) ↦
      let r = join_arms-Covers meas safe arms (a ∷ done) m.1 ((λ e. ground (arith, e, there)), c) in
      (r.0, (rw there r.1), r.2.1, (r.2.0, r.3))
  | inl missing ↦ elim (Option-cases (lookup a meas)) [
    | inl unknown ↦ absurd (m.0 unknown)
    | inr (q, measured) ↦
        let there : lookup a (insert a q safe) ≢ none =
          λ e. ground (arith, e, lookup-insert a a q safe) in
        let r =
          join_arms-Covers meas (insert a q safe) arms (a ∷ done) m.1
            (there, insert-Covers safe a q done c) in
        (r.0, (rw (missing, measured) r.1), r.2.1, (r.2.0, r.3))
  ]
]

per_arm_total :
    (esc off : ℕ → Bool) (safe cmd : List (ℕ × ℕ))
    → Covers safe (keys cmd)
    → per_arm esc off safe cmd ≢ none
unfolding per_arm
per_arm_total esc off safe [] c = λ e. ground (arith, e)
per_arm_total esc off safe ((a, q) ∷ cmd) c = ground (
  arith,
  c.0,
  per_arm_total esc off safe cmd c.1,
  per_arm_total esc off (insert a q safe) cmd (insert-Covers safe a q (keys cmd) c.1),
)

collect_total :
    (meas safe : List (ℕ × ℕ)) (arms : List ℕ)
    → Covers meas arms
    → collect (held_or_measured meas safe) arms ≢ none
collect_total meas safe [] c = λ e. ground (arith, e)
collect_total meas safe (a ∷ arms) c = ground (arith, c.0, collect_total meas safe arms c.1)

module _ (g : SafetyGate) (twin : GateTwin) (q_cmd q_meas : List (ℕ × ℕ)) where
  decide_on_total :
      (safe : List (ℕ × ℕ)) (viols : List (ℕ × ℤ))
      → Covers safe (keys q_cmd)
      → decide_on g twin q_cmd safe viols ≢ none
  unfolding block
  decide_on_total safe [] c = λ e. ground (arith, e)
  decide_on_total safe (v ∷ vs) c =
      let pairs = keys (v ∷ vs) in
      ground
        (arith, per_arm_total (escapes g twin q_cmd pairs) (is_offending twin pairs) safe q_cmd c)

  from_total :
      (stale : Bool) (safe : List (ℕ × ℕ))
      → Covers q_meas (keys q_cmd)
      → Covers safe (keys q_cmd)
      → filter_from g twin q_cmd q_meas stale safe ≢ none
  unfolding fail_closed
  from_total true safe m c = ground (arith, collect_total q_meas safe (keys q_cmd) m)
  from_total false safe m c = decide_on_total safe (all_violations g twin q_cmd) c

  filter_total :
      (stale : Bool) → Covers q_meas (keys q_cmd) → filter g twin q_cmd q_meas stale ≢ none
  unfolding filter
  filter_total stale m =
      let r = join_arms-Covers q_meas (or_else g.last_safe q_meas) (keys q_cmd) [] m tt in
      ground (arith, r.1, from_total stale r.0 m r.3)

-- The gate decides about every command whose arms are measured, and of each decision: an arm gets its
-- commanded joints only if the twin is fresh and either no violated pair moves the arm, or each such
-- pair opens by the margin and was violated already; else it gets its last safe joints, or the
-- measured ones where it has none. The arms of the decision are those of the command. What is kept
-- as safe for later is such a configuration too, and a stale twin always blocks.
pub filter_lem :
    (g : SafetyGate) (twin : GateTwin) (q_cmd q_meas : List (ℕ × ℕ)) (stale : Bool)
    → Covers q_meas (keys q_cmd)
    → (r : SafetyGate × GateDecision) × (filter g twin q_cmd q_meas stale ≡ some r)
      × Decided g twin q_cmd q_meas stale (some r)
filter_lem g twin q_cmd q_meas stale m = elim (Option-cases (filter g twin q_cmd q_meas stale)) [
  | inl nothing ↦ absurd (filter_total g twin q_cmd q_meas stale m nothing)
  | inr (r, e) ↦ (
    r,
    e,
    subst (λ o. Decided g twin q_cmd q_meas stale o) e (filter-Decided g twin q_cmd q_meas stale),
  )
]
