-- ===== src/SafetyGate/Decisions.antt =====
-- Why each joint vector that the gate puts out may be dispatched.
use apollo_mavis_v2_runtime.Prelude.Dicts.{insert, keys, lookup, lookup-insert}
use apollo_mavis_v2_runtime.Prelude.{
  ℕ, ◌≡◌, ◌⊎◌, inl, inr, refl, ap, sym, Bool, true, false, List, [], ◌∷◌, Option, none, some, ◌==◌,
  All, Bool-cases, Option-cases, if◌then◌else◌, subst, or_else, ℤ, pos, leb_int, add_nat, arith,
}
use apollo_mavis_v2_runtime.SafetyGate.{
  GateDecision, GateTwin, SafetyGate, all_violations, is_in, meas_threshold, escape_eps_m, block,
  collect, decide_on, escapes, fail_closed, filter, filter_from, held_or_measured, is_offending,
  join_arms, let_through, per_arm, stale_twin, block_events,
}

abbrev pub Has : List (ℕ × ℕ) → ℕ → ℕ → Type 0
Has [] a q = ⊥
Has ((b, r) ∷ cmd) a q = ((a ≡ b) × (q ≡ r)) ⊎ Has cmd a q

module _ (Ok : ℕ → ℕ → Type 0) where
  -- The configurations in `safe`, and the measured ones of the arms that it lacks.
  abbrev Sound : List (ℕ × ℕ) → List (ℕ × ℕ) → Type 0
  Sound meas safe =
      ((a q : ℕ) → lookup a safe ≡ some q → Ok a q)
      × ((a q : ℕ) → lookup a safe ≡ none → lookup a meas ≡ some q → Ok a q)

  inserted :
      (safe : List (ℕ × ℕ)) (a q : ℕ)
      → Ok a q
      → ((b r : ℕ) → lookup b safe ≡ some r → Ok b r)
      → (b r : ℕ) → lookup b (insert a q safe) ≡ some r
      → Ok b r
  inserted safe a q ok holds b r e = elim (Bool-cases (a == b)) [
    | inl same ↦
        let arms : a ≡ b = ground (arith, same) in
        let values : q ≡ r = ground (arith, same, e, lookup-insert a b q safe) in
        subst (λ x. Ok x r) arms (subst (λ y. Ok a y) values ok)
    | inr other ↦ holds b r (ground (arith, other, e, lookup-insert a b q safe))
  ]

  abbrev Joined : List (ℕ × ℕ) → Option (List (ℕ × ℕ)) → Type 0
  Joined meas none = Unit
  Joined meas (some safe) = Sound meas safe

  join_arms-Joined :
      (meas safe : List (ℕ × ℕ)) (arms : List ℕ)
      → Sound meas safe
      → Joined meas (join_arms meas safe arms)
  unfolding join_arms
  join_arms-Joined meas safe [] sound = sound
  join_arms-Joined meas safe (a ∷ arms) sound = elim (Option-cases (lookup a safe)) [
    | inr (h, there) ↦ rw there (join_arms-Joined meas safe arms sound)
    | inl missing ↦ elim (Option-cases (lookup a meas)) [
      | inl unknown ↦ rw (missing, unknown) tt
      | inr (q, measured) ↦
          rw (missing, measured)
            (join_arms-Joined meas (insert a q safe) arms (
              inserted safe a q (sound.1 a q missing measured) sound.0,
              λ b r lacks m. sound.1 b r (ground (arith, lacks, lookup-insert a b q safe)) m,
            ))
    ]
  ]

  abbrev Collected : List ℕ → Option (List (ℕ × ℕ)) → Type 0
  Collected arms none = Unit
  Collected arms (some out) = All (λ e. Ok e.0 e.1) out × (keys out ≡ arms)

  add-Collected :
      (a q : ℕ) (arms : List ℕ) (r : Option (List (ℕ × ℕ)))
      → Ok a q
      → Collected arms r
      → Collected (a ∷ arms) (elim r [ none ↦ none | some qs ↦ some ((a, q) ∷ qs) ])
  add-Collected a q arms none ok p = tt
  add-Collected a q arms (some out) ok p = ((ok, p.0), ap (λ ks. a ∷ ks) p.1)

  next-Collected :
      (a : ℕ) (arms : List ℕ) (value : Option ℕ) (r : Option (List (ℕ × ℕ)))
      → ((q : ℕ) → value ≡ some q → Ok a q)
      → Collected arms r
      → Collected (a ∷ arms) (elim value [
        | none ↦ none
        | some q ↦ elim r [ none ↦ none | some qs ↦ some ((a, q) ∷ qs) ]
      ])
  next-Collected a arms none r sound p = tt
  next-Collected a arms (some q) r sound p = add-Collected a q arms r (sound q refl) p

  collect-Collected :
      (f : ℕ → Option ℕ) (arms : List ℕ)
      → ((a q : ℕ) → f a ≡ some q → Ok a q)
      → Collected arms (collect f arms)
  collect-Collected f [] sound = (tt, refl)
  collect-Collected f (a ∷ arms) sound =
      next-Collected a arms (f a) (collect f arms) (sound a) (collect-Collected f arms sound)

  held-Ok :
      (meas safe : List (ℕ × ℕ))
      → Sound meas safe
      → (a q : ℕ) → held_or_measured meas safe a ≡ some q
      → Ok a q
  held-Ok meas safe sound a q e = elim (Option-cases (lookup a safe)) [
    | inl missing ↦ sound.1 a q missing (ground (arith, missing, e))
    | inr (h, there) ↦ sound.0 a q (ground (arith, there, e))
  ]

module _ (esc off : ℕ → Bool) (Ok : ℕ → ℕ → Type 0) where
  abbrev PerArm : List (ℕ × ℕ) → Option (List (ℕ × ℕ) × List (ℕ × ℕ)) → Type 0
  PerArm cmd none = Unit
  PerArm cmd (some (out, s)) =
      All (λ e. Ok e.0 e.1) out × (keys out ≡ keys cmd) × ((a q : ℕ) → lookup a s ≡ some q → Ok a q)

  abbrev extend :
      ℕ → ℕ → ℕ → Option (List (ℕ × ℕ) × List (ℕ × ℕ)) → Option (List (ℕ × ℕ) × List (ℕ × ℕ))
  extend a b q none = none
  extend a b q (some (out, s)) = some ((a, q) ∷ out, s)

  extend-PerArm :
      (a b q : ℕ) (cmd : List (ℕ × ℕ)) (r : Option (List (ℕ × ℕ) × List (ℕ × ℕ)))
      → Ok a q
      → PerArm cmd r
      → PerArm ((a, b) ∷ cmd) (elim r [ none ↦ none | some (out, s) ↦ some ((a, q) ∷ out, s) ])
  extend-PerArm a b q cmd none ok p = tt
  extend-PerArm a b q cmd (some (out, s)) ok p = ((ok, p.0), ap (λ ks. a ∷ ks) p.1, p.2)

  per_arm_lem :
      (safe cmd : List (ℕ × ℕ))
      → ((a q : ℕ) → Has cmd a q → (off a ≡ false) ⊎ (esc a ≡ true) → Ok a q)
      → ((a q : ℕ) → lookup a safe ≡ some q → Ok a q)
      → PerArm cmd (per_arm esc off safe cmd)
  unfolding per_arm
  per_arm_lem safe [] passes holds = (tt, refl, holds)
  per_arm_lem safe ((a, q) ∷ cmd) passes holds =
      let later = λ (b r : ℕ) (h : Has cmd b r) (why : (off b ≡ false) ⊎ (esc b ≡ true)).
        passes b r (inr h) why in
      elim (Bool-cases (off a)) [
        | inr free ↦ rw free (
            extend-PerArm a q q cmd (per_arm esc off safe cmd)
              (passes a q (inl (refl, refl)) (inl free)) (per_arm_lem safe cmd later holds))
        | inl offends ↦ elim (Bool-cases (esc a)) [
          | inl out ↦
              rw (offends, out)
                (extend-PerArm a q q cmd (per_arm esc off (insert a q safe) cmd)
                  (passes a q (inl (refl, refl)) (inr out))
                  (per_arm_lem (insert a q safe) cmd later
                    (inserted Ok safe a q (passes a q (inl (refl, refl)) (inr out)) holds)))
          | inr kept ↦ elim (Option-cases (lookup a safe)) [
            | inl nothing ↦ rw (offends, kept, nothing) tt
            | inr (h, held) ↦
                rw (offends, kept, held)
                  (extend-PerArm a q h cmd (per_arm esc off safe cmd) (holds a h held)
                    (per_arm_lem safe cmd later holds))
          ]
        ]
      ]

Has-lookup : (cmd : List (ℕ × ℕ)) (a q : ℕ) → lookup a cmd ≡ some q → Has cmd a q
Has-lookup [] a q e = ground (arith, e)
Has-lookup ((b, r) ∷ cmd) a q e = elim (Bool-cases (b == a)) [
  | inl same ↦ inl (ground (arith, same), ground (arith, same, e))
  | inr other ↦ inr (Has-lookup cmd a q (ground (arith, other, e)))
]

-- The command may go out to arm `a` as far as the violated pair `p` goes: the pair does not move the
-- arm, or the command opens it by the margin and it is violated in the measured configuration.
abbrev pub IsFree : SafetyGate → GateTwin → List (ℕ × ℕ) → ℕ → ℕ → Type 0
IsFree g twin q_cmd a p =
    let d_cmd = twin.pair_distance p (some q_cmd) 500_000 in
    let d_meas = twin.pair_distance p none 500_000 in
    (is_in a (twin.arms_of_pair p) ≡ false)
    ⊎ ((leb_int (add_nat d_meas escape_eps_m) d_cmd ≡ true)
        × (leb_int (pos (meas_threshold g twin)) d_meas ≡ false))

All-IsFree :
    (g : SafetyGate) (twin : GateTwin) (q_cmd : List (ℕ × ℕ)) (a : ℕ) (pairs : List ℕ)
    → (is_offending twin pairs a ≡ false) ⊎ (escapes g twin q_cmd pairs a ≡ true)
    → All (IsFree g twin q_cmd a) pairs
unfolding escapes
All-IsFree g twin q_cmd a [] why = tt
All-IsFree g twin q_cmd a (p ∷ pairs) why = ground (arith, why, All-IsFree g twin q_cmd a pairs)

-- Why `q` may go out to arm `a`: the twin is fresh, it is the command, and every violated pair allows
-- it; or it is the arm's last safe configuration; or the arm has none, and it was measured there.
abbrev pub Dispatchable :
    SafetyGate → GateTwin → (q_cmd q_meas : List (ℕ × ℕ)) → Bool → ℕ → ℕ → Type 0
Dispatchable g twin q_cmd q_meas stale a q =
    ((stale ≡ false)
      × Has q_cmd a q
      × All (IsFree g twin q_cmd a) (keys (all_violations g twin q_cmd)))
    ⊎ (lookup a (or_else g.last_safe q_meas) ≡ some q)
    ⊎ ((lookup a (or_else g.last_safe q_meas) ≡ none) × (lookup a q_meas ≡ some q))

-- All that a decision puts out may go out, to the arms of the command and no others, and what it
-- keeps as safe as well; a decision on a stale twin is a block.
abbrev pub Decided :
    SafetyGate
    → GateTwin
    → (q_cmd q_meas : List (ℕ × ℕ)) → Bool
    → Option (SafetyGate × GateDecision)
    → Type 0
Decided g twin q_cmd q_meas stale none = Unit
Decided g twin q_cmd q_meas stale (some (g', dec)) =
    All (λ e. Dispatchable g twin q_cmd q_meas stale e.0 e.1) dec.q_out
    × (keys dec.q_out ≡ keys q_cmd)
    × ((a q : ℕ)
        → lookup a (or_else g'.last_safe []) ≡ some q
        → Dispatchable g twin q_cmd q_meas stale a q)
    × (stale ≡ true → (dec.is_blocked ≡ true) × (g'.blocked ≡ true))

module _ (g : SafetyGate) (twin : GateTwin) (q_cmd q_meas : List (ℕ × ℕ)) where
  abbrev Ok : Bool → ℕ → ℕ → Type 0
  Ok stale = Dispatchable g twin q_cmd q_meas stale

  closed-Decided :
      (safe : List (ℕ × ℕ))
      → Sound (Ok true) q_meas safe
      → Decided g twin q_cmd q_meas true (fail_closed g q_cmd q_meas safe)
  unfolding fail_closed
  closed-Decided safe sound =
      go (collect (held_or_measured q_meas safe) (keys q_cmd))
        (collect-Collected (Ok true) _ (keys q_cmd) (held-Ok (Ok true) q_meas safe sound))
    where
      go :
          (r : Option (List (ℕ × ℕ)))
          → Collected (Ok true) (keys q_cmd) r
          → Decided g twin q_cmd q_meas true (elim r [
            | none ↦ none
            | some q_out ↦ some (
              record g { last_safe = some safe; blocked = true; block_pairs = [] },
              record {
                q_out = q_out;
                is_blocked = true;
                events = if g.blocked then [] else stale_twin (keys q_cmd) ∷ [];
              },
            )
          ])
      go none p = tt
      go (some q_out) p = (p.0, p.1, sound.0, λ e. (refl, refl))

  through-Decided :
      keys (all_violations g twin q_cmd) ≡ []
      → Decided g twin q_cmd q_meas false (some (let_through g q_cmd))
  unfolding let_through
  through-Decided clear = (
    go q_cmd (λ a q h. h),
    refl,
    (λ a q e. pass a q (Has-lookup q_cmd a q e)),
    λ e. ground (arith, e),
  )
    where
      pass : (a q : ℕ) → Has q_cmd a q → Ok false a q
      pass a q h = inl (refl, h, subst (λ ps. All (IsFree g twin q_cmd a) ps) (sym clear) tt)

      go :
          (part : List (ℕ × ℕ))
          → ((a q : ℕ) → Has part a q → Has q_cmd a q)
          → All (λ e. Ok false e.0 e.1) part
      go [] within = tt
      go ((a, q) ∷ part) within =
          (pass a q (within a q (inl (refl, refl))), go part (λ b r h. within b r (inr h)))

  block-Decided :
      (safe : List (ℕ × ℕ)) (pairs : List ℕ)
      → keys (all_violations g twin q_cmd) ≡ pairs
      → Sound (Ok false) q_meas safe
      → Decided g twin q_cmd q_meas false (block g twin q_cmd safe pairs)
  unfolding block
  block-Decided safe pairs e sound =
      go (per_arm (escapes g twin q_cmd pairs) (is_offending twin pairs) safe q_cmd) (
        per_arm_lem (escapes g twin q_cmd pairs) (is_offending twin pairs) (Ok false) safe q_cmd
          (λ a q h why. inl (
            refl,
            h,
            subst (λ ps. All (IsFree g twin q_cmd a) ps) (sym e)
                (All-IsFree g twin q_cmd a pairs why),
          ))
          sound.0)
    where
      go :
          (r : Option (List (ℕ × ℕ) × List (ℕ × ℕ)))
          → PerArm (escapes g twin q_cmd pairs) (is_offending twin pairs) (Ok false) q_cmd r
          → Decided g twin q_cmd q_meas false (elim r [
            | none ↦ none
            | some (q_out, safe') ↦ some (
              record g { last_safe = some safe'; blocked = true; block_pairs = pairs },
              record { q_out = q_out; is_blocked = true; events = block_events g twin q_cmd pairs },
            )
          ])
      go none p = tt
      go (some (q_out, safe')) p = (p.0, p.1, p.2, λ f. (refl, refl))

  decide_on-Decided :
      (safe : List (ℕ × ℕ)) (viols : List (ℕ × ℤ))
      → all_violations g twin q_cmd ≡ viols
      → Sound (Ok false) q_meas safe
      → Decided g twin q_cmd q_meas false (decide_on g twin q_cmd safe viols)
  decide_on-Decided safe [] e sound = through-Decided (ap (λ v. keys v) e)
  decide_on-Decided safe (v ∷ vs) e sound =
      block-Decided safe (keys (v ∷ vs)) (ap (λ w. keys w) e) sound

  from-Decided :
      (stale : Bool) (safe : List (ℕ × ℕ))
      → Sound (Ok stale) q_meas safe
      → Decided g twin q_cmd q_meas stale (filter_from g twin q_cmd q_meas stale safe)
  from-Decided true safe sound = closed-Decided safe sound
  from-Decided false safe sound = decide_on-Decided safe (all_violations g twin q_cmd) refl sound

  start-Sound : (stale : Bool) → Sound (Ok stale) q_meas (or_else g.last_safe q_meas)
  start-Sound stale = ((λ a q e. inr (inl e)), λ a q lacks m. inr (inr (lacks, m)))

  pub filter-Decided :
      (stale : Bool) → Decided g twin q_cmd q_meas stale (filter g twin q_cmd q_meas stale)
  unfolding filter
  filter-Decided stale = go (join_arms q_meas (or_else g.last_safe q_meas) (keys q_cmd)) (
      join_arms-Joined (Ok stale) q_meas (or_else g.last_safe q_meas) (keys q_cmd)
        (start-Sound stale))
    where
      go :
          (r : Option (List (ℕ × ℕ)))
          → Joined (Ok stale) q_meas r
          → Decided g twin q_cmd q_meas stale
              (elim r [ none ↦ none | some safe ↦ filter_from g twin q_cmd q_meas stale safe ])
      go none p = tt
      go (some safe) sound = from-Decided stale safe sound
