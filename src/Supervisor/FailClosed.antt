-- ===== src/Supervisor/FailClosed.antt =====
-- A tick without a fresh twin moves no arm to where it was not before.
use apollo_mavis_v2_runtime.Prelude.Dicts.{keys, lookup}
use apollo_mavis_v2_runtime.Prelude.{
  ℕ, ◌≡◌, ◌⊎◌, refl, Bool, true, ◌||◌, List, [], ◌∷◌, none, some, arith, All, or_else,
}
use apollo_mavis_v2_runtime.SafetyGate.{GateDecision, GateTwin, SafetyGate}
use apollo_mavis_v2_runtime.SafetyGate.Decisions.{Dispatchable}
use apollo_mavis_v2_runtime.SafetyGate.Total.{Covers, filter_lem}
use apollo_mavis_v2_runtime.Supervisor.{
  ArmState, SafetySupervisor, filter_tick, is_stale, publish, merged_report, blocked, sync,
}

-- The arm is held: at its last safe joints, or, without any, at the measured ones.
abbrev pub IsHeld : SafetyGate → List (ℕ × ℕ) → ℕ → ℕ → Type 0
IsHeld g q_meas a q =
    (lookup a (or_else g.last_safe q_meas) ≡ some q)
    ⊎ ((lookup a (or_else g.last_safe q_meas) ≡ none) × (lookup a q_meas ≡ some q))

All-IsHeld :
    (g : SafetyGate) (twin : GateTwin) (q_cmd q_meas out : List (ℕ × ℕ))
    → All (λ e. Dispatchable g twin q_cmd q_meas true e.0 e.1) out
    → All (λ e. IsHeld g q_meas e.0 e.1) out
All-IsHeld g twin q_cmd q_meas [] h = tt
All-IsHeld g twin q_cmd q_meas ((a, q) ∷ out) h =
    (ground (arith, h.0), All-IsHeld g twin q_cmd q_meas out h.1)

-- A sync with a stale or late report, or that raises, fails the tick closed.
sync-stale :
    (s : SafetySupervisor) (states : List ArmState) (now : ℕ) (sweep : List (ℕ × ℕ)) (raises : Bool)
    → s.has_twin ≡ true
    → (is_stale s.twin_staleness_s states now ≡ true) ⊎ (raises ≡ true)
    → ((sync s states now sweep raises).stale ≡ true)
      × ((sync s states now sweep raises).gate ≡ s.gate)
unfolding sync
sync-stale s states now sweep raises twin h = ground (arith, twin, h)

-- In a tick whose sync saw a stale or late arm report, or whose twin raised in the sync or in the
-- check of the command, the supervisor still decides; it blocks, shows the block, and puts out for
-- exactly the arms of the command the joints at which the gate holds them.
pub sync-filter_tick :
    (s : SafetySupervisor) (g : SafetyGate) (twin : GateTwin) (states : List ArmState) (now : ℕ)
    (sweep q_cmd q_meas : List (ℕ × ℕ)) (sync_raises check_raises : Bool)
    → s.has_twin ≡ true
    → s.gate ≡ some g
    → (is_stale s.twin_staleness_s states now ≡ true) ⊎ (sync_raises ≡ true) ⊎ (check_raises ≡ true)
    → Covers q_meas (keys q_cmd)
    → (r : SafetySupervisor × GateDecision) × (filter_tick
          (sync s states now sweep sync_raises)
          twin
          q_cmd
          q_meas
          check_raises
        ≡ some r)
      × (r.1.is_blocked ≡ true)
      × (merged_report r.0 ≡ blocked)
      × (keys r.1.q_out ≡ keys q_cmd)
      × All (λ e. IsHeld g q_meas e.0 e.1) r.1.q_out
unfolding filter_tick publish merged_report
sync-filter_tick s g twin states now sweep q_cmd q_meas sync_raises check_raises has gated h m =
    let s' = sync s states now sweep sync_raises in
    let same : s'.gate ≡ some g = unfold sync in ground (arith, gated) in
    let closed : (s'.stale || check_raises) ≡ true = unfold sync in ground (arith, has, h) in
    let r = filter_lem g twin q_cmd q_meas true m in
    let dec = r.0.1 in
    let sup = publish (record s' { gate = some r.0.0 }) dec in
    let decided = r.2 in
    (
      (sup, dec),
      rw (same, closed, r.1),
      (decided.3 refl).0,
      rw ((decided.3 refl).0),
      decided.1,
      All-IsHeld g twin q_cmd q_meas dec.q_out decided.0,
    )
