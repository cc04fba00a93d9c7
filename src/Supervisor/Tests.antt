-- ===== src/Supervisor/Tests.antt =====
-- A tick whose arm report is late, and the theorem there.
use apollo_mavis_v2_runtime.Prelude.Dicts.{keys}
use apollo_mavis_v2_runtime.Prelude.{
  ◌≡◌, refl, true, false, List, [], ◌∷◌, some, arith, All, inl, pos,
}
use apollo_mavis_v2_runtime.SafetyGate.{GateDecision, GateTwin, SafetyGate}
use apollo_mavis_v2_runtime.SafetyGate as Gate
use apollo_mavis_v2_runtime.Supervisor.{
  ArmState, SafetySupervisor, blocked, filter_tick, init, is_stale, merged_report, reseed_arm, sync,
  warn,
}
use apollo_mavis_v2_runtime.Supervisor.FailClosed.{IsHeld, sync-filter_tick}
use apollo_mavis_v2_runtime.Watchdog as Input

abbrev twin : GateTwin
twin = record {
  inflation_m = 5000;
  check = λ q. [];
  pair_distance = λ p q far. pos 9000;
  arms_of_pair = λ p. 1 ∷ [];
}

abbrev gate : SafetyGate
gate = record {
  cfg = record { min_clearance_m = 3000; hysteresis_m = 2000 };
  last_safe = some ((1, 30) ∷ []);
  blocked = false;
  block_pairs = [];
}

abbrev supervisor : SafetySupervisor
supervisor = init (some gate) (Input.init 200 100) true 150 25

abbrev late : List ArmState
late = record { stale = false; t_mono = 0 } ∷ []

warns :
    (merged_report (record supervisor { clearances = (3, 20) ∷ [] }) ≡ warn 3 20)
    × ((reseed_arm supervisor 1 8).gate ≡ some (record gate { last_safe = some ((1, 8) ∷ []) }))
unfolding merged_report init reseed_arm Gate.reseed
warns = (refl, refl)

late-is_stale : is_stale supervisor.twin_staleness_s late 151 ≡ true
unfolding is_stale init
late-is_stale = refl

sync-filter_tick_example :
    (r : SafetySupervisor × GateDecision) × (filter_tick
        (sync supervisor late 151 [] false)
        twin
        ((1, 50) ∷ [])
        ((1, 31) ∷ [])
        false
      ≡ some r)
    × (r.1.is_blocked ≡ true)
    × (merged_report r.0 ≡ blocked)
    × (keys r.1.q_out ≡ 1 ∷ [])
    × All (λ e. IsHeld gate ((1, 31) ∷ []) e.0 e.1) r.1.q_out
sync-filter_tick_example =
    sync-filter_tick supervisor gate twin late 151 [] ((1, 50) ∷ []) ((1, 31) ∷ []) false false
      (unfold init in refl) (unfold init in refl) (inl late-is_stale) ((λ e. ground (arith, e)), tt)
