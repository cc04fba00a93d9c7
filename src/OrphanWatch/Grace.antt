-- ===== src/OrphanWatch/Grace.antt =====
-- The grace period: what separates a reload from an orphan.
use apollo_mavis_v2_runtime.OrphanWatch.{
  Call, OrphanSessionWatch, acts, connects, note_activity, note_controller_connected, poll, polls,
  run, start, starts, step, stop, stops,
}
use apollo_mavis_v2_runtime.Prelude.{ℕ, ◌+◌, ◌≤◌, ◌<◌, ◌≡◌, All, List, [], ◌∷◌, arith}

-- Every reading of the clock is at `from` or later, and before `until`.
abbrev pub IsWithin : ℕ → ℕ → Call → Type 0
IsWithin from until (polls p) = (from ≤ p.now) × (p.now < until)
IsWithin from until (acts now) = (from ≤ now) × (now < until)
IsWithin from until (connects now) = (from ≤ now) × (now < until)
IsWithin from until _ = Unit

abbrev Attended : ℕ → OrphanSessionWatch → OrphanSessionWatch → Type 0
Attended from w w' =
    (w'.grace_s ≡ w.grace_s)
    × (w'.torn_down ≡ w.torn_down)
    × (w'.ended ≡ w.ended)
    × (from ≤ w'.attended_at)

step-Attended :
    (from : ℕ) (w w' : OrphanSessionWatch) (c : Call)
    → IsWithin from (from + w.grace_s) c
    → Attended from w w'
    → Attended from w (step w' c)
unfolding step poll note_activity note_controller_connected start stop
step-Attended from w w' (polls p) q v = ground (arith, q, v)
step-Attended from w w' (acts now) q v = ground (arith, q, v)
step-Attended from w w' (connects now) q v = ground (arith, q, v)
step-Attended from w w' starts q v = ground (arith, v)
step-Attended from w w' stops q v = v

run-Attended :
    (from : ℕ) (w w' : OrphanSessionWatch) (cs : List Call)
    → All (IsWithin from (from + w.grace_s)) cs
    → Attended from w w'
    → Attended from w (run w' cs)
unfolding run
run-Attended from w w' [] q v = v
run-Attended from w w' (c ∷ cs) q v =
    run-Attended from w (step w' c) cs q.1 (step-Attended from w w' c q.0 v)

-- A sign of the operator at `now`, a controller's connection or a call over REST, keeps every
-- session up for the whole grace period, whatever happens in it.
pub run-grace :
    (w : OrphanSessionWatch) (now : ℕ) (cs : List Call)
    → All (IsWithin now (now + w.grace_s)) cs
    → let active = run (note_activity w now) cs in
      let connected = run (note_controller_connected w now) cs in
      (active.torn_down ≡ w.torn_down)
      × (active.ended ≡ w.ended)
      × (connected.torn_down ≡ w.torn_down)
      × (connected.ended ≡ w.ended)
run-grace w now cs q =
    let a = run-Attended now w (note_activity w now) cs q (unfold note_activity in ground arith) in
    let b =
      run-Attended now w (note_controller_connected w now) cs q
        (unfold note_controller_connected in ground arith) in
    (a.1, a.2, b.1, b.2)
