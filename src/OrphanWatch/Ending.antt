-- ===== src/OrphanWatch/Ending.antt =====
-- When a session is ended, and which never is.
use apollo_mavis_v2_runtime.OrphanWatch.{
  Call, OrphanSessionWatch, Reading, Watched, acts, connects, end_session, init, is_new,
  note_activity, note_controller_connected, notice_of, poll, polls, run, start, starts, step, stop,
  stops,
}
use apollo_mavis_v2_runtime.Prelude.{
  ℕ, ◌+◌, ◌≤◌, ◌<◌, ◌≡◌, ◌↔◌, ◌⊎◌, refl, true, false, All, List, [], ◌∷◌, none, some, arith,
  ==_refl,
}

-- A running session is ended exactly when it is the one being watched, nobody attends it, it had a
-- controller once, no teardown is under way, the grace period has passed since it was attended
-- last, and the teardown goes through; a grace period of zero ends none.
pub poll-ends :
    (w : OrphanSessionWatch) (p : Reading) (s : Watched)
    → p.session ≡ some s
    → ((poll w p).1 ≡ some (notice_of p s)) ↔ (
        (is_new w.watched s.session_id ≡ false)
        × (p.attended ≡ false)
        × (0 < w.grace_s)
        × (w.had_controller ≡ true)
        × (p.in_teardown ≡ false)
        × (w.attended_at + w.grace_s ≤ p.now)
        × (p.raises ≡ false))
unfolding poll end_session
poll-ends w p s e = ground (arith, e)

-- Calls that show no controller.
abbrev pub IsUndriven : Call → Type 0
IsUndriven (polls p) = p.attended ≡ false
IsUndriven (connects now) = ⊥
IsUndriven _ = Unit

abbrev Undriven : List ℕ → OrphanSessionWatch → Type 0
Undriven torn w = (w.had_controller ≡ false) × (w.torn_down ≡ torn)

step-Undriven :
    (torn : List ℕ) (w : OrphanSessionWatch) (c : Call)
    → IsUndriven c
    → Undriven torn w
    → Undriven torn (step w c)
unfolding step poll note_activity start stop
step-Undriven torn w (connects now) q v = absurd q
step-Undriven torn w (polls p) q v = ground (arith, q, v)
step-Undriven torn w (acts now) q v = v
step-Undriven torn w starts q v = ground (arith, v)
step-Undriven torn w stops q v = v

run-Undriven :
    (torn : List ℕ) (w : OrphanSessionWatch) (cs : List Call)
    → All IsUndriven cs
    → Undriven torn w
    → Undriven torn (run w cs)
unfolding run
run-Undriven torn w [] q v = v
run-Undriven torn w (c ∷ cs) q v =
    run-Undriven torn (step w c) cs q.1 (step-Undriven torn w c q.0 v)

-- From the start of the watch, and again from a poll that finds no session and nobody attending, no
-- session is ended, however long it runs, until a controller connects or a poll finds one attending.
pub run-undriven :
    (grace_s now : ℕ) (w : OrphanSessionWatch) (gap : Reading) (cs : List Call)
    → gap.session ≡ none
    → gap.attended ≡ false
    → All IsUndriven cs
    → ((run (init grace_s now) cs).torn_down ≡ [])
      × ((run w (polls gap ∷ cs)).torn_down ≡ w.torn_down)
unfolding run step poll
run-undriven grace_s now w gap cs ended alone q = (
  (run-Undriven [] (init grace_s now) cs q (unfold init in (refl, refl))).1,
  (run-Undriven w.torn_down (poll w gap).0 cs q (ground (arith, ended, alone))).1,
)

-- Where a watch has seen a controller, and the next poll finds another session with none between, a
-- grace period is all that this session gets: it is ended by the first poll after, although no
-- controller was ever there while it ran.
pub poll-inherits :
    (w : OrphanSessionWatch) (p q : Reading) (s : Watched)
    → w.had_controller ≡ true
    → 0 < w.grace_s
    → is_new w.watched s.session_id ≡ true
    → p.session ≡ some s
    → q.session ≡ some s
    → q.attended ≡ false
    → q.in_teardown ≡ false
    → q.raises ≡ false
    → p.now + w.grace_s ≤ q.now
    → (poll (poll w p).0 q).1 ≡ some (notice_of q s)
unfolding poll end_session
poll-inherits w p q s had grace new first second alone up goes late =
    ground (arith, had, new, first, second, alone, up, goes, ==_refl s.session_id)

-- A notice is shown only while no later session is watched.
abbrev pub IsShown : OrphanSessionWatch → Type 0
IsShown w = (w.watched ≡ none) ⊎ (w.notice ≡ none)

step-IsShown : (w : OrphanSessionWatch) (c : Call) → IsShown w → IsShown (step w c)
unfolding step poll end_session note_activity note_controller_connected start stop
step-IsShown w (polls p) v = ground (arith, v)
step-IsShown w (acts now) v = v
step-IsShown w (connects now) v = v
step-IsShown w starts v = ground (arith, v)
step-IsShown w stops v = v

run-keeps_IsShown : (w : OrphanSessionWatch) (cs : List Call) → IsShown w → IsShown (run w cs)
unfolding run
run-keeps_IsShown w [] v = v
run-keeps_IsShown w (c ∷ cs) v = run-keeps_IsShown (step w c) cs (step-IsShown w c v)

-- Whatever is called, the notice of a session's automatic end is gone once another is watched.
pub run-IsShown : (grace_s now : ℕ) (cs : List Call) → IsShown (run (init grace_s now) cs)
run-IsShown grace_s now cs = run-keeps_IsShown (init grace_s now) cs (unfold init in ground arith)
