-- ===== src/OrphanWatch/Tests.antt =====
-- A Cockpit tab that is closed for good, and the theorems there.
use apollo_mavis_v2_runtime.OrphanWatch.{
  Call, OrphanSessionWatch, Reading, Watched, acts, end_session, init, note_activity,
  note_controller_connected, poll, polls, run, start, starts, step,
}
use apollo_mavis_v2_runtime.OrphanWatch.Ending.{run-undriven}
use apollo_mavis_v2_runtime.OrphanWatch.Grace.{run-grace}
use apollo_mavis_v2_runtime.Prelude.{
  ℕ, ◌+◌, ◌≡◌, refl, Bool, true, false, List, [], ◌∷◌, none, some, arith,
}

abbrev cockpit : Watched
cockpit = record { session_id = 4; mode = 0; kind = 1 }

abbrev at : ℕ → Bool → Reading
at now attended = record {
  now = now;
  session = some cockpit;
  attended = attended;
  in_teardown = false;
  open_episode = some 11;
  wall = now;
  raises = false;
  after = now + 1;
}

abbrev closed : List Call
closed =
    starts ∷ polls (at 0 true) ∷ polls (at 1 true) ∷ polls (at 20 false) ∷ polls (at 31 false) ∷ []

closed_lem :
    ((run (init 30 0) closed).torn_down ≡ 4 ∷ [])
    × ((run (init 30 0) closed).had_controller ≡ false)
unfolding run step init poll end_session start
closed_lem = (refl, refl)

abbrev left : OrphanSessionWatch
left = record {
  grace_s = 30;
  watched = some cockpit;
  attended_at = 1;
  had_controller = true;
  notice = none;
  ended = 0;
  is_running = true;
  torn_down = [];
}

-- Nothing runs and nobody is there.
abbrev gap : Reading
gap = record (at 0 false) { session = none }

abbrev alone : List Call
alone = polls (at 1 false) ∷ acts 10 ∷ polls (at 99 false) ∷ []

run-undriven_example :
    ((run (init 30 0) alone).torn_down ≡ []) × ((run left (polls gap ∷ alone)).torn_down ≡ [])
run-undriven_example = run-undriven 30 0 left gap alone refl refl (refl, (tt, (refl, tt)))

abbrev scripted : Watched
scripted = record { session_id = 5; mode = 0; kind = 1 }

abbrev at_scripted : ℕ → Reading
at_scripted now = record (at now false) { session = some scripted }

run-grace_example :
    let active = run (note_activity left 40) (polls (at 69 false) ∷ []) in
    let connected = run (note_controller_connected left 40) (polls (at 69 false) ∷ []) in
    (active.torn_down ≡ [])
    × (active.ended ≡ 0)
    × (connected.torn_down ≡ [])
    × (connected.ended ≡ 0)
run-grace_example = run-grace left 40 (polls (at 69 false) ∷ []) ((omega arith, omega arith), tt)
