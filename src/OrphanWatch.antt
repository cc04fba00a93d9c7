-- ===== src/OrphanWatch.antt =====
-- session/orphan.py: the watch that ends a session which nobody can drive any more.
-- What the session manager, the controller's flag and the clock answer during one evaluation is a
-- `Reading`; the teardown, which the source calls outside its lock, is part of the evaluation.
-- The wording of the reason is not modelled, only the episode that it names.
pub mod Ending
pub mod Grace
mod Tests
use apollo_mavis_v2_runtime.Prelude.{
  ℕ, ◌+◌, Bool, true, false, not, List, [], ◌∷◌, ◌++◌, Option, none, some, ltb, ◌==◌, if◌then◌else◌,
}

pub record Watched : Type 0 where
  pub session_id : ℕ
  pub mode : ℕ
  pub kind : ℕ

-- The core's `SessionAutoEndNotice`, with the discarded episode in place of the reason's text.
pub record Notice : Type 0 where
  pub session_id : ℕ
  pub mode : ℕ
  pub kind : ℕ
  pub ended_at : ℕ
  pub discarded : Option ℕ

pub record OrphanSessionWatch : Type 0 where
  pub grace_s : ℕ
  pub watched : Option Watched
  pub attended_at : ℕ
  pub had_controller : Bool
  pub notice : Option Notice
  pub ended : ℕ
  pub is_running : Bool  -- the thread was started
  pub torn_down : List ℕ  -- the sessions for which the manager's `teardown` was called

unfoldable pub init : ℕ → ℕ → OrphanSessionWatch
init grace_s now = record {
  grace_s = grace_s;
  watched = none;
  attended_at = now;
  had_controller = false;
  notice = none;
  ended = 0;
  is_running = false;
  torn_down = [];
}

unfoldable pub note_activity : OrphanSessionWatch → ℕ → OrphanSessionWatch
note_activity w now = record w { attended_at = now }

unfoldable pub note_controller_connected : OrphanSessionWatch → ℕ → OrphanSessionWatch
note_controller_connected w now = record w { attended_at = now; had_controller = true }

pub record Reading : Type 0 where
  pub now : ℕ
  pub session : Option Watched
  pub attended : Bool
  pub in_teardown : Bool
  pub open_episode : Option ℕ  -- `none` also where asking for it raised
  pub wall : ℕ
  pub raises : Bool  -- whether the manager's `teardown` raises
  pub after : ℕ  -- the clock after the teardown

-- `self._watched is None or self._watched.session_id != watched.session_id`
abbrev pub is_new : Option Watched → ℕ → Bool
is_new none id = true
is_new (some s) id = not (s.session_id == id)

abbrev pub notice_of : Reading → Watched → Notice
notice_of p s = record {
  session_id = s.session_id;
  mode = s.mode;
  kind = s.kind;
  ended_at = p.wall;
  discarded = p.open_episode;
}

-- The end of `poll`, from the teardown on. An exception of the teardown leaves it at once.
unfoldable pub end_session :
    OrphanSessionWatch → Reading → Watched → OrphanSessionWatch × Option Notice
end_session w p s =
    let called = record w { torn_down = w.torn_down ++ s.session_id ∷ [] } in
    if p.raises then (called, none) else (
      record called {
        notice = some (notice_of p s);
        watched = none;
        had_controller = false;
        attended_at = p.after;
        ended = w.ended + 1;
      },
      some (notice_of p s),
    )

unfoldable pub poll_session :
    OrphanSessionWatch → Reading → Option Watched → OrphanSessionWatch × Option Notice
poll_session w p none = (
  record w {
    watched = none;
    attended_at = p.now;
    had_controller = if p.attended then w.had_controller else false;
  },
  none,
)
poll_session w p (some s) =
    if is_new w.watched s.session_id
    then (record w { watched = some s; attended_at = p.now; notice = none }, none)
    else if p.attended
    then (record w { attended_at = p.now; had_controller = true }, none)
    else if w.grace_s == 0
    then (w, none)
    else if not w.had_controller
    then (w, none)
    else if p.in_teardown
    then (w, none)
    else if ltb p.now (w.attended_at + w.grace_s)
    then (w, none)
    else end_session w p s

-- One evaluation: the notice comes back exactly when it ended a session.
unfoldable pub poll : OrphanSessionWatch → Reading → OrphanSessionWatch × Option Notice
unfolding poll_session
poll w p = poll_session w p p.session

unfoldable pub start : OrphanSessionWatch → OrphanSessionWatch
start w = if w.grace_s == 0 then w else if w.is_running then w else record w { is_running = true }

unfoldable pub stop : OrphanSessionWatch → OrphanSessionWatch
stop w = record w { is_running = false }

-- What happens to the watch.
pub data Call : Type 0 where
  polls : Reading → Call
  acts connects : (now : ℕ) → Call
  starts stops : Call

unfoldable pub step : OrphanSessionWatch → Call → OrphanSessionWatch
step w (polls p) = (poll w p).0
step w (acts now) = note_activity w now
step w (connects now) = note_controller_connected w now
step w starts = start w
step w stops = stop w

unfoldable pub run : OrphanSessionWatch → List Call → OrphanSessionWatch
run w [] = w
run w (c ∷ cs) = run (step w c) cs
