-- ===== src/IdleReader/Released.antt =====
-- While a session has the arms, the reader holds no driver.
use mathlib.Core.Bool.{true≢false}
use mathlib.Core.Option.{none-ne-some}
use apollo_mavis_v2_runtime.IdleReader.{
  Drivers, disconnect, Place, at_head, wants_lock, locked, reading, ended, IdleArmReader,
  pause_asks, pause_takes, stop_asks, stop_ends, holds_lock, paused, off, resume, step_at,
  thread_step,
}
use apollo_mavis_v2_runtime.Prelude.{
  ◌≡◌, refl, sym, ap, ◌∙◌, subst, Bool, true, false, List, [], ◌∷◌, Option, none, some, all,
  and-true, if◌then◌else◌, arith,
}

pub data Event : Type 0 where
  steps : Drivers → Event
  asks_pause takes_pause asks_stop ends_stop resumes : Event

abbrev pub keeps_pause : Event → Bool
keeps_pause resumes = false
keeps_pause _ = true

-- An event that cannot happen yet, as the lock is held, changes nothing.
abbrev or_waits : IdleArmReader → Option IdleArmReader → IdleArmReader
or_waits r none = r
or_waits r (some u) = u

unfoldable pub event : IdleArmReader → Event → IdleArmReader
event r (steps d) = thread_step d r
event r asks_pause = pause_asks r
event r takes_pause = or_waits r (pause_takes r)
event r asks_stop = stop_asks r
event r ends_stop = stop_ends r
event r resumes = resume r

unfoldable pub run : IdleArmReader → List Event → IdleArmReader
run r [] = r
run r (e ∷ es) = run (event r e) es

abbrev is_reading : Place → Bool
is_reading reading = true
is_reading _ = false

-- Paused, with no driver, and the thread not past its second test of the pause.
abbrev IsReleased : IdleArmReader → Type 0
IsReleased r = (r.paused ≡ true) × ((r.source).drivers ≡ []) × (is_reading r.place ≡ false)

step-IsReleased :
    (d : Drivers) (r : IdleArmReader) (p : Place)
    → r.place ≡ p
    → IsReleased r
    → IsReleased (step_at d r p)
step-IsReleased d r at_head e (is_paused, empty, out) = (ground arith, ground arith, ground arith)
step-IsReleased d r wants_lock e (is_paused, empty, out) = (is_paused, empty, refl)
step-IsReleased d r locked e (is_paused, empty, out) = (ground arith, ground arith, ground arith)
step-IsReleased d r reading e (is_paused, empty, out) =
    absurd (true≢false (ap is_reading (sym e) ∙ out))
step-IsReleased d r ended e (is_paused, empty, out) = (is_paused, empty, out)

some-inj : {r u : IdleArmReader} → some r ≡ some u → r ≡ u
some-inj h = cc

takes-IsReleased : (r : IdleArmReader) → IsReleased r → IsReleased (or_waits r (pause_takes r))
unfolding pause_takes disconnect
takes-IsReleased r (is_paused, empty, out) = go (holds_lock r.place)
  where
    go :
        (b : Bool)
        → IsReleased (
            or_waits r (
              if b
              then none
              else some (record r {
                source = disconnect r.source;
                status = if r.running then paused else off;
              })))
    go true = (is_paused, empty, out)
    go false = (is_paused, refl, out)

event-IsReleased :
    (r : IdleArmReader) (e : Event) → keeps_pause e ≡ true → IsReleased r → IsReleased (event r e)
unfolding event thread_step pause_asks stop_asks stop_ends disconnect
event-IsReleased r (steps d) keeps h = step-IsReleased d r r.place refl h
event-IsReleased r asks_pause keeps h = (refl, h.1, h.2)
event-IsReleased r takes_pause keeps h = takes-IsReleased r h
event-IsReleased r asks_stop keeps h = h
event-IsReleased r ends_stop keeps h = (h.0, refl, h.2)
event-IsReleased r resumes keeps h = cc

run-keeps :
    (r : IdleArmReader) (es : List Event)
    → all keeps_pause es ≡ true
    → IsReleased r
    → IsReleased (run r es)
unfolding run
run-keeps r [] keeps h = h
run-keeps r (e ∷ es) keeps h =
    let both = and-true (keeps_pause e) (all keeps_pause es) keeps in
    run-keeps (event r e) es both.1 (event-IsReleased r e both.0 h)

taken-IsReleased : (r u : IdleArmReader) → r.paused ≡ true → pause_takes r ≡ some u → IsReleased u
unfolding pause_takes disconnect
taken-IsReleased r u is_paused taken = go r.place refl taken
  where
    after : IdleArmReader
    after = record r { source = disconnect r.source; status = if r.running then paused else off }

    go :
        (p : Place)
        → r.place ≡ p
        → (if holds_lock p then none else some after) ≡ some u
        → IsReleased u
    go locked e t = absurd (none-ne-some u t)
    go reading e t = absurd (none-ne-some u t)
    go at_head e t = subst IsReleased (some-inj t) (is_paused, refl, ap is_reading e)
    go wants_lock e t = subst IsReleased (some-inj t) (is_paused, refl, ap is_reading e)
    go ended e t = subst IsReleased (some-inj t) (is_paused, refl, ap is_reading e)

-- Once `pause` has got the lock and returned, no driver is connected at any time, whatever steps
-- the thread takes and whatever the drivers do, until `resume` is called: also where the thread had
-- passed its first test of the pause before it was set.
pub run-released :
    (r u : IdleArmReader) (es : List Event)
    → r.paused ≡ true
    → pause_takes r ≡ some u
    → all keeps_pause es ≡ true
    → ((run u es).source).drivers ≡ []
run-released r u es is_paused taken keeps =
    (run-keeps u es keeps (taken-IsReleased r u is_paused taken)).1
