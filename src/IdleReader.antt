-- ===== src/IdleReader.antt =====
-- dora_bridge/idle_state.py: the reader of the arms while no session exists, over read-only
-- drivers. A state is its payload and its staleness; what the drivers answer is an input of a step.
-- The thread's loop and `pause` are steps between two looks at shared state, and the thread holds
-- the lock from `locked` to the end of `reading`.
pub mod Released
mod Tests
use apollo_mavis_v2_runtime.Prelude.Dicts.{lookup, insert, remove}
use apollo_mavis_v2_runtime.Prelude.{
  ℕ, suc, ◌+◌, ◌*◌, min, Bool, true, false, not, ◌&&◌, ◌||◌, List, [], ◌∷◌, ◌++◌, Option, none,
  some, ltb, ◌==◌, if◌then◌else◌, or_else, is_some, any,
}

-- `zero_velocity` is said of a frozen state's velocities.
pub record ArmState : Type 0 where
  pub payload : ℕ
  pub stale : Bool
  pub zero_velocity : Bool

unfoldable pub frozen : ArmState → ArmState
frozen st = record st { stale = true; zero_velocity = true }

-- `BACKOFF`, in milliseconds.
abbrev pub backoff_first : ℕ
backoff_first = 1000

abbrev pub backoff_last : ℕ
backoff_last = 10_000

pub record DriverIdleSource : Type 0 where
  pub arm_ids : List ℕ
  pub drivers : List (ℕ × Bool)  -- the arms with a connected driver
  pub retry_at : List (ℕ × ℕ)
  pub backoff : List (ℕ × ℕ)
  pub last : List (ℕ × ArmState)
  pub connect_attempts : ℕ

-- What the drivers do in one step of the reader.
pub record Drivers : Type 0 where
  pub now : ℕ
  pub connects : ℕ → Bool
  pub get_state : ℕ → Option ArmState  -- `none`: it raises

unfoldable pub try_connect : Drivers → DriverIdleSource → ℕ → DriverIdleSource
try_connect d s arm =
    let delay = or_else (lookup arm s.backoff) backoff_first in
    let tried = record s { connect_attempts = suc s.connect_attempts } in
    if is_some (lookup arm s.drivers)
    then s
    else if ltb d.now (or_else (lookup arm s.retry_at) 0)
    then s
    else if not (d.connects arm)
    then record tried {
      backoff = insert arm (min (delay * 2) backoff_last) s.backoff;
      retry_at = insert arm (d.now + delay) s.retry_at;
    }
    else record tried {
      drivers = insert arm true s.drivers;
      backoff = remove arm s.backoff;
      retry_at = remove arm s.retry_at;
    }

unfoldable pub connect_all : Drivers → DriverIdleSource → List ℕ → DriverIdleSource
connect_all d s [] = s
connect_all d s (arm ∷ arms) = connect_all d (try_connect d s arm) arms

unfoldable pub disconnect : DriverIdleSource → DriverIdleSource
disconnect s = record s { drivers = []; retry_at = []; backoff = [] }

abbrev freeze_last : DriverIdleSource → ℕ → Option ArmState → DriverIdleSource × Option ArmState
freeze_last s arm none = (s, none)
freeze_last s arm (some st) = (s, some (frozen st))

abbrev keep_state : DriverIdleSource → ℕ → ArmState → DriverIdleSource × Option ArmState
keep_state s arm st = (record s { last = insert arm st s.last }, some st)

abbrev unless_stale :
    DriverIdleSource → ℕ → ArmState → Option ArmState → DriverIdleSource × Option ArmState
unless_stale s arm st none = keep_state s arm st
unless_stale s arm st (some old) =
    if st.stale then keep_state s arm (frozen old) else keep_state s arm st

-- The driver answered, or it raised and is dropped.
abbrev answered :
    Drivers → DriverIdleSource → ℕ → Option ArmState → DriverIdleSource × Option ArmState
answered d s arm (some st) = unless_stale s arm st (lookup arm s.last)
answered d s arm none =
    freeze_last
      (record s {
        drivers = remove arm s.drivers;
        retry_at = insert arm (d.now + backoff_first) s.retry_at;
      })
      arm (lookup arm s.last)

unfoldable pub arm_state : Drivers → DriverIdleSource → ℕ → DriverIdleSource × Option ArmState
arm_state d s arm =
    let u = try_connect d s arm in
    if is_some (lookup arm u.drivers)
    then answered d u arm (d.get_state arm)
    else freeze_last u arm (lookup arm u.last)

abbrev with_state : ℕ → Option ArmState → List (ℕ × ArmState) → List (ℕ × ArmState)
with_state arm none out = out
with_state arm (some st) out = (arm, st) ∷ out

unfoldable pub states : Drivers → DriverIdleSource → List ℕ → DriverIdleSource × List (ℕ × ArmState)
states d s [] = (s, [])
states d s (arm ∷ arms) =
    let (u, st) = arm_state d s arm in let (v, out) = states d u arms in (v, with_state arm st out)

pub data IdleStatus : Type 0 where
  off running stale paused : IdleStatus

-- The thread is at the head of its loop, past the first test of the pause, inside the lock, or past
-- the second test.
pub data Place : Type 0 where
  at_head wants_lock locked reading ended : Place

pub record IdleArmReader : Type 0 where
  pub source : DriverIdleSource
  pub running : Bool
  pub paused : Bool
  pub connected : Bool
  pub status : IdleStatus
  pub snapshots : List (List (ℕ × ArmState))
  pub place : Place

unfoldable pub start : IdleArmReader → IdleArmReader
start r =
    if r.running
    then r
    else record r { running = true; status = running; place = at_head; connected = false }

-- `stop` before and after it joins the thread.
unfoldable pub stop_asks : IdleArmReader → IdleArmReader
stop_asks r = record r { running = false }

unfoldable pub stop_ends : IdleArmReader → IdleArmReader
stop_ends r = record r { source = disconnect r.source; status = off }

-- `pause` until it waits for the lock.
unfoldable pub pause_asks : IdleArmReader → IdleArmReader
pause_asks r = record r { paused = true }

abbrev pub holds_lock : Place → Bool
holds_lock locked = true
holds_lock reading = true
holds_lock _ = false

-- `pause` with the lock: it can go on only when the thread does not hold it.
unfoldable pub pause_takes : IdleArmReader → Option IdleArmReader
pause_takes r =
    if holds_lock r.place
    then none
    else some
        (record r { source = disconnect r.source; status = if r.running then paused else off })

unfoldable pub resume : IdleArmReader → IdleArmReader
resume r = record r { paused = false; status = if r.running then running else r.status }

abbrev pub is_stale : List (ℕ × ArmState) → Bool
is_stale sts = any (λ e. (e.1).stale) sts

abbrev pub publish : IdleArmReader → List (ℕ × ArmState) → IdleArmReader
publish r [] = r
publish r (st ∷ sts) = record r {
  status = if is_stale (st ∷ sts) then stale else running;
  snapshots = r.snapshots ++ (st ∷ sts) ∷ [];
}

-- `connect` where that is due, `states` and `_publish`.
unfoldable pub read : Drivers → IdleArmReader → IdleArmReader
read d r =
    let source = if r.connected then r.source else connect_all d r.source (r.source).arm_ids in
    let (after, sts) = states d source source.arm_ids in
    publish (record r { source = after; connected = true; place = at_head }) sts

abbrev pub step_at : Drivers → IdleArmReader → Place → IdleArmReader
step_at d r at_head =
    if not r.running
    then record r { place = ended }
    else if r.paused
    then record r { connected = false }
    else record r { place = wants_lock }
step_at d r wants_lock = record r { place = locked }
step_at d r locked = if r.paused then record r { place = at_head } else record r { place = reading }
step_at d r reading = read d r
step_at d r ended = r

unfoldable pub thread_step : Drivers → IdleArmReader → IdleArmReader
thread_step d r = step_at d r r.place
