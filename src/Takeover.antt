-- ===== src/Takeover.antt =====
-- dagger/gate.py: who drives each arm, the policy or the operator.
-- Arm ids are numbers; `_mode` and `_transition_t0` are dictionaries over them. Times are numbers
-- of one unit, in which `T_BLEND_MIN_S` and `T_BLEND_MAX_S` are 200 and 500 (milliseconds).
mod Rules
pub mod Exclusive
pub mod Log
pub mod Blend
pub mod Loops
mod Tests
use apollo_mavis_v2_runtime.Prelude.Dicts.{lookup, insert, remove, keys}
use apollo_mavis_v2_runtime.Prelude.{
  ℕ, ◌+◌, Bool, true, false, not, ◌&&◌, ◌||◌, List, [], ◌∷◌, ◌++◌, map, Option, none, some, leb,
  ◌==◌, if◌then◌else◌,
}

-- The core's `ControlMode`.
pub data ControlMode : Type 0 where
  policy takeover_transition human : ControlMode

pub data Source : Type 0 where
  keyboard action auto_advance episode_reset : Source

pub record GateEvent : Type 0 where
  pub arm_id : ℕ
  pub mode : ControlMode
  pub t_mono : ℕ
  pub seq : ℕ
  pub source : Source

pub record Gate : Type 0 where
  pub arm_ids : List ℕ
  pub t_blend_s : ℕ
  pub modes : List (ℕ × ControlMode)
  pub transition_t0 : List (ℕ × ℕ)
  pub seq : ℕ
  pub events : List GateEvent

-- `dict.fromkeys(arm_ids, mode)`, on top of the entries `d`.
unfoldable pub fromkeys : List ℕ → ControlMode → List (ℕ × ControlMode) → List (ℕ × ControlMode)
fromkeys [] m d = d
fromkeys (a ∷ arms) m d = fromkeys arms m (insert a m d)

abbrev pub t_blend_min_s : ℕ
t_blend_min_s = 200

abbrev pub t_blend_max_s : ℕ
t_blend_max_s = 500

-- What the constructor assigns.
unfoldable pub start : List ℕ → ℕ → Gate
unfolding fromkeys
start arm_ids t_blend_s = record {
  arm_ids = arm_ids;
  t_blend_s = t_blend_s;
  modes = fromkeys arm_ids policy [];
  transition_t0 = [];
  seq = 0;
  events = [];
}

-- The constructor; `none` is its `ValueError`.
unfoldable pub init : List ℕ → ℕ → Option Gate
unfolding start
init arm_ids t_blend_s =
    if leb t_blend_min_s t_blend_s && leb t_blend_s t_blend_max_s
    then some (start arm_ids t_blend_s)
    else none

abbrev pub is_policy : ControlMode → Bool
is_policy policy = true
is_policy _ = false

abbrev pub is_transition : ControlMode → Bool
is_transition takeover_transition = true
is_transition _ = false

-- The loop of `engaged_arm`.
abbrev pub first_engaged : List (ℕ × ControlMode) → Option ℕ
first_engaged [] = none
first_engaged ((a, m) ∷ d) = if is_policy m then first_engaged d else some a

unfoldable pub engaged_arm : Gate → Option ℕ
engaged_arm g = first_engaged g.modes

-- `[a for a in arm_ids if a != engaged]`
abbrev pub others : ℕ → List ℕ → List ℕ
others e [] = []
others e (a ∷ arms) = let rest = others e arms in if a == e then rest else a ∷ rest

unfoldable pub frozen_arms : Gate → List ℕ
unfolding engaged_arm
frozen_arms g = elim (engaged_arm g) [ none ↦ [] | some e ↦ others e g.arm_ids ]

unfoldable pub emit : Gate → ℕ → ControlMode → ℕ → Source → Gate × GateEvent
emit g arm mode t source =
    let ev : GateEvent = record {
      arm_id = arm;
      mode = mode;
      t_mono = t;
      seq = g.seq + 1;
      source = source;
    } in
    (
      record g { modes = insert arm mode g.modes; seq = g.seq + 1; events = g.events ++ ev ∷ [] },
      ev,
    )

abbrev pub with_event : Gate × GateEvent → Gate × Option GateEvent
with_event (g, ev) = (g, some ev)

-- The toggle of an arm that is not kept out by another one's takeover.
unfoldable pub toggle_mode : Gate → ControlMode → ℕ → ℕ → Source → Gate × Option GateEvent
unfolding emit
toggle_mode g policy arm t source = with_event (
    emit (record g { transition_t0 = insert arm t g.transition_t0 }) arm takeover_transition t
      source)
toggle_mode g _ arm t source =
    with_event (emit (record g { transition_t0 = remove arm g.transition_t0 }) arm policy t source)

-- `engaged is not None and engaged != arm_id`
abbrev pub is_other : Option ℕ → ℕ → Bool
is_other none arm = false
is_other (some e) arm = not (e == arm)

unfoldable pub toggle_at : Gate → Option ControlMode → ℕ → ℕ → Source → Gate × Option GateEvent
unfolding toggle_mode engaged_arm
toggle_at g none arm t source = (g, none)
toggle_at g (some m) arm t source =
    if is_other (engaged_arm g) arm then (g, none) else toggle_mode g m arm t source

unfoldable pub on_toggle : Gate → ℕ → ℕ → Source → Gate × Option GateEvent
unfolding toggle_at
on_toggle g arm t source = toggle_at g (lookup arm g.modes) arm t source

-- The body of the loop in `tick`, for one arm.
abbrev pub is_blended : Option ℕ → ℕ → ℕ → Bool
is_blended none blend t = false
is_blended (some t0) blend t = leb (t0 + blend) t

abbrev pub in_transition : Option ControlMode → Bool
in_transition none = false
in_transition (some m) = is_transition m

unfoldable pub tick_arm : Gate → ℕ → ℕ → Gate × List GateEvent
unfolding emit
tick_arm g arm t =
    if in_transition (lookup arm g.modes) && is_blended (lookup arm g.transition_t0) g.t_blend_s t
    then (let (g', ev) =
          emit (record g { transition_t0 = remove arm g.transition_t0 }) arm human t auto_advance in
        (g', ev ∷ []))
    else (g, [])

-- The modes are read while the loop runs, as Python's view of a dictionary does.
unfoldable pub tick_arms : Gate → List ℕ → ℕ → Gate × List GateEvent
tick_arms g [] t = (g, [])
tick_arms g (a ∷ arms) t =
    let (g', evs) = tick_arm g a t in let (g'', more) = tick_arms g' arms t in (g'', evs ++ more)

unfoldable pub tick : Gate → ℕ → Gate × List GateEvent
unfolding tick_arms tick_arm
tick g t = tick_arms g (keys g.modes) t

abbrev pub is_engaged : Option ControlMode → Bool
is_engaged none = false
is_engaged (some m) = not (is_policy m)

unfoldable pub reset_arm : Gate → ℕ → Gate × List GateEvent
unfolding emit
reset_arm g arm =
    if is_engaged (lookup arm g.modes)
    then (let (g', ev) = emit g arm policy 0 episode_reset in (g', ev ∷ []))
    else (g, [])

unfoldable pub reset_arms : Gate → List ℕ → Gate × List GateEvent
reset_arms g [] = (g, [])
reset_arms g (a ∷ arms) =
    let (g', evs) = reset_arm g a in let (g'', more) = reset_arms g' arms in (g'', evs ++ more)

unfoldable pub reset : Gate → Gate × List GateEvent
unfolding reset_arms reset_arm
reset g = let (g', evs) = reset_arms g (keys g.modes) in (record g' { transition_t0 = [] }, evs)

pub data Call : Type 0 where
  toggles : (arm t : ℕ) → Source → Call
  ticks : (t : ℕ) → Call
  resets : Call

unfoldable pub step : Gate → Call → Gate
step g (toggles arm t source) = (on_toggle g arm t source).0
step g (ticks t) = (tick g t).0
step g resets = (reset g).0

unfoldable pub run : Gate → List Call → Gate
run g [] = g
run g (c ∷ cs) = run (step g c) cs
