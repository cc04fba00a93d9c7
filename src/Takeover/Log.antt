-- ===== src/Takeover/Log.antt =====
-- The takeover gate's event log: its numbering, and the modes that it tells.
use apollo_mavis_v2_runtime.Prelude.Dicts.{lookup, insert, keys, lookup-insert}
use apollo_mavis_v2_runtime.Prelude.{
  ℕ, suc, ◌+◌, ◌≡◌, refl, List, [], ◌∷◌, ◌++◌, Option, none, some, arith, if◌then◌else◌, ◌==◌,
  length, length-append, is_some,
}
use apollo_mavis_v2_runtime.Takeover.Rules.{
  Keeps, run-Keeps, init_ind, on_toggle_ind, tick_arm_ind, reset_arm_ind, reset_arms_ind,
}
use apollo_mavis_v2_runtime.Takeover.{
  ControlMode, policy, takeover_transition, human, auto_advance, episode_reset, Source, GateEvent,
  Gate, Call, emit, reset, fromkeys, start, init, run,
}

-- The newest event of an arm.
abbrev pub last_event : ℕ → List GateEvent → Option GateEvent
last_event a [] = none
last_event a (e ∷ es) =
    let later = last_event a es in
    if is_some later then later else if e.arm_id == a then some e else none

pub last_event-snoc :
    (a : ℕ) (es : List GateEvent) (e : GateEvent)
    → last_event a (es ++ e ∷ []) ≡ (if e.arm_id == a then some e else last_event a es)
last_event-snoc a [] e = ground arith
last_event-snoc a (x ∷ es) e = ground (arith, last_event-snoc a es e)

-- The numbers of the events, from `n + 1` on.
abbrev pub IsNumbered : ℕ → List GateEvent → Type 0
IsNumbered n [] = Unit
IsNumbered n (e ∷ es) = (e.seq ≡ suc n) × IsNumbered (suc n) es

IsNumbered-snoc :
    (n : ℕ) (es : List GateEvent) (e : GateEvent)
    → IsNumbered n es
    → e.seq ≡ n + length es + 1
    → IsNumbered n (es ++ e ∷ [])
IsNumbered-snoc n [] e v h = (omega arith, tt)
IsNumbered-snoc n (x ∷ es) e v h = (v.0, IsNumbered-snoc (suc n) es e v.1 (omega arith))

-- The mode that the log tells for an arm: that of its newest event, or the policy's.
abbrev pub told : Option GateEvent → ControlMode
told none = policy
told (some e) = e.mode

abbrev Tells : Option ControlMode → Option GateEvent → Type 0
Tells none e = e ≡ none
Tells (some m) e = m ≡ told e

pub record IsLogged (g : Gate) : Type 0 where
  pub numbered : IsNumbered 0 g.events
  pub counted : g.seq ≡ length g.events
  pub tells : (a : ℕ) → Tells (lookup a g.modes) (last_event a g.events)

emit-IsLogged :
    (g : Gate) (arm : ℕ) (m : ControlMode) (t : ℕ) (source : Source)
    → IsLogged g
    → IsLogged (emit g arm m t source).0
unfolding emit
emit-IsLogged g arm m t source v = record {
  numbered = IsNumbered-snoc 0 g.events _ v.numbered (omega (arith, v.counted));
  counted = omega (arith, v.counted, length-append g.events (_ ∷ []));
  tells = λ a.
      rw (lookup-insert arm a m g.modes, last_event-snoc a g.events _) (ground (arith, v.tells a));
}

with_timers-IsLogged :
    (g : Gate) (d : List (ℕ × ℕ)) → IsLogged g → IsLogged (record g { transition_t0 = d })
with_timers-IsLogged g d v = record { numbered = v.numbered; counted = v.counted; tells = v.tells }

Keeps-IsLogged : Keeps IsLogged
Keeps-IsLogged = record {
  toggled = λ g arm t source v.
      on_toggle_ind IsLogged g arm t source v
        (emit-IsLogged _ arm takeover_transition t source (with_timers-IsLogged g _ v))
        (emit-IsLogged _ arm policy t source (with_timers-IsLogged g _ v));
  ticked = λ g arm t v.
      tick_arm_ind IsLogged g arm t v
        (λ _. emit-IsLogged _ arm human t auto_advance (with_timers-IsLogged g _ v));
  returned = reset-IsLogged;
}
  where
    reset-IsLogged : (g : Gate) → IsLogged g → IsLogged (reset g).0
    reset-IsLogged g v =
        unfold reset in
        with_timers-IsLogged _ [] (
          reset_arms_ind IsLogged
            (λ h arm w.
              reset_arm_ind IsLogged h arm w (emit-IsLogged h arm policy 0 episode_reset w))
            g (keys g.modes) v)

fromkeys-Tells :
    (arms : List ℕ) (d : List (ℕ × ControlMode)) (a : ℕ)
    → Tells (lookup a d) none
    → Tells (lookup a (fromkeys arms policy d)) none
unfolding fromkeys
fromkeys-Tells [] d a h = h
fromkeys-Tells (b ∷ arms) d a h =
    fromkeys-Tells arms (insert b policy d) a (ground (arith, lookup-insert b a policy d))

start-IsLogged : (arms : List ℕ) (blend : ℕ) → IsLogged (start arms blend)
unfolding start
start-IsLogged arms blend = record {
  numbered = tt;
  counted = refl;
  tells = λ a. fromkeys-Tells arms [] a refl;
}

-- Through any toggles, ticks and resets from the start, the events are numbered 1, 2, 3, … with
-- `_seq` the last number, and the mode of each arm of the gate is the one that its newest event
-- tells: the policy's where it has none.
pub run-IsLogged :
    (arms : List ℕ) (blend : ℕ) {g : Gate} (cs : List Call)
    → init arms blend ≡ some g
    → IsLogged (run g cs)
run-IsLogged arms blend {g} cs e =
    run-Keeps IsLogged Keeps-IsLogged g cs
      (init_ind IsLogged arms blend (start-IsLogged arms blend) e)
