-- ===== src/Watchdog/Latch.antt =====
-- The latch of the input deadman, over every sequence of calls.
use apollo_mavis_v2_runtime.Prelude.{
  ℕ, ◌≡◌, ◌≢◌, true, false, List, [], ◌∷◌, Option, none, some, arith, All, ◌+◌, ◌≤◌, ◌<◌, inl, inr,
  Option-cases, subst,
}
use apollo_mavis_v2_runtime.Watchdog.{
  tripped, await_empty, ok, HeldState, InputWatchdog, Call, keys, stall, tick, is_empty, init, step,
  run, scale, on_keys, nil, Fraction,
}

-- The moment of the trip is known while the ramp runs.
abbrev pub IsSound : InputWatchdog → Type 0
IsSound w = w.state ≡ tripped → w.trip_t ≢ none

step-ne-none : (w : InputWatchdog) (c : Call) → IsSound w → step w c ≢ none
unfolding step
step-ne-none w (keys h) v = cc
step-ne-none w (tick now) v = ground arith
step-ne-none w _ v = cc

step-IsSound :
    (w : InputWatchdog) (c : Call) {w' : InputWatchdog}
    → IsSound w
    → step w c ≡ some w'
    → IsSound w'
unfolding step
step-IsSound w (keys h) v e = ground arith
step-IsSound w _ v e = ground arith

run-ne-none : (w : InputWatchdog) (cs : List Call) → IsSound w → run w cs ≢ none
unfolding run
run-ne-none w [] v = cc
run-ne-none w (c ∷ cs) v = elim (Option-cases (step w c)) [
  | inl e ↦ absurd (step-ne-none w c v e)
  | inr (w', e) ↦ rw (e, run) (run-ne-none w' cs (step-IsSound w c v e))
]

-- Whatever is called, in whatever order, the assertion on the moment of the trip never fails.
pub run-init_total : (timeout_s ramp_s : ℕ) (cs : List Call) → run (init timeout_s ramp_s) cs ≢ none
unfolding init
run-init_total timeout_s ramp_s cs = run-ne-none _ cs (λ e. cc)

-- What every call of a kind keeps, a run of such calls keeps.
pub run_ind {ℓ κ} :
    (P : InputWatchdog → Type ℓ) (Q : Call → Type κ)
    → ((w : InputWatchdog) (c : Call) (w' : InputWatchdog) → Q c → P w → step w c ≡ some w' → P w')
    → (w : InputWatchdog) (cs : List Call) {w' : InputWatchdog} → All Q cs
    → P w
    → run w cs ≡ some w'
    → P w'
unfolding run
run_ind P Q keep w [] {w'} qs p e = let same : w ≡ w' = cc in subst P same p
run_ind P Q keep w (c ∷ cs) qs p e = elim (Option-cases (step w c)) [
  | inl stop ↦ absurd (ground (arith, stop))
  | inr (w', next) ↦ run_ind P Q keep w' cs qs.1 (keep w c w' qs.0 p next) (rw (next, run) at e)
]

-- A call other than a message with no key held.
abbrev pub IsNoRelease : Call → Type 0
IsNoRelease (keys h) = is_empty h.held ≡ false
IsNoRelease _ = Unit

step-latched :
    (w : InputWatchdog) (c : Call) (w' : InputWatchdog)
    → IsNoRelease c
    → w.state ≡ await_empty
    → step w c ≡ some w'
    → w'.state ≡ await_empty
unfolding step
step-latched w (keys h) w' q p e = ground arith
step-latched w _ w' q p e = ground arith

-- Once latched, the watchdog lets no motion through on any tick, until a message arrives with no
-- key held: not after fresh messages with keys held, reconnections, recoveries or stalls.
pub scale-latched :
    (w : InputWatchdog) (cs : List Call) {w' : InputWatchdog} (now : ℕ)
    → All IsNoRelease cs
    → w.state ≡ await_empty
    → run w cs ≡ some w'
    → scale w' now ≡ some (nil, w')
unfolding scale
scale-latched w cs {w'} now qs p e =
    ground (arith, run_ind (λ v. v.state ≡ await_empty) IsNoRelease step-latched w cs qs p e)

-- The calls by which the watchdog hears nothing from the operator.
abbrev pub IsSilent : Call → Type 0
IsSilent (keys h) = ⊥
IsSilent (stall now started) = ⊥
IsSilent _ = Unit

-- The last message came at `rx`: what is known of the watchdog while it hears no other.
abbrev LastAt : ℕ → ℕ → ℕ → InputWatchdog → Type 0
LastAt timeout ramp rx w =
    (w.timeout_s ≡ timeout)
    × (w.ramp_s ≡ ramp)
    × (w.state ≡ ok → w.last_rx ≡ some rx)
    × (w.state ≡ tripped → w.trip_t ≡ some (rx + timeout))

step-LastAt :
    (timeout ramp rx : ℕ) (w : InputWatchdog) (c : Call) (w' : InputWatchdog)
    → IsSilent c
    → LastAt timeout ramp rx w
    → step w c ≡ some w'
    → LastAt timeout ramp rx w'
unfolding step
step-LastAt timeout ramp rx w (tick now) w' q p e = ground arith
step-LastAt timeout ramp rx w _ w' q p e = ground arith

on_keys-LastAt :
    (w : InputWatchdog) (h : HeldState)
    → w.state ≡ ok
    → (on_keys w h).1 ≡ true
    → LastAt w.timeout_s w.ramp_s h.rx_mono (on_keys w h).0
unfolding on_keys
on_keys-LastAt w h fine fed = ground arith

-- The tick let no motion through, and the watchdog is latched.
abbrev pub Stops : Option (Fraction × InputWatchdog) → Type 0
Stops none = ⊥
Stops (some (s, w)) = (s ≡ nil) × (w.state ≡ await_empty)

scale-Stops :
    (timeout ramp rx : ℕ) (w : InputWatchdog) (now : ℕ)
    → LastAt timeout ramp rx w
    → rx + timeout + ramp ≤ now
    → rx + timeout < now
    → Stops (scale w now)
unfolding scale
scale-Stops timeout ramp rx w now p late later = ground arith

-- The deadman's deadline. The watchdog, not tripped, accepts a message at `rx` and then hears
-- nothing. After any ticks, disconnections and recoveries, a tick later than `rx + timeout`, and at
-- `rx + timeout + ramp` or later, lets no motion through and leaves the watchdog latched.
pub silence-Stops :
    (w : InputWatchdog) (h : HeldState) (cs : List Call) {w' : InputWatchdog} (now : ℕ)
    → w.state ≡ ok
    → (on_keys w h).1 ≡ true
    → All IsSilent cs
    → run (on_keys w h).0 cs ≡ some w'
    → h.rx_mono + w.timeout_s < now
    → h.rx_mono + w.timeout_s + w.ramp_s ≤ now
    → Stops (scale w' now)
silence-Stops w h cs {w'} now fine fed qs e later late =
    scale-Stops w.timeout_s w.ramp_s h.rx_mono w' now
      (run_ind (LastAt w.timeout_s w.ramp_s h.rx_mono) IsSilent
        (step-LastAt w.timeout_s w.ramp_s h.rx_mono) _ cs qs (on_keys-LastAt w h fine fed) e)
      late later
