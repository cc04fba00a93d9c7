-- ===== src/Watchdog/Ramp.antt =====
-- The scale of the held keys: its range, its fall after a trip, and the two ways out of the latch.
use apollo_mavis_v2_runtime.Prelude.{
  ℕ, ◌+◌, ◌*◌, ◌-◌, ◌≤◌, ◌≡◌, ◌≢◌, ◌↔◌, false, [], Option, none, some, arith,
}
use apollo_mavis_v2_runtime.Watchdog.{
  ok, HeldState, InputWatchdog, on_keys, scale, Fraction, is_replay,
}

abbrev pub HasPassed : Option ℕ → ℕ → Type 0
HasPassed none now = Unit
HasPassed (some t) now = t ≤ now

-- No tick amplifies what the operator holds, as long as the clock has reached the trip.
pub scale-le_one :
    (w : InputWatchdog) (now : ℕ) {f : Fraction} {w' : InputWatchdog}
    → HasPassed w.trip_t now
    → scale w now ≡ some (f, w')
    → f.num ≤ f.den
unfolding scale
scale-le_one w now past e = ground arith

falls : (ramp now later t : ℕ) → now ≤ later → (t + ramp - later) * ramp ≤ (t + ramp - now) * ramp
falls ramp now later t h = grind arith

-- After a trip the scale only falls: of two ticks in succession, at times that do not decrease,
-- the later one lets no more through than the earlier.
pub scale-antitone :
    (w : InputWatchdog) (now later : ℕ) {f g : Fraction} {w' w'' : InputWatchdog}
    → w.state ≢ ok
    → now ≤ later
    → scale w now ≡ some (f, w')
    → scale w' later ≡ some (g, w'')
    → g.num * f.den ≤ f.num * g.den
unfolding scale
scale-antitone w now later {f} {g} off order e e' = grind (arith, falls (w.ramp_s) now later)

-- The only message that ends a trip is a new one with no key held.
pub on_keys-ok :
    (w : InputWatchdog) (h : HeldState)
    → w.state ≢ ok
    → ((on_keys w h).0.state ≡ ok) ↔ ((is_replay w.last_seq h.seq ≡ false) × (h.held ≡ []))
unfolding on_keys
on_keys-ok w h off = ground arith
