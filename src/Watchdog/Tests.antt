-- ===== src/Watchdog/Tests.antt =====
-- The input deadman on a short life, and its theorems there.
use apollo_mavis_v2_runtime.Prelude.{ℕ, ◌≡◌, refl, List, [], ◌∷◌, none, some, arith}
use apollo_mavis_v2_runtime.Watchdog.{
  tripped, await_empty, ok, HeldState, InputWatchdog, Call, keys, disconnect, recovery, stall, tick,
  init, on_keys, step, run, scale, nil,
}
use apollo_mavis_v2_runtime.Watchdog.Latch.{scale-latched, silence-Stops, Stops}

abbrev message : ℕ → ℕ → List ℕ → HeldState
message seq rx held = record { held = held; seq = seq; rx_mono = rx }

-- Key 7 is held at time 0, and then the operator goes silent.
abbrev fed : InputWatchdog
fed = record {
  timeout_s = 200;
  ramp_s = 100;
  state = ok;
  last_rx = some 0;
  last_seq = some 1;
  trip_t = none;
}

abbrev falling : InputWatchdog
falling = record fed { state = tripped; trip_t = some 200 }

abbrev latched : InputWatchdog
latched = record falling { state = await_empty }

fed_lem : (on_keys (init 200 100) (message 1 0 (7 ∷ []))).0 ≡ fed
unfolding on_keys init
fed_lem = refl

scale-fed : scale fed 230 ≡ some (record { num = 70; den = 100 }, falling)
unfolding scale
scale-fed = refl

released :
    run latched (keys (message 2 350 (7 ∷ [])) ∷ keys (message 3 360 []) ∷ [])
    ≡ some (record fed { last_rx = some 360; last_seq = some 3 })
unfolding run step
released = refl

abbrev busy : List Call
busy = keys (message 1 0 (7 ∷ [])) ∷ tick 250 ∷ recovery ∷ disconnect ∷ tick 600 ∷ []

abbrev insistent : List Call
insistent = keys (message 2 350 (7 ∷ [])) ∷ stall 900 400 ∷ recovery ∷ []

run-insistent :
    run latched insistent
    ≡ some (record latched { last_rx = some 350; last_seq = some 2; trip_t = none })
unfolding run step
run-insistent = refl

scale-latched_example :
    let w = record latched { last_rx = some 350; last_seq = some 2; trip_t = none } in
    scale w 950 ≡ some (nil, w)
scale-latched_example =
    scale-latched latched insistent 950 (refl, (tt, (tt, tt))) refl run-insistent

run-silent :
    run (on_keys (init 200 100) (message 1 0 (7 ∷ []))).0 (tick 100 ∷ tick 230 ∷ []) ≡ some falling
unfolding run step init
run-silent = refl

silence-Stops_example : Stops (scale falling 300)
silence-Stops_example =
    silence-Stops (init 200 100) (message 1 0 (7 ∷ [])) (tick 100 ∷ tick 230 ∷ []) 300
      (unfold init in refl) (unfold init on_keys in refl) (tt, (tt, tt)) run-silent
      (unfold init in omega arith) (unfold init in omega arith)
