-- ===== src/Encoder/Tests.antt =====
-- A worker that sees one frame twice, and the theorem there.
use apollo_mavis_v2_runtime.Encoder.{
  CameraFrame, EncoderWorker, Poll, poll, run, deliver, no_frame, end_tick,
}
use apollo_mavis_v2_runtime.Encoder.Deduplicated.{deduplicated, frames, run-tapped}
use apollo_mavis_v2_runtime.Prelude.{
  ℕ, ◌+◌, ◌≡◌, refl, true, List, [], ◌∷◌, ◌++◌, Option, none, some,
}

abbrev worker : EncoderWorker
worker = record {
  period = 66;
  idle_max = 15;
  last_seq = none;
  idle_ticks = 0;
  running = true;
  next_t = 0;
  tick_period = 66;
  tick_idle_max = 15;
  tapped = [];
  encoded = [];
}

abbrev frame : ℕ → CameraFrame
frame seq = record { seq = seq; t_mono = seq; rgb = seq }

abbrev at : Option CameraFrame → ℕ → Option ℕ → Poll
at f now jpeg = record { frame = f; now = now; jpeg = jpeg; ends_at = now + 1 }

abbrev polls : List Poll
polls =
    at none 0 none
    ∷ at (some (frame 1)) 8 (some 11)
    ∷ at (some (frame 1)) 74 none
    ∷ at (some (frame 2)) 80 none
    ∷ at (some (frame 3)) 150 (some 13)
    ∷ []

run-polls :
    ((run worker polls).encoded ≡ (1, 11) ∷ (3, 13) ∷ [])
    × ((run worker polls).next_t ≡ 216)
    × ((run worker polls).idle_ticks ≡ 0)
unfolding run poll deliver no_frame end_tick
run-polls = (refl, refl, refl)

run-tapped_example : (run worker polls).tapped ≡ [] ++ deduplicated none (frames polls)
run-tapped_example = run-tapped worker polls refl
