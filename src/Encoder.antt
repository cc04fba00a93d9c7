-- ===== src/Encoder.antt =====
-- streams/hub.py: the worker that encodes one stream at its own pace. A frame rate is given as its
-- period and as the number of empty ticks after which the worker polls once per tick. What the
-- source shows at a poll, and the clock there and after the encoding, are the inputs of a step. The
-- waits between polls are left out: they change nothing but the times of the polls.
pub mod Deduplicated
pub mod Hub
mod Tests
use apollo_mavis_v2_runtime.Prelude.{
  ℕ, suc, ◌+◌, Bool, true, false, not, ◌&&◌, ◌||◌, List, [], ◌∷◌, ◌++◌, Option, none, some, ltb,
  leb, ◌==◌, if◌then◌else◌,
}

pub record CameraFrame : Type 0 where
  pub seq : ℕ
  pub t_mono : ℕ
  pub rgb : ℕ

pub record EncoderWorker : Type 0 where
  pub period : ℕ
  pub idle_max : ℕ
  pub last_seq : Option ℕ
  pub idle_ticks : ℕ
  pub running : Bool
  pub next_t : ℕ
  pub tick_period : ℕ  -- the period and the idle limit that this tick was started with
  pub tick_idle_max : ℕ
  pub tapped : List CameraFrame  -- what the taps were handed
  pub encoded : List (ℕ × ℕ)  -- what was put into the slot: time and image

unfoldable pub set_fps : EncoderWorker → ℕ → ℕ → EncoderWorker
set_fps w period idle_max = record w { period = period; idle_max = idle_max }

-- `start`, and the thread up to its first poll.
unfoldable pub start : EncoderWorker → ℕ → EncoderWorker
start w now = if w.running then w else record w {
  running = true;
  next_t = now;
  tick_period = w.period;
  tick_idle_max = w.idle_max;
}

unfoldable pub stop : EncoderWorker → EncoderWorker
stop w = record w { running = false }

-- One poll: the newest frame of the source, the clock after it, the encoder's result, and the clock
-- at the end of the tick.
pub record Poll : Type 0 where
  pub frame : Option CameraFrame
  pub now : ℕ
  pub jpeg : Option ℕ
  pub ends_at : ℕ

abbrev pub is_last : ℕ → Option ℕ → Bool
is_last seq none = false
is_last seq (some last) = seq == last

-- The end of a tick: the grid moves on by a period, or restarts after a long delay.
unfoldable pub end_tick : EncoderWorker → ℕ → EncoderWorker
end_tick w now =
    let due = w.next_t + w.tick_period in
    record w {
      next_t = if ltb (due + w.tick_period) now then now else due;
      tick_period = w.period;
      tick_idle_max = w.idle_max;
    }

abbrev pub put_jpeg : EncoderWorker → CameraFrame → Option ℕ → EncoderWorker
put_jpeg w f none = w
put_jpeg w f (some jpeg) = record w { encoded = w.encoded ++ (f.t_mono, jpeg) ∷ [] }

-- A frame of a new number: the grid is locked to it, the taps get it, and it is encoded.
unfoldable pub deliver : EncoderWorker → Poll → CameraFrame → EncoderWorker
deliver w p f =
    end_tick
      (put_jpeg
        (record w {
          idle_ticks = 0;
          next_t = p.now;
          last_seq = some f.seq;
          tapped = w.tapped ++ f ∷ [];
        })
        f p.jpeg)
      p.ends_at

-- No new frame: the tick ends at its deadline, or at once when the source is idle.
unfoldable pub no_frame : EncoderWorker → Poll → EncoderWorker
no_frame w p =
    if leb (w.next_t + w.tick_period) p.now || leb w.tick_idle_max w.idle_ticks
    then end_tick (record w { idle_ticks = suc w.idle_ticks }) p.ends_at
    else w

abbrev pub polled : EncoderWorker → Poll → Option CameraFrame → EncoderWorker
polled w p none = no_frame w p
polled w p (some f) = if is_last f.seq w.last_seq then no_frame w p else deliver w p f

unfoldable pub poll : EncoderWorker → Poll → EncoderWorker
poll w p = if w.running then polled w p p.frame else w

unfoldable pub run : EncoderWorker → List Poll → EncoderWorker
run w [] = w
run w (p ∷ ps) = run (poll w p) ps
