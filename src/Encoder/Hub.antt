-- ===== src/Encoder/Hub.antt =====
-- streams/hub.py: `VideoHub`, the registry of the streams. The slots are the bus's, and the hooks and
-- taps are code of the callers: a hook is called before the worker starts, and its failure is only
-- logged.
use apollo_mavis_v2_runtime.Encoder.{EncoderWorker, start, stop, set_fps}
use apollo_mavis_v2_runtime.Prelude.Dicts.{lookup, insert, remove, keys, lookup-remove}
use apollo_mavis_v2_runtime.Prelude.{
  ℕ, ◌≡◌, refl, ◌∙◌, Bool, false, List, [], ◌∷◌, ◌++◌, Option, none, some, ◌==◌, if◌then◌else◌,
  is_some, map, arith,
}

-- The workers, and those that were stopped when their stream was taken off.
pub record VideoHub : Type 0 where
  pub workers : List (ℕ × EncoderWorker)
  pub stopped : List EncoderWorker

unfoldable pub init : VideoHub
init = record { workers = []; stopped = [] }

abbrev pub ids : VideoHub → List ℕ
ids h = keys h.workers

unfoldable pub has : VideoHub → ℕ → Bool
has h stream = is_some (lookup stream h.workers)

abbrev new_worker : ℕ → ℕ → EncoderWorker
new_worker period idle_max = record {
  period = period;
  idle_max = idle_max;
  last_seq = none;
  idle_ticks = 0;
  running = false;
  next_t = 0;
  tick_period = period;
  tick_idle_max = idle_max;
  tapped = [];
  encoded = [];
}

-- A stream that is there already raises.
unfoldable pub add_stream : VideoHub → ℕ → ℕ → ℕ → ℕ → Option VideoHub
add_stream h stream period idle_max now =
    if is_some (lookup stream h.workers)
    then none
    else some
        (record h { workers = insert stream (start (new_worker period idle_max) now) h.workers })

-- Whether the tap was attached.
unfoldable pub add_tap : VideoHub → ℕ → Bool
add_tap h stream = is_some (lookup stream h.workers)

abbrev stop_one : VideoHub → Option EncoderWorker → VideoHub
stop_one h none = h
stop_one h (some w) = record h { stopped = h.stopped ++ stop w ∷ [] }

unfoldable pub remove_stream : VideoHub → ℕ → VideoHub
remove_stream h stream =
    stop_one (record h { workers = remove stream h.workers }) (lookup stream h.workers)

abbrev set_one : VideoHub → ℕ → ℕ → ℕ → Option EncoderWorker → VideoHub
set_one h stream period idle_max none = h
set_one h stream period idle_max (some w) = record h {
  workers = insert stream (set_fps w period idle_max) h.workers;
}

unfoldable pub set_stream_fps : VideoHub → ℕ → ℕ → ℕ → VideoHub
set_stream_fps h stream period idle_max = set_one h stream period idle_max (lookup stream h.workers)

abbrev all_stopped : List (ℕ × EncoderWorker) → List EncoderWorker
all_stopped ws = map (λ e. stop e.1) ws

unfoldable pub stop_all : VideoHub → VideoHub
stop_all h = record { workers = []; stopped = h.stopped ++ all_stopped h.workers }

-- A removed stream is not there, and every other one is as it was.
pub remove_stream-has :
    (h : VideoHub) (stream other : ℕ)
    → has (remove_stream h stream) other ≡ (if stream == other then false else has h other)
unfolding remove_stream has
remove_stream-has h stream other = go (lookup stream h.workers) ∙ left
  where
    go :
        (o : Option EncoderWorker)
        → is_some
            (lookup other (stop_one (record h { workers = remove stream h.workers }) o).workers)
          ≡ is_some (lookup other (remove stream h.workers))
    go none = refl
    go (some w) = refl

    left :
        is_some (lookup other (remove stream h.workers))
        ≡ (if stream == other then false else is_some (lookup other h.workers))
    left = ground (arith, lookup-remove stream other h.workers)
