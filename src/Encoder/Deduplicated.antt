-- ===== src/Encoder/Deduplicated.antt =====
-- What a stream's taps and its slot get.
use apollo_mavis_v2_runtime.Encoder.{
  CameraFrame, EncoderWorker, Poll, is_last, end_tick, put_jpeg, deliver, no_frame, polled, poll,
  run,
}
use apollo_mavis_v2_runtime.Prelude.{
  ℕ, ◌+◌, ◌≡◌, refl, sym, ap, ◌∙◌, Bool, true, false, ◌||◌, List, [], ◌∷◌, ◌++◌, Option, none, some,
  leb, if◌then◌else◌, append-nil, append_assoc, if-either,
}

-- The reference: the frames seen, each one once while its number stays the same.
abbrev pub deduplicated : Option ℕ → List (Option CameraFrame) → List CameraFrame
deduplicated last [] = []
deduplicated last (none ∷ fs) = deduplicated last fs
deduplicated last (some f ∷ fs) =
    let same = deduplicated last fs in
    let fresh = deduplicated (some f.seq) fs in if is_last f.seq last then same else f ∷ fresh

abbrev pub frames : List Poll → List (Option CameraFrame)
frames [] = []
frames (p ∷ ps) = p.frame ∷ frames ps

-- The part that matters here.
pub record Seen : Type 0 where
  pub last : Option ℕ
  pub tapped : List CameraFrame
  pub running : Bool

abbrev seen : EncoderWorker → Seen
seen w = record { last = w.last_seq; tapped = w.tapped; running = w.running }

no_frame-seen : (w : EncoderWorker) (p : Poll) → seen (no_frame w p) ≡ seen w
unfolding no_frame end_tick
no_frame-seen w p =
    if-either (λ u. seen u ≡ seen w)
      (leb (w.next_t + w.tick_period) p.now || leb w.tick_idle_max w.idle_ticks) _ w refl refl

deliver-seen :
    (w : EncoderWorker) (p : Poll) (f : CameraFrame)
    → seen (deliver w p f)
      ≡ record { last = some f.seq; tapped = w.tapped ++ f ∷ []; running = w.running }
unfolding deliver end_tick
deliver-seen w p f = go p.jpeg
  where
    locked : EncoderWorker
    locked = record w {
      idle_ticks = 0;
      next_t = p.now;
      last_seq = some f.seq;
      tapped = w.tapped ++ f ∷ [];
    }

    go :
        (o : Option ℕ)
        → seen (put_jpeg locked f o)
          ≡ record { last = some f.seq; tapped = w.tapped ++ f ∷ []; running = w.running }
    go none = refl
    go (some jpeg) = refl

abbrev next_seen : Seen → Option CameraFrame → Seen
next_seen s none = s
next_seen s (some f) =
    if is_last f.seq s.last
    then s
    else record { last = some f.seq; tapped = s.tapped ++ f ∷ []; running = s.running }

poll-seen :
    (w : EncoderWorker) (p : Poll) → w.running ≡ true → seen (poll w p) ≡ next_seen (seen w) p.frame
unfolding poll
poll-seen w p on = ap (λ b. seen (if b then polled w p p.frame else w)) on ∙ go p.frame
  where
    by :
        (f : CameraFrame) (b : Bool)
        → seen (if b then no_frame w p else deliver w p f) ≡ (
            if b
            then seen w
            else record { last = some f.seq; tapped = w.tapped ++ f ∷ []; running = w.running })
    by f true = no_frame-seen w p
    by f false = deliver-seen w p f

    go : (o : Option CameraFrame) → seen (polled w p o) ≡ next_seen (seen w) o
    go none = no_frame-seen w p
    go (some f) = by f (is_last f.seq w.last_seq)

next-running : (s : Seen) (o : Option CameraFrame) → (next_seen s o).running ≡ s.running
next-running s none = refl
next-running s (some f) =
    if-either (λ (u : Seen). u.running ≡ s.running) (is_last f.seq s.last) _ _ refl refl

next-deduplicated :
    (s : Seen) (o : Option CameraFrame) (fs : List (Option CameraFrame))
    → (next_seen s o).tapped ++ deduplicated (next_seen s o).last fs
      ≡ s.tapped ++ deduplicated s.last (o ∷ fs)
next-deduplicated s none fs = refl
next-deduplicated s (some f) fs = go (is_last f.seq s.last)
  where
    go :
        (b : Bool)
        → (let u : Seen =
              if b
              then s
              else record { last = some f.seq; tapped = s.tapped ++ f ∷ []; running = s.running } in
            u.tapped ++ deduplicated u.last fs)
          ≡ s.tapped ++ (if b then deduplicated s.last fs else f ∷ deduplicated (some f.seq) fs)
    go true = refl
    go false = append_assoc s.tapped (f ∷ []) (deduplicated (some f.seq) fs)

-- While the worker runs, its taps get exactly the frames that its polls see, in order, each one once
-- as long as its number stays the same: no frame that a poll sees is lost, and none is repeated,
-- whatever the times, the frame rate and the encoder's results.
pub run-tapped :
    (w : EncoderWorker) (ps : List Poll)
    → w.running ≡ true
    → (run w ps).tapped ≡ w.tapped ++ deduplicated w.last_seq (frames ps)
unfolding run
run-tapped w [] on = sym (append-nil w.tapped)
run-tapped w (p ∷ ps) on =
    let e = poll-seen w p on in
    run-tapped (poll w p) ps (ap (λ s. s.running) e ∙ next-running (seen w) p.frame ∙ on)
    ∙ ap (λ s. s.tapped ++ deduplicated s.last (frames ps)) e
    ∙ next-deduplicated (seen w) p.frame (frames ps)
