-- ===== src/Trainer/Tuning.antt =====
-- dagger/trainer/trainer.py: `BCFineTuner` and the sanity gate. Networks and optimisers are numbers
-- that are only handed on; what torch and numpy compute with them is the record `Torch`. The sanity
-- gate runs after a burst, on rows of the width that the network took there, and does not raise.
use apollo_mavis_v2_runtime.Prelude.{
  ℕ, zero, suc, ◌+◌, ◌*◌, min, max, ℤ, Bool, true, false, not, ◌&&◌, ◌||◌, List, [], ◌∷◌, ◌++◌,
  Option, none, some, ◌==◌, if◌then◌else◌, ◌>>=◌, length, last, all, is_some, leb_int, add_nat,
}
use apollo_mavis_v2_runtime.Trainer.Control.{Loss}
use apollo_mavis_v2_runtime.Trainer.Sampling.{Row, LabelIndex, Generator, Batch, n_frames, next}

-- The first and the last percentile of one action dimension, and its deviation.
pub record Band : Type 0 where
  pub q01 : ℤ
  pub q99 : ℤ
  pub deviation : ℕ

pub record Torch : Type 0 where
  pub loss : ℕ → Batch → Option ℕ  -- of a network, `none` when not finite
  pub descend : ℕ → ℕ → Batch → ℕ × ℕ  -- clipped AdamW step on network and optimiser
  pub forward : ℕ → List Row → Option (List Row)  -- `none` with a value that is not finite
  pub bands : List Row → List Band
  pub integers : Generator
  pub default_rng : ℕ  -- `np.random.default_rng(0)`
  pub digest : ℕ → ℕ  -- `sha256_file` of the bundle saved from a network
  pub accepts : ℕ → Batch → Bool  -- whether the network takes a batch of this shape, or raises

pub record Tuning : Type 0 where
  pub net : ℕ
  pub opt : ℕ
  pub rng : ℕ
  pub losses : List ℕ
  pub nan_seen : Bool

pub record BurstStats : Type 0 where
  pub mean_loss : Loss
  pub n_steps : ℕ
  pub nan_seen : Bool

abbrev pub sum : List ℕ → ℕ
sum [] = 0
sum (x ∷ xs) = x + sum xs

-- `float(np.mean(losses)) if losses else float("nan")`
abbrev pub mean : List ℕ → Loss
mean [] = none
mean (x ∷ xs) = some (x + sum xs, suc (length xs))

-- `int(np.clip(4 * new_labels, 200, 1000))`
unfoldable pub clip_burst_steps : ℕ → ℕ
clip_burst_steps new_labels = min (max (4 * new_labels) 200) 1000

-- `out >= q01 - pad` and `out <= q99 + pad`; `cm` is a hundredth of the rows' unit of measure.
abbrev in_band : ℕ → ℤ → Band → Bool
in_band cm out b =
    let pad = 3 * b.deviation + cm in
    leb_int b.q01 (add_nat out pad) && leb_int out (add_nat b.q99 pad)

unfoldable pub in_bands : ℕ → Row → List Band → Bool
in_bands cm [] bands = true
in_bands cm (x ∷ xs) [] = true
in_bands cm (x ∷ xs) (b ∷ bs) = in_band cm x b && in_bands cm xs bs

-- `rows[-n:]`, which is all rows for 0.
abbrev pub held_out : ℕ → List Row → List Row
held_out n rows = if n == 0 then rows else last n rows

module _ (torch : Torch) where
  abbrev pub descend_on : Tuning → Batch → Option ℕ → Tuning
  descend_on t batch none = record t { nan_seen = true }
  descend_on t batch (some loss) =
      let (net, opt) = torch.descend t.net t.opt batch in
      record t { net = net; opt = opt; losses = t.losses ++ loss ∷ [] }

  -- One turn of the loop: a loss that is not finite changes no weights.
  abbrev pub turn : Tuning → Batch × ℕ → Tuning
  turn t (batch, rng) = descend_on (record t { rng = rng }) batch (torch.loss t.net batch)

  unfoldable pub steps : LabelIndex → ℕ → ℕ → Tuning → Option Tuning
  steps idx batch_size zero t = some t
  steps idx batch_size (suc k) t = do
    drawn ← next torch.integers idx batch_size t.rng
    taken ← if torch.accepts t.net drawn.0 then some drawn else none
    steps idx batch_size k (turn t taken)

  abbrev pub fresh : ℕ → ℕ → Tuning
  fresh net opt = record {
    net = net;
    opt = opt;
    rng = torch.default_rng;
    losses = [];
    nan_seen = false;
  }

  abbrev pub stats_of : ℕ → Tuning → BurstStats
  stats_of k t = record { mean_loss = mean t.losses; n_steps = k; nan_seen = t.nan_seen }

  unfoldable pub burst : LabelIndex → ℕ → ℕ → ℕ → ℕ → Option (Tuning × BurstStats)
  burst idx batch_size net opt k = do
    t ← steps idx batch_size k (fresh net opt)
    some (t, stats_of k t)

  abbrev outputs_in_bands : ℕ → List Row → Option (List Row) → Bool
  outputs_in_bands cm actions none = false
  outputs_in_bands cm actions (some out) = all (λ row. in_bands cm row (torch.bands actions)) out

  unfoldable pub sanity_ok : ℕ → ℕ → LabelIndex → ℕ → BurstStats → Bool
  sanity_ok cm held_out_frames idx net stats =
      if stats.nan_seen || not (is_some stats.mean_loss)
      then false
      else (let n = min held_out_frames (n_frames idx) in
          outputs_in_bands cm idx.actions (torch.forward net (held_out n idx.states)))
