-- ===== src/Trainer/Bursts.antt =====
-- The loop of a burst: that it ends, and what it counts.
use apollo_mavis_v2_runtime.Prelude.{ℕ, ◌+◌, ◌≤◌, ◌≡◌, true, false, length}
use apollo_mavis_v2_runtime.Trainer.Sampling.{Batch}
use apollo_mavis_v2_runtime.Trainer.Tuning.{Torch, Tuning}

-- After `k` steps: a loss for each, or one of them was not finite.
abbrev Counts : ℕ → Tuning → Tuning → Type 0
Counts k t u =
    (length u.losses ≤ length t.losses + k)
    × (t.nan_seen ≡ true → u.nan_seen ≡ true)
    × (u.nan_seen ≡ false → length u.losses ≡ length t.losses + k)

module _ (torch : Torch) where
  -- Every batch that can be drawn is of the shape that the network takes.
  abbrev pub AcceptsAll : Type 0
  AcceptsAll = (net : ℕ) (batch : Batch) → torch.accepts net batch ≡ true
