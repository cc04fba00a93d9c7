-- ===== src/Trainer/Labels.antt =====
-- What an episode adds to the index of labels.
use apollo_mavis_v2_runtime.Prelude.{
  ℕ, ◌+◌, ◌≤◌, ◌≡◌, ℤ, true, List, map, arith, length, length-append, or_else,
}
use apollo_mavis_v2_runtime.Trainer.Batches.{length-map}
use apollo_mavis_v2_runtime.Trainer.Sampling.{
  Row, SpoolRow, LabelIndex, n_frames, append, labels, add_episode, with_labels,
}

append-n_frames :
    (idx : LabelIndex) (states actions : List Row)
    → (n_frames idx ≤ n_frames (append idx states actions).0)
      × ((append idx states actions).1 ≡ true
          → n_frames (append idx states actions).0 ≡ n_frames idx + length states)
unfolding append
append-n_frames idx states actions = ground (arith, length-append idx.states states)

with_labels-n_frames :
    (idx : LabelIndex) (found : List SpoolRow)
    → (n_frames idx ≤ n_frames (with_labels idx found).0)
      × ((with_labels idx found).1 ≡ true
          → n_frames (with_labels idx found).0 ≡ n_frames idx + length found)
unfolding with_labels
with_labels-n_frames idx found =
    let grown = append-n_frames idx (map (λ r. r.state) found) (map (λ r. r.action) found) in
    ground (arith, grown.0, grown.1, length-map (λ r. r.state) found)

-- The index grows by the labels that are counted at least; by more only where it raised.
pub add_episode-n_frames :
    (idx : LabelIndex) (episode_index : ℤ) (rows : List SpoolRow) (episode_id : ℕ)
    → (let added = add_episode idx episode_index rows episode_id in
        n_frames idx + or_else added.1 0 ≤ n_frames added.0)
unfolding add_episode
add_episode-n_frames idx episode_index rows episode_id =
    let grown = with_labels-n_frames idx (labels rows) in ground (arith, grown.0, grown.1)
