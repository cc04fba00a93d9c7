-- ===== src/Trainer/Sampling.antt =====
-- dagger/trainer/sampling.py: the labels that an episode yields, and the batches drawn from them.
-- A row of a parquet file is a record; the values of its columns are integers of one small unit.
-- An array is the list of its rows, which are of one width, of at least one column.
-- numpy's generator is the parameter `Generator`, whose state is a number.
use apollo_mavis_v2_runtime.Prelude.{
  ℕ, ◌+◌, ◌-◌, ◌/◌, min, Bool, true, false, not, List, [], ◌∷◌, ◌++◌, map, Option, none, some, ℤ,
  ◌==◌, if◌then◌else◌, length, get_elem?, ◌>>=◌,
}

abbrev pub Row : Type 0
Row = List ℤ

pub record SpoolRow : Type 0 where
  pub state : Row
  pub action : Row
  pub control_mode : ℕ

pub record LabelIndex : Type 0 where
  pub states : List Row
  pub actions : List Row
  pub episodes : List ℤ
  pub episode_ids : List ℕ
  pub new_since_checkpoint : ℕ

abbrev pub empty_index : LabelIndex
empty_index = record {
  states = [];
  actions = [];
  episodes = [];
  episode_ids = [];
  new_since_checkpoint = 0;
}

abbrev pub mode_human : ℕ
mode_human = 1

abbrev pub label_mask : SpoolRow → Bool
label_mask r = r.control_mode == mode_human

-- The rows under the mask.
unfoldable pub labels : List SpoolRow → List SpoolRow
labels [] = []
labels (r ∷ rs) = let rest = labels rs in if label_mask r then r ∷ rest else rest

abbrev pub n_frames : LabelIndex → ℕ
n_frames idx = length idx.states

-- The number of an array's columns.
abbrev pub width : List Row → ℕ
width [] = 0
width (r ∷ rs) = length r

-- What the index is after, and whether all went well. Rows of another width cannot be joined, which
-- for the actions raises after the states were replaced.
unfoldable pub append : LabelIndex → List Row → List Row → LabelIndex × Bool
append idx states actions =
    if length idx.states == 0
    then (record idx { states = states; actions = actions }, true)
    else if not (width idx.states == width states)
    then (idx, false)
    else if not (width idx.actions == width actions)
    then (record idx { states = idx.states ++ states }, false)
    else (record idx { states = idx.states ++ states; actions = idx.actions ++ actions }, true)

-- All rows of the seed are labels; none of them is new.
unfoldable pub add_seed : LabelIndex → List SpoolRow → LabelIndex × Bool
add_seed idx rows = append idx (map (λ r. r.state) rows) (map (λ r. r.action) rows)

unfoldable pub with_labels : LabelIndex → List SpoolRow → LabelIndex × Bool
with_labels idx found =
    if length found == 0
    then (idx, true)
    else (let (more, ok) = append idx (map (λ r. r.state) found) (map (λ r. r.action) found) in
        (
          if ok
              then record more { new_since_checkpoint = more.new_since_checkpoint + length found }
              else more,
          ok,
        ))

-- The number of labels, or `none` where it raised.
unfoldable pub add_episode : LabelIndex → ℤ → List SpoolRow → ℕ → LabelIndex × Option ℕ
add_episode idx episode_index rows episode_id =
    let found = labels rows in
    let (more, ok) = with_labels idx found in
    if ok
    then (
      record more {
        episodes = more.episodes ++ episode_index ∷ [];
        episode_ids = more.episode_ids ++ episode_id ∷ [];
      },
      some (length found),
    )
    else (more, none)

abbrev pub mark_checkpoint : LabelIndex → LabelIndex
mark_checkpoint idx = record idx { new_since_checkpoint = 0 }

-- `Generator.integers(lo, hi, size=size)`: the numbers drawn and the state after.
abbrev pub Generator : Type 0
Generator = ℕ → ℕ → ℕ → ℕ → List ℕ × ℕ

pub record Batch : Type 0 where
  pub states : List Row
  pub actions : List Row

-- `rows[idx]`; an index out of range raises.
unfoldable pub gather : List Row → List ℕ → Option (List Row)
gather rows [] = some []
gather rows (i ∷ is) = do r ← get_elem? rows i; rs ← gather rows is; some (r ∷ rs)

abbrev pub gather_both : LabelIndex → List ℕ → ℕ → Option (Batch × ℕ)
gather_both idx is rng = do
  states ← gather idx.states is
  actions ← gather idx.actions is
  some (record { states = states; actions = actions }, rng)

-- `len(agg_idx)`: the whole batch, less the half for new labels where there are any.
abbrev pub aggregate_size : LabelIndex → ℕ → ℕ
aggregate_size idx batch_size =
    batch_size - (if min idx.new_since_checkpoint (n_frames idx) == 0 then 0 else batch_size / 2)

abbrev pub draw : Generator → LabelIndex → ℕ → ℕ → List ℕ × ℕ
draw integers idx batch_size rng =
    let n = n_frames idx in
    let n_new = min idx.new_since_checkpoint n in
    let (agg_idx, rng') = integers rng 0 n (aggregate_size idx batch_size) in
    if n_new == 0
    then (agg_idx, rng')
    else (let (new_idx, rng'') = integers rng' (n - n_new) n (batch_size / 2) in
        (agg_idx ++ new_idx, rng''))

unfoldable pub next : Generator → LabelIndex → ℕ → ℕ → Option (Batch × ℕ)
next integers idx batch_size rng =
    if n_frames idx == 0
    then none
    else (let (is, rng') = draw integers idx batch_size rng in gather_both idx is rng')
