-- ===== src/Trainer/Batches.antt =====
-- The batches that the sampler draws.
use apollo_mavis_v2_runtime.Prelude.{
  ℕ, zero, suc, ◌+◌, ◌-◌, ◌/◌, ◌≤◌, ◌<◌, min, ◌≡◌, refl, sym, ap, subst, ◌∙◌, false, List, [], ◌∷◌,
  ◌++◌, map, Option, none, some, arith, ◌==◌, if◌then◌else◌, Bool-cases, inl, inr, length,
  get_elem?, All, ◌>>=◌, append-nil, length-append,
}
use apollo_mavis_v2_runtime.Trainer.Sampling.{
  Row, LabelIndex, Generator, n_frames, gather, gather_both, aggregate_size, next, draw,
}

-- What numpy promises of `integers`: as many as asked for, each in the half-open range.
abbrev pub IsGenerator : Generator → Type 0
IsGenerator integers =
    (rng lo hi size : ℕ)
    → lo < hi
    → (length (integers rng lo hi size).0 ≡ size)
      × All (λ i. (lo ≤ i) × (i < hi)) (integers rng lo hi size).0

-- Every state has its action.
abbrev pub IsPaired : LabelIndex → Type 0
IsPaired idx = length idx.states ≡ length idx.actions

-- `k` rows, the states and the actions of the same places of the index from `lo` on.
abbrev pub IsDrawn : LabelIndex → ℕ → ℕ → List Row → List Row → Type 0
IsDrawn idx lo k states actions =
    (is : List ℕ) × (length is ≡ k)
    × All (λ i. (lo ≤ i) × (i < n_frames idx)) is
    × (map some states ≡ map (get_elem? idx.states) is)
    × (map some actions ≡ map (get_elem? idx.actions) is)

get_elem?-in {ℓ} :
    {A : Type ℓ} (xs : List A) (i : ℕ) → i < length xs → (x : A) × (get_elem? xs i ≡ some x)
get_elem?-in [] i h = elim h [ ]
get_elem?-in (x ∷ xs) zero h = (x, refl)
get_elem?-in (x ∷ xs) (suc i) h = get_elem?-in xs i (omega arith)

pub length-map {ℓ κ} :
    {A : Type ℓ} {B : Type κ} (f : A → B) (xs : List A) → length (map f xs) ≡ length xs
length-map f [] = refl
length-map f (x ∷ xs) = ap suc (length-map f xs)

gather-in :
    (lo n : ℕ) (rows : List Row) (is : List ℕ)
    → length rows ≡ n
    → All (λ i. (lo ≤ i) × (i < n)) is
    → (rs : List Row) × (gather rows is ≡ some rs) × (map some rs ≡ map (get_elem? rows) is)
unfolding gather
gather-in lo n rows [] e h = ([], refl, refl)
gather-in lo n rows (i ∷ is) e h =
    let (r, at_i) = get_elem?-in rows i (omega arith) in
    let (rs, got, at_is) = gather-in lo n rows is e h.1 in
    (r ∷ rs, rw (at_i, got), rw (at_i, at_is))

gather-append :
    (rows : List Row) (is js : List ℕ)
    → gather rows (is ++ js) ≡ (gather rows is >>= λ rs. gather rows js >>= λ ss. some (rs ++ ss))
unfolding gather
gather-append rows [] js = go (gather rows js)
  where
    go : (o : Option (List Row)) → o ≡ (o >>= λ ss. some ss)
    go none = refl
    go (some ss) = refl
gather-append rows (i ∷ is) js =
    ap (λ o. get_elem? rows i >>= λ r. o >>= λ rs. some (r ∷ rs)) (gather-append rows is js)
    ∙ go (get_elem? rows i) (gather rows is) (gather rows js)
  where
    go :
        (r : Option Row) (rs ss : Option (List Row))
        → (r >>= λ x. (rs >>= λ xs. ss >>= λ ys. some (xs ++ ys)) >>= λ xs. some (x ∷ xs))
          ≡ ((r >>= λ x. rs >>= λ xs. some (x ∷ xs)) >>= λ xs. ss >>= λ ys. some (xs ++ ys))
    go none rs ss = refl
    go (some x) none ss = refl
    go (some x) (some xs) none = refl
    go (some x) (some xs) (some ys) = refl

-- Places in range are gathered from states and from actions.
gather_both-in :
    (idx : LabelIndex) (lo rng : ℕ) (is : List ℕ)
    → IsPaired idx
    → All (λ i. (lo ≤ i) × (i < n_frames idx)) is
    → (ss acts : List Row) × (gather idx.states is ≡ some ss)
      × (gather idx.actions is ≡ some acts)
      × IsDrawn idx lo (length is) ss acts
gather_both-in idx lo rng is paired inside =
    let (ss, got, from) = gather-in lo (n_frames idx) idx.states is refl inside in
    let (acts, got', from') = gather-in lo (n_frames idx) idx.actions is (sym paired) inside in
    (ss, acts, got, got', (is, refl, inside, from, from'))

length-drawn :
    (idx : LabelIndex) (lo k : ℕ) (ss acts : List Row) → IsDrawn idx lo k ss acts → length ss ≡ k
length-drawn idx lo k ss acts (is, size, inside, from, from') =
    sym (length-map some ss) ∙ ap length from ∙ length-map (get_elem? idx.states) is ∙ size

-- How many of a batch are drawn from the new rows alone.
abbrev pub new_size : LabelIndex → ℕ → ℕ
new_size idx batch_size =
    if min idx.new_since_checkpoint (n_frames idx) == 0 then 0 else batch_size / 2

abbrev pub first_new : LabelIndex → ℕ
first_new idx = n_frames idx - min idx.new_since_checkpoint (n_frames idx)

-- Two lists of places: any of the index, and new ones.
abbrev IsSplit : LabelIndex → ℕ → List ℕ → Type 0
IsSplit idx batch_size is =
    (old new : List ℕ) × (is ≡ old ++ new)
    × (length old ≡ aggregate_size idx batch_size)
    × (length new ≡ new_size idx batch_size)
    × All (λ i. (0 ≤ i) × (i < n_frames idx)) old
    × All (λ i. (first_new idx ≤ i) × (i < n_frames idx)) new

first_new-lt : (m n : ℕ) → (min m n == 0) ≡ false → n - min m n < n
first_new-lt m n h = ground arith

draw-IsSplit :
    (integers : Generator) (idx : LabelIndex) (batch_size rng : ℕ)
    → IsGenerator integers
    → 0 < n_frames idx
    → IsSplit idx batch_size (draw integers idx batch_size rng).0
draw-IsSplit integers idx batch_size rng law nonempty =
    let first = law rng 0 (n_frames idx) (aggregate_size idx batch_size) nonempty in
    let old = integers rng 0 (n_frames idx) (aggregate_size idx batch_size) in
    elim (Bool-cases (min idx.new_since_checkpoint (n_frames idx) == 0)) [
      | inl e ↦ (old.0, [], rw (append-nil old.0, e), first.0, rw e, first.1, tt)
      | inr e ↦
          let second =
            law old.1 (first_new idx) (n_frames idx) (batch_size / 2)
              (first_new-lt idx.new_since_checkpoint (n_frames idx) e) in
          (
            old.0,
            (integers old.1 (first_new idx) (n_frames idx) (batch_size / 2)).0,
            rw e,
            first.0,
            second.0 ∙ sym (ap (λ b. if b then 0 else batch_size / 2) e),
            first.1,
            second.1,
          )
    ]

sizes_sum :
    (idx : LabelIndex) (batch_size : ℕ)
    → aggregate_size idx batch_size + new_size idx batch_size ≡ batch_size
sizes_sum idx batch_size = ground arith

nonzero : (n : ℕ) → 0 < n → (n == 0) ≡ false
nonzero n h = ground arith

gather_both-append :
    (idx : LabelIndex) (old new : List ℕ) (rng : ℕ) (ss ss' acts acts' : List Row)
    → gather idx.states old ≡ some ss
    → gather idx.states new ≡ some ss'
    → gather idx.actions old ≡ some acts
    → gather idx.actions new ≡ some acts'
    → gather_both idx (old ++ new) rng
      ≡ some (record { states = ss ++ ss'; actions = acts ++ acts' }, rng)
gather_both-append idx old new rng ss ss' acts acts' e e' f f' =
    rw (gather-append idx.states old new, gather-append idx.actions old new, e, e', f, f')

-- From an index that has frames, with a state for each action, `next` returns a batch of exactly
-- the size asked for. Each of its rows is a row of the index, the action with its own state; and
-- where there are labels since the last checkpoint, half of the batch is drawn from those alone.
-- This relies on numpy's generator, which draws as many numbers as asked for, in the range given.
pub next-IsDrawn :
    (integers : Generator) (idx : LabelIndex) (batch_size rng : ℕ)
    → IsGenerator integers
    → IsPaired idx
    → 0 < n_frames idx
    → (ss acts ss' acts' : List Row) × (rng' : ℕ) × (next integers idx batch_size rng
        ≡ some (record { states = ss ++ ss'; actions = acts ++ acts' }, rng'))
      × (length (ss ++ ss') ≡ batch_size)
      × IsDrawn idx 0 (aggregate_size idx batch_size) ss acts
      × IsDrawn idx (first_new idx) (new_size idx batch_size) ss' acts'
unfolding next
next-IsDrawn integers idx batch_size rng law paired nonempty =
    let d = draw integers idx batch_size rng in
    let (old, new, parts, some_old, some_new, in_old, in_new) =
      draw-IsSplit integers idx batch_size rng law nonempty in
    let (ss, acts, got, got_acts, drawn) = gather_both-in idx 0 d.1 old paired in_old in
    let (ss', acts', got', got_acts', drawn') =
      gather_both-in idx (first_new idx) d.1 new paired in_new in
    (
      ss,
      acts,
      ss',
      acts',
      d.1,
      ap (λ b. if b then none else gather_both idx d.0 d.1) (nonzero (n_frames idx) nonempty)
          ∙ ap (λ is. gather_both idx is d.1) parts
          ∙ gather_both-append idx old new d.1 ss ss' acts acts' got got' got_acts got_acts',
      length-append ss ss'
          ∙ omega (
            arith,
            length-drawn idx 0 (length old) ss acts drawn,
            length-drawn idx (first_new idx) (length new) ss' acts' drawn',
            some_old,
            some_new,
            sizes_sum idx batch_size,
          ),
      subst (λ k. IsDrawn idx 0 k ss acts) some_old drawn,
      subst (λ k. IsDrawn idx (first_new idx) k ss' acts') some_new drawn',
    )
