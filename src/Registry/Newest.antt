-- ===== src/Registry/Newest.antt =====
-- The newest sane checkpoint.
use mathlib.Core.Bool.{false≢true}
use mathlib.Core.Option.{none-ne-some}
use mathlib.Core.List.{Memᴰ}
use mathlib.Core.List.Memᴰ.{head, tail}
use apollo_mavis_v2_runtime.Prelude.{
  ◌≤◌, ◌≡◌, refl, sym, ap, ◌∙◌, subst, ◌⊎◌, inl, inr, Bool, true, false, not, List, [], ◌∷◌, Option,
  none, some, arith, All, if◌then◌else◌,
}
use apollo_mavis_v2_runtime.Registry.{
  Checkpoint, Root, Resolved, ok, err, no_checkpoints, newest, is_newer, found, resolve_policy,
  entries, iter_checkpoints,
}

-- Every sane checkpoint of the list is at most as new as `c`.
abbrev IsLatest : Checkpoint → List Checkpoint → Type 0
IsLatest c es =
    All (λ e. e.info.sanity_ok ≡ true → e.info.created_wallclock_ns ≤ c.info.created_wallclock_ns)
      es

abbrev AtMost : Option Checkpoint → Checkpoint → Type 0
AtMost none c = Unit
AtMost (some best) c = best.info.created_wallclock_ns ≤ c.info.created_wallclock_ns

abbrev Beats : Option Checkpoint → List Checkpoint → Option Checkpoint → Type 0
Beats best es none = (best ≡ none) × All (λ e. e.info.sanity_ok ≡ false) es
Beats best es (some c) =
    ((best ≡ some c) ⊎ (Memᴰ c es × (c.info.sanity_ok ≡ true))) × AtMost best c × IsLatest c es

-- The choice of one turn of the loop.
abbrev pick : Option Checkpoint → Checkpoint → Option Checkpoint
pick best e = if not e.info.sanity_ok then best else if is_newer best e then some e else best

-- It keeps the best where the checkpoint is insane or no newer, else it takes the checkpoint.
abbrev IsPick : Option Checkpoint → Checkpoint → Bool → Option Checkpoint → Type 0
IsPick best e sane p =
    ((p ≡ best)
      × (sane ≡ true
          → (b : Checkpoint) × (best ≡ some b)
            × (e.info.created_wallclock_ns ≤ b.info.created_wallclock_ns))
      × (best ≡ none → sane ≡ false))
    ⊎ ((p ≡ some e) × (sane ≡ true) × AtMost best e)

pick-IsPick :
    (best : Option Checkpoint) (e : Checkpoint) → IsPick best e e.info.sanity_ok (pick best e)
pick-IsPick none e = go e.info.sanity_ok
  where
    go : (s : Bool) → IsPick none e s (if not s then none else some e)
    go true = inr (refl, refl, tt)
    go false = inl (refl, (λ sane. absurd (false≢true sane)), (λ k. refl))
pick-IsPick (some b) e = go e.info.sanity_ok (is_newer (some b) e) refl
  where
    go :
        (s n : Bool)
        → is_newer (some b) e ≡ n
        → IsPick (some b) e s (if not s then some b else if n then some e else some b)
    go true true h = inr (refl, refl, ground arith)
    go true false h = inl (refl, (λ sane. (b, refl, ground arith)), (λ k. cc))
    go false n h = inl (refl, (λ sane. absurd (false≢true sane)), (λ k. refl))

after_keep :
    (best : Option Checkpoint) (e : Checkpoint) (es : List Checkpoint) (r : Option Checkpoint)
    → (e.info.sanity_ok ≡ true
        → (b : Checkpoint) × (best ≡ some b)
          × (e.info.created_wallclock_ns ≤ b.info.created_wallclock_ns))
    → (best ≡ none → e.info.sanity_ok ≡ false)
    → Beats best es r
    → Beats best (e ∷ es) r
after_keep best e es none older insane (empty, rest) = (empty, (insane empty, rest))
after_keep best e es (some c) older insane (from, most, latest) = (
  go from,
  most,
  ((λ h. let (b, is, le) = older h in omega (arith, le, subst (λ o. AtMost o c) is most)), latest),
)
  where
    go :
        (best ≡ some c) ⊎ (Memᴰ c es × (c.info.sanity_ok ≡ true))
        → (best ≡ some c) ⊎ (Memᴰ c (e ∷ es) × (c.info.sanity_ok ≡ true))
    go (inl h) = inl h
    go (inr (m, s)) = inr (tail m, s)

some-inj : {e c : Checkpoint} → some e ≡ some c → e ≡ c
some-inj h = cc

AtMost-trans :
    (best : Option Checkpoint) (e c : Checkpoint)
    → AtMost best e
    → e.info.created_wallclock_ns ≤ c.info.created_wallclock_ns
    → AtMost best c
AtMost-trans none e c most above = tt
AtMost-trans (some b) e c most above = omega arith

after_take :
    (best : Option Checkpoint) (e : Checkpoint) (es : List Checkpoint) (r : Option Checkpoint)
    → e.info.sanity_ok ≡ true
    → AtMost best e
    → Beats (some e) es r
    → Beats best (e ∷ es) r
after_take best e es none sane most (empty, rest) = (cc, (cc, rest))
after_take best e es (some c) sane most (from, above, latest) =
    (inr (go from), AtMost-trans best e c most above, ((λ h. above), latest))
  where
    go :
        (some e ≡ some c) ⊎ (Memᴰ c es × (c.info.sanity_ok ≡ true))
        → Memᴰ c (e ∷ es) × (c.info.sanity_ok ≡ true)
    go (inl h) =
        let same = some-inj h in (head (sym same), ap (λ x. x.info.sanity_ok) (sym same) ∙ sane)
    go (inr (m, s)) = (tail m, s)

newest-Beats : (best : Option Checkpoint) (es : List Checkpoint) → Beats best es (newest best es)
unfolding newest
newest-Beats none [] = (refl, tt)
newest-Beats (some b) [] = (inl refl, omega arith, tt)
newest-Beats best (e ∷ es) =
    go (pick-IsPick best e) (newest-Beats best es) (newest-Beats (some e) es)
  where
    go :
        IsPick best e e.info.sanity_ok (pick best e)
        → Beats best es (newest best es)
        → Beats (some e) es (newest (some e) es)
        → Beats best (e ∷ es) (newest (pick best e) es)
    go (inl (kept, older, insane)) keep take =
        subst (λ p. Beats best (e ∷ es) (newest p es)) (sym kept)
          (after_keep best e es (newest best es) older insane keep)
    go (inr (taken, sane, most)) keep take =
        subst (λ p. Beats best (e ∷ es) (newest p es)) (sym taken)
          (after_take best e es (newest (some e) es) sane most take)

-- What a session gets that asks for no policy by name.
abbrev pub IsNewest : List Checkpoint → Resolved → Type 0
IsNewest es (ok c) = Memᴰ c es × (c.info.sanity_ok ≡ true) × IsLatest c es
IsNewest es (err e) = (e ≡ no_checkpoints) × All (λ e. e.info.sanity_ok ≡ false) es

pub resolve_policy-IsNewest :
    (root : Root)
    → IsNewest (entries [] (iter_checkpoints root.runs)) (resolve_policy root false none)
unfolding resolve_policy
resolve_policy-IsNewest root =
    let es = entries [] (iter_checkpoints root.runs) in
    go es (newest none es) (newest-Beats none es)
  where
    go : (es : List Checkpoint) (r : Option Checkpoint) → Beats none es r → IsNewest es (found r)
    go es none (empty, rest) = (refl, rest)
    go es (some c) (inl h, most, latest) = absurd (none-ne-some c h)
    go es (some c) (inr m, most, latest) = (m.0, m.1, latest)
