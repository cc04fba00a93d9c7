-- ===== src/Registry/Promoted.antt =====
-- Which policies a session can get at all.
use mathlib.Core.Bool.{false≢true}
use mathlib.Core.Option.{none-ne-some}
use mathlib.Core.List.{Memᴰ}
use mathlib.Core.List.Memᴰ.{head, tail}
use apollo_mavis_v2_runtime.Prelude.{
  and-true, ℕ, ◌≡◌, refl, sym, ap, ◌∙◌, subst, ◌⊎◌, inl, inr, Bool, true, false, not, ◌||◌, List,
  [], ◌∷◌, Option, none, some, arith, ◌==◌, if◌then◌else◌,
}
use apollo_mavis_v2_runtime.Registry.Newest.{IsNewest, resolve_policy-IsNewest}
use apollo_mavis_v2_runtime.Registry.{
  Text, Checkpoint, Root, Resolved, ok, err, not_promoted, insane, same_text, enter, entries, entry,
  promoted_id, is_text, promoted_entry, inference_policy, asked_or_promoted, dagger_policy,
  sane_entry, newest, found, resolve_policy, iter_checkpoints,
}

==-eq : (x y : ℕ) → (x == y) ≡ true → x ≡ y
==-eq x y h = ground arith

same_text-eq : (a b : Text) → same_text a b ≡ true → a ≡ b
same_text-eq [] [] h = refl
same_text-eq [] (y ∷ ys) h = absurd (false≢true h)
same_text-eq (x ∷ xs) [] h = absurd (false≢true h)
same_text-eq (x ∷ xs) (y ∷ ys) h =
    let both = and-true (x == y) (same_text xs ys) h in
    ap (λ z. z ∷ xs) (==-eq x y both.0) ∙ ap (λ zs. y ∷ zs) (same_text-eq xs ys both.1)

some-inj : {e c : Checkpoint} → some e ≡ some c → e ≡ c
some-inj h = cc

entry-in :
    (es : List Checkpoint) (policy_id : Text) (e : Checkpoint)
    → entry es policy_id ≡ some e
    → Memᴰ e es × (e.policy_id ≡ policy_id)
unfolding entry
entry-in [] policy_id e h = absurd (none-ne-some e h)
entry-in (x ∷ es) policy_id e h =
    go (same_text x.policy_id policy_id) refl h (entry-in es policy_id e)
  where
    go :
        (b : Bool)
        → same_text x.policy_id policy_id ≡ b
        → (if b then some x else entry es policy_id) ≡ some e
        → (entry es policy_id ≡ some e → Memᴰ e es × (e.policy_id ≡ policy_id))
        → Memᴰ e (x ∷ es) × (e.policy_id ≡ policy_id)
    go true same is later =
        let here = some-inj is in
        (
          head (sym here),
          ap (λ c. c.policy_id) (sym here) ∙ same_text-eq x.policy_id policy_id same,
        )
    go false same is later = let (m, named) = later is in (tail m, named)

enter-in :
    (c : Checkpoint) (es : List Checkpoint) (e : Checkpoint)
    → Memᴰ e (enter c es)
    → (e ≡ c) ⊎ Memᴰ e es
enter-in c [] e (head same) = inl same
enter-in c [] e (tail m) = elim m [ ]
enter-in c (x ∷ es) e m = go (same_text x.policy_id c.policy_id) m (enter-in c es e)
  where
    go :
        (b : Bool)
        → Memᴰ e (if b then c ∷ es else x ∷ enter c es)
        → (Memᴰ e (enter c es) → (e ≡ c) ⊎ Memᴰ e es)
        → (e ≡ c) ⊎ Memᴰ e (x ∷ es)
    go true (head same) later = inl same
    go true (tail m) later = inr (tail m)
    go false (head same) later = inr (head same)
    go false (tail m) later = after (later m)
      where
        after : (e ≡ c) ⊎ Memᴰ e es → (e ≡ c) ⊎ Memᴰ e (x ∷ es)
        after (inl same) = inl same
        after (inr n) = inr (tail n)

entries-in :
    (es cs : List Checkpoint) (e : Checkpoint) → Memᴰ e (entries es cs) → Memᴰ e es ⊎ Memᴰ e cs
unfolding entries
entries-in es [] e m = inl m
entries-in es (c ∷ cs) e m = go (entries-in (enter c es) cs e m)
  where
    after : (e ≡ c) ⊎ Memᴰ e es → Memᴰ e es ⊎ Memᴰ e (c ∷ cs)
    after (inl same) = inr (head same)
    after (inr n) = inl n

    go : Memᴰ e (enter c es) ⊎ Memᴰ e cs → Memᴰ e es ⊎ Memᴰ e (c ∷ cs)
    go (inl n) = after (enter-in c es e n)
    go (inr n) = inr (tail n)

listed : (cs : List Checkpoint) (e : Checkpoint) → Memᴰ e (entries [] cs) → Memᴰ e cs
listed cs e m = elim (entries-in [] cs e m) [ inl m ↦ elim m [ ] | inr n ↦ n ]

-- A policy of the root directory: for inference the promoted deploy checkpoint, else a sane one.
abbrev pub IsAllowed : Root → Bool → Resolved → Type 0
IsAllowed root inference (ok c) =
    Memᴰ c (iter_checkpoints root.runs)
    × (inference ≡ true → (c.is_deploy ≡ true) × (promoted_id root ≡ some c.policy_id))
    × (inference ≡ false → c.info.sanity_ok ≡ true)
IsAllowed root inference (err e) = Unit

is_text-eq : (o : Option Text) (text : Text) → is_text o text ≡ true → o ≡ some text
is_text-eq none text h = absurd (false≢true h)
is_text-eq (some other) text h = ap some (sym (same_text-eq text other h))

named :
    (e : Checkpoint) (policy_id : Text)
    → e.policy_id ≡ policy_id
    → record e { policy_id = policy_id } ≡ e
named e policy_id h = ap (λ p. record e { policy_id = p }) (sym h)

module _ (root : Root) where
  abbrev cs : List Checkpoint
  cs = iter_checkpoints root.runs

  found-IsAllowed :
      (inference : Bool) (policy_id : Text) (e : Checkpoint)
      → entry (entries [] cs) policy_id ≡ some e
      → (inference ≡ true → (e.is_deploy ≡ true) × (promoted_id root ≡ some policy_id))
      → (inference ≡ false → e.info.sanity_ok ≡ true)
      → IsAllowed root inference (ok (record e { policy_id = policy_id }))
  found-IsAllowed inference policy_id e h promoted sane =
      let (m, is) = entry-in (entries [] cs) policy_id e h in
      (subst (λ c. Memᴰ c cs) (sym (named e policy_id is)) (listed cs e m), promoted, sane)

  promoted_entry-IsAllowed :
      (policy_id : Text) (o : Option Checkpoint)
      → entry (entries [] cs) policy_id ≡ o
      → IsAllowed root true (promoted_entry root policy_id o)
  promoted_entry-IsAllowed policy_id none h = tt
  promoted_entry-IsAllowed policy_id (some e) h =
      go e.is_deploy (is_text (promoted_id root) policy_id) refl refl
    where
      go :
          (d p : Bool)
          → e.is_deploy ≡ d
          → is_text (promoted_id root) policy_id ≡ p
          → IsAllowed root true
              (if not d || not p then err not_promoted else ok (record e { policy_id = policy_id }))
      go true true deploys is =
          found-IsAllowed true policy_id e h
            (λ i. (deploys, is_text-eq (promoted_id root) policy_id is))
            (λ i. absurd (false≢true (sym i)))
      go true false deploys is = tt
      go false p deploys is = tt

  inference_policy-IsAllowed :
      (o : Option Text) → IsAllowed root true (inference_policy root (entries [] cs) o)
  inference_policy-IsAllowed none = tt
  inference_policy-IsAllowed (some policy_id) =
      promoted_entry-IsAllowed policy_id (entry (entries [] cs) policy_id) refl

  sane_entry-IsAllowed :
      (policy_id : Text) (o : Option Checkpoint)
      → entry (entries [] cs) policy_id ≡ o
      → IsAllowed root false (sane_entry policy_id o)
  sane_entry-IsAllowed policy_id none h = tt
  sane_entry-IsAllowed policy_id (some e) h = go e.info.sanity_ok refl
    where
      go :
          (s : Bool)
          → e.info.sanity_ok ≡ s
          → IsAllowed root false
              (if not s then err insane else ok (record e { policy_id = policy_id }))
      go true sane = found-IsAllowed false policy_id e h (λ i. absurd (false≢true i)) (λ i. sane)
      go false sane = tt

  newest-IsAllowed : (r : Resolved) → IsNewest (entries [] cs) r → IsAllowed root false r
  newest-IsAllowed (ok c) (m, sane, latest) =
      (listed cs c m, (λ i. absurd (false≢true i)), (λ i. sane))
  newest-IsAllowed (err e) n = tt

  dagger_policy-IsAllowed :
      (policy : Option Text) → IsAllowed root false (dagger_policy (entries [] cs) policy)
  dagger_policy-IsAllowed none =
      newest-IsAllowed (found (newest none (entries [] cs)))
        (unfold resolve_policy in resolve_policy-IsNewest root)
  dagger_policy-IsAllowed (some policy) =
      sane_entry-IsAllowed policy (entry (entries [] cs) policy) refl

-- Whatever policy a session asks for, or none, the one that it gets is a readable checkpoint of the
-- root directory. In an inference session it is the deploy checkpoint that the file names as
-- promoted; in any other session it passed the sanity gate.
pub resolve_policy-IsAllowed :
    (root : Root) (inference : Bool) (policy : Option Text)
    → IsAllowed root inference (resolve_policy root inference policy)
unfolding resolve_policy
resolve_policy-IsAllowed root true policy =
    inference_policy-IsAllowed root (asked_or_promoted root policy)
resolve_policy-IsAllowed root false policy = dagger_policy-IsAllowed root policy
