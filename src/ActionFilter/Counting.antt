-- ===== src/ActionFilter/Counting.antt =====
-- The filter's counters and gaps.
use apollo_mavis_v2_runtime.ActionFilter.{
  ActionFilter, ActionFilterConfig, Capture, decide, drain, episode, filterable, flush, init, keeps,
  push, pushes, reset,
}
use apollo_mavis_v2_runtime.ActionFilter.Offline.{offline, episode-offline}
use apollo_mavis_v2_runtime.Prelude.{
  ℕ, ◌+◌, ◌≡◌, refl, sym, ap, ◌∙◌, true, false, List, [], ◌∷◌, ◌++◌, Option, none, some, ltb, ◌==◌,
  length, All, ℤ, arith, Bool-cases, inl, inr, append-nil, length-append, subst,
}

-- The skipped captures that the gaps tell of.
abbrev pub skips_in : List (ℕ × ℕ) → ℕ
skips_in [] = 0
skips_in ((at, n) ∷ gaps) = n + skips_in gaps

skips_in-append : (gs hs : List (ℕ × ℕ)) → skips_in (gs ++ hs) ≡ skips_in gs + skips_in hs
skips_in-append [] hs = omega arith
skips_in-append ((at, n) ∷ gs) hs = omega (arith, skips_in-append gs hs)

abbrev told : ActionFilter → ℕ
told f = skips_in f.gaps + f.pending_skips

-- From `f` to `g`: `n` captures were decided, of which `out` were kept.
abbrev Decides : ActionFilter → ActionFilter → List Capture → ℕ → Type 0
Decides f g out n =
    (g.frames_seen ≡ f.frames_seen)
    × (g.kept ≡ f.kept + length out)
    × (g.kept + g.frames_skipped ≡ f.kept + f.frames_skipped + n)
    × (told g + f.frames_skipped ≡ told f + g.frames_skipped)

-- Every capture seen is kept, skipped or waiting, and the gaps tell of every one skipped.
abbrev pub IsCounted : ActionFilter → Type 0
IsCounted f =
    (f.frames_seen ≡ f.kept + f.frames_skipped + length f.buffer)
    × (skips_in f.gaps + f.pending_skips ≡ f.frames_skipped)

module _ (rotation_angle : List ℤ → List ℤ → ℕ) where
  decide-Decides :
      (f : ActionFilter) (c : Capture) (future : List Capture)
      → let d = decide rotation_angle f c future in Decides f d.0 d.1 1
  unfolding decide
  decide-Decides f c future =
      elim (Bool-cases (keeps rotation_angle f.cfg f.arms f.last_kept f.history c future)) [
        | inl keep ↦ rw keep (elim (Bool-cases (f.pending_skips == 0)) [
          | inl no_gap ↦ rw no_gap (ground (arith, no_gap))
          | inr gap ↦
              rw gap (ground (arith, skips_in-append f.gaps ((f.kept, f.pending_skips) ∷ [])))
        ])
        | inr skip ↦ rw skip (ground arith)
      ]

  -- `cs` was the buffer of `f`.
  abbrev Drained : ActionFilter → ActionFilter → List Capture → ℕ → Type 0
  Drained f g out n =
      (g.frames_seen ≡ f.frames_seen)
      × (g.kept ≡ f.kept + length out)
      × (g.kept + g.frames_skipped + length g.buffer ≡ f.kept + f.frames_skipped + n)
      × (told g + f.frames_skipped ≡ told f + g.frames_skipped)

  drain-Drained :
      (f : ActionFilter) (n : ℕ) (cs : List Capture)
      → let r = drain rotation_angle f n cs in Drained f r.0 r.1 (length cs)
  unfolding drain
  drain-Drained f n [] = ground arith
  drain-Drained f n (c ∷ cs) =
      let d = decide rotation_angle f c cs in
      let r = drain rotation_angle d.0 n cs in
      elim (Bool-cases (ltb n (length (c ∷ cs)))) [
        | inl more ↦
            rw more
              (ground (arith, decide-Decides f c cs, drain-Drained d.0 n cs, length-append d.1 r.1))
        | inr enough ↦ rw enough (ground arith)
      ]

  -- From `f` to `g`, one more capture was seen and `out` were kept.
  abbrev Pushed : ActionFilter → ActionFilter → List Capture → Type 0
  Pushed f g out =
      (IsCounted f → IsCounted g)
      × (g.frames_seen ≡ f.frames_seen + 1)
      × (g.kept ≡ f.kept + length out)

  push-Pushed :
      (f : ActionFilter) (c : Capture) → let r = push rotation_angle f c in Pushed f r.0 r.1
  unfolding push
  push-Pushed f c =
      let seen = record f { frames_seen = f.frames_seen + 1 } in
      elim (Bool-cases f.cfg.enabled) [
        | inl on ↦ simp on (
            ground (
              arith,
              drain-Drained seen f.window (f.buffer ++ c ∷ []),
              length-append f.buffer (c ∷ []),
            ))
        | inr off ↦ simp off (ground arith)
      ]

  pushes_lem :
      (f : ActionFilter) (cs : List Capture)
      → let r = pushes rotation_angle f cs in
        (IsCounted f → IsCounted r.0)
        × (r.0.frames_seen ≡ f.frames_seen + length cs)
        × (r.0.kept ≡ f.kept + length r.1)
  unfolding pushes
  pushes_lem f [] = ((λ v. v), omega arith, omega arith)
  pushes_lem f (c ∷ cs) =
      let p = push rotation_angle f c in
      let q = push-Pushed f c in
      let r = pushes_lem p.0 cs in
      (
        (λ v. r.0 (q.0 v)),
        omega (arith, q.1, r.1),
        omega (arith, q.2, r.2, length-append p.1 (pushes rotation_angle p.0 cs).1),
      )

  drain-empty : (f : ActionFilter) (cs : List Capture) → (drain rotation_angle f 0 cs).0.buffer ≡ []
  unfolding drain
  drain-empty f [] = refl
  drain-empty f (c ∷ cs) =
      let waits : ltb 0 (length (c ∷ cs)) ≡ true = ground arith in
      rw waits (drain-empty (decide rotation_angle f c cs).0 cs)

  -- After an episode's save nothing waits; every capture pushed is either kept or counted as skipped,
  -- the kept ones are those handed on, and the gaps, with those after the last kept capture, add up
  -- to the skipped ones. This holds of enabled and disabled filters, whatever they did before.
  pub episode-IsCounted :
      (f : ActionFilter) (cs : List Capture)
      → let r = episode rotation_angle f cs in
        (r.0.buffer ≡ [])
        × (r.0.kept ≡ length r.1)
        × (length cs ≡ length r.1 + r.0.frames_skipped)
        × (skips_in r.0.gaps + r.0.pending_skips ≡ r.0.frames_skipped)
  unfolding episode flush
  episode-IsCounted f cs =
      let g = (pushes rotation_angle (reset f) cs).0 in
      let empty = drain-empty g g.buffer in
      let p = pushes_lem (reset f) cs in
      let fresh : IsCounted (reset f) = unfold reset in ground arith in
      let counted = p.0 fresh in
      let start : ((reset f).frames_seen ≡ 0) × ((reset f).kept ≡ 0) =
        unfold reset in (refl, refl) in
      let q = drain-Drained g 0 g.buffer in
      let sizes =
        length-append (pushes rotation_angle (reset f) cs).1
          (drain rotation_angle g 0 g.buffer).1 in
      let nothing : length (drain rotation_angle g 0 g.buffer).0.buffer ≡ 0 =
        ap (λ b. length b) empty in
      (
        empty,
        omega (arith, p, start, q, sizes),
        omega (arith, p, start, q, sizes, counted, nothing),
        omega (arith, q, counted),
      )

  offline-passes :
      (cfg : ActionFilterConfig) (arms : List ℕ) (window : ℕ) (ref : Option Capture)
      (past cs : List Capture)
      → All (λ c. filterable c ≡ false) cs
      → offline rotation_angle cfg arms window ref past cs ≡ cs
  unfolding offline
  offline-passes cfg arms window ref past [] h = refl
  offline-passes cfg arms window none past (c ∷ cs) h =
      ap (λ out. c ∷ out) (offline-passes cfg arms window (some c) _ cs h.1)
  offline-passes cfg arms window (some ref) past (c ∷ cs) h =
      simp h.0 (ap (λ out. c ∷ out) (offline-passes cfg arms window (some c) _ cs h.1))

-- The policy's frames are never filtered: an enabled filter keeps the whole of an episode that no
-- human drove, as it is.
pub episode-passes :
    (rotation_angle : List ℤ → List ℤ → ℕ) (cfg : ActionFilterConfig) (arms : List ℕ)
    (cs : List Capture)
    → cfg.enabled ≡ true
    → All (λ c. filterable c ≡ false) cs
    → (episode rotation_angle (init cfg arms) cs).1 ≡ cs
episode-passes rotation_angle cfg arms cs on h =
    episode-offline rotation_angle cfg arms cs on
    ∙ offline-passes rotation_angle cfg arms cfg.context none [] cs h

disabled_pushes :
    (rotation_angle : List ℤ → List ℤ → ℕ) (f : ActionFilter) (cs : List Capture)
    → f.cfg.enabled ≡ false
    → f.buffer ≡ []
    → let r = pushes rotation_angle f cs in (r.1 ≡ cs) × (r.0.buffer ≡ [])
unfolding pushes push
disabled_pushes rotation_angle f [] off empty = (refl, empty)
disabled_pushes rotation_angle f (c ∷ cs) off empty =
    let next = record f { frames_seen = f.frames_seen + 1; kept = f.kept + 1 } in
    let later = disabled_pushes rotation_angle next cs off empty in
    simp off (ap (λ out. c ∷ out) later.0, later.1)

flush_empty :
    (rotation_angle : List ℤ → List ℤ → ℕ) (f : ActionFilter)
    → f.buffer ≡ []
    → (flush rotation_angle f).1 ≡ []
unfolding flush drain
flush_empty rotation_angle f empty =
    subst (λ b. (drain rotation_angle f 0 b).1 ≡ []) (sym empty) refl

-- A disabled filter keeps every capture, in order.
pub episode-disabled :
    (rotation_angle : List ℤ → List ℤ → ℕ) (cfg : ActionFilterConfig) (arms : List ℕ)
    (cs : List Capture)
    → cfg.enabled ≡ false
    → (episode rotation_angle (init cfg arms) cs).1 ≡ cs
unfolding episode
episode-disabled rotation_angle cfg arms cs off =
    let p =
      disabled_pushes rotation_angle (reset (init cfg arms)) cs (unfold reset init in off)
        (unfold reset init in refl) in
    let waiting =
      flush_empty rotation_angle (pushes rotation_angle (reset (init cfg arms)) cs).0 p.1 in
    rw (p.0, waiting, append-nil)
