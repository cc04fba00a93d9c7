-- ===== src/ActionFilter/Offline.antt =====
-- The filter against a description of it that sees the whole episode at once.
use apollo_mavis_v2_runtime.ActionFilter.{
  ActionFilter, ActionFilterConfig, Capture, decide, drain, episode, flush, init, keeps, push,
  pushes, reset,
}
use apollo_mavis_v2_runtime.Prelude.{
  ℕ, zero, suc, ◌+◌, ◌≤◌, ◌≡◌, refl, ap, ◌∙◌, true, List, [], ◌∷◌, ◌++◌, Option, none, some, ltb,
  ◌==◌, if◌then◌else◌, length, last, take, max, ℤ, arith, Bool-cases, inl, inr, append-nil,
  append_assoc, length-append,
}

module _ (rotation_angle : List ℤ → List ℤ → ℕ) (cfg : ActionFilterConfig) (arms : List ℕ)
    (window : ℕ) where
  -- Every capture is judged by the last one kept, the decided ones just before it and the `window`
  -- ones after it.
  unfoldable pub offline : Option Capture → List Capture → List Capture → List Capture
  offline kept past [] = []
  offline kept past (c ∷ cs) =
      let past' = last (max window 1) (past ++ c ∷ []) in
      let with_it = offline (some c) past' cs in
      let without_it = offline kept past' cs in
      if keeps rotation_angle cfg arms kept past c (take window cs) then c ∷ with_it else without_it

take_all : {A : Type 0} (n : ℕ) (xs : List A) → length xs ≤ n → take n xs ≡ xs
take_all zero [] h = refl
take_all zero (x ∷ xs) h = ground (arith, h)
take_all (suc n) [] h = refl
take_all (suc n) (x ∷ xs) h = ap (λ ys. x ∷ ys) (take_all n xs (omega (arith, h)))

take-append : {A : Type 0} (n : ℕ) (xs ys : List A) → length xs ≡ n → take n (xs ++ ys) ≡ xs
take-append zero [] ys h = refl
take-append zero (x ∷ xs) ys h = ground (arith, h)
take-append (suc n) [] ys h = ground (arith, h)
take-append (suc n) (x ∷ xs) ys h = ap (λ zs. x ∷ zs) (take-append n xs ys (omega (arith, h)))

module _ (rotation_angle : List ℤ → List ℤ → ℕ) where
  abbrev pub rest_of : ActionFilter → List Capture → List Capture
  rest_of f cs = offline rotation_angle f.cfg f.arms f.window f.last_kept f.history cs

  abbrev pub SameSetting : ActionFilter → ActionFilter → Type 0
  SameSetting f g = (g.cfg ≡ f.cfg) × (g.arms ≡ f.arms) × (g.window ≡ f.window)

  pub decide-SameSetting :
      (f : ActionFilter) (c : Capture) (future : List Capture)
      → SameSetting f (decide rotation_angle f c future).0
  unfolding decide
  decide-SameSetting f c future = ground arith

  decide_lem :
      (f : ActionFilter) (c : Capture) (future cs : List Capture)
      → take f.window cs ≡ future
      → let r = decide rotation_angle f c future in r.1 ++ rest_of r.0 cs ≡ rest_of f (c ∷ cs)
  unfolding decide offline
  decide_lem f c future cs e =
      rw e (elim (Bool-cases (keeps rotation_angle f.cfg f.arms f.last_kept f.history c future)) [
        | inl keep ↦
            rw keep (elim (Bool-cases (f.pending_skips == 0)) [
              | inl no_gap ↦ rw no_gap
              | inr gap ↦ rw gap
            ])
        | inr skip ↦ rw skip
      ])

  pub drain-short :
      (f : ActionFilter) (n : ℕ) (cs : List Capture)
      → length cs ≤ n
      → drain rotation_angle f n cs ≡ (record f { buffer = cs }, [])
  unfolding drain
  drain-short f n [] h = refl
  drain-short f n (c ∷ cs) h = ground (arith, h)

  flush_lem :
      (f : ActionFilter) (cs : List Capture)
      → length cs ≤ f.window
      → (drain rotation_angle f 0 cs).1 ≡ rest_of f cs
  unfolding drain offline
  flush_lem f [] h = refl
  flush_lem f (c ∷ cs) h =
      let d = decide rotation_angle f c cs in
      let waits : ltb 0 (length (c ∷ cs)) ≡ true = ground arith in
      let later : (drain rotation_angle d.0 0 cs).1 ≡ rest_of d.0 cs =
        flush_lem d.0 cs (omega (arith, h, (decide-SameSetting f c cs).2)) in
      let first : d.1 ++ rest_of d.0 cs ≡ rest_of f (c ∷ cs) =
        decide_lem f c cs cs (take_all f.window cs (omega (arith, h))) in
      rw waits (ap (λ out. d.1 ++ out) later ∙ first)

  -- What is kept now and later, of a buffer `full` and the captures `cs` to come.
  abbrev Drains : ActionFilter → List Capture → List Capture → ActionFilter × List Capture → Type 0
  Drains f full cs r =
      (r.1 ++ rest_of r.0 (r.0.buffer ++ cs) ≡ rest_of f (full ++ cs))
      × (length r.0.buffer ≤ f.window)
      × SameSetting f r.0

  drain_short-Drains :
      (f : ActionFilter) (full cs : List Capture)
      → length full ≤ f.window
      → Drains f full cs (drain rotation_angle f f.window full)
  drain_short-Drains f full cs h = rw (drain-short f f.window full h) (refl, h, (refl, refl, refl))

  drain-full :
      (f : ActionFilter) (b : Capture) (bs : List Capture)
      → length bs ≡ f.window
      → let d = decide rotation_angle f b bs in
        drain rotation_angle f f.window (b ∷ bs) ≡ (record d.0 { buffer = bs }, d.1)
  unfolding drain
  drain-full f b bs e =
      let d = decide rotation_angle f b bs in
      let more : ltb f.window (length (b ∷ bs)) ≡ true = ground (arith, e) in
      rw (more, drain-short d.0 f.window bs (omega (arith, e)), append-nil)

  drain_full-Drains :
      (f : ActionFilter) (b : Capture) (bs cs : List Capture)
      → length bs ≡ f.window
      → Drains f (b ∷ bs) cs (drain rotation_angle f f.window (b ∷ bs))
  drain_full-Drains f b bs cs e = rw (drain-full f b bs e) (
    decide_lem f b bs (bs ++ cs) (take-append f.window bs cs e),
    omega (arith, e),
    decide-SameSetting f b bs,
  )

  drain-Drains :
      (f : ActionFilter) (full cs : List Capture)
      → length full ≤ f.window + 1
      → Drains f full cs (drain rotation_angle f f.window full)
  drain-Drains f [] cs h = drain_short-Drains f [] cs (omega arith)
  drain-Drains f (b ∷ bs) cs h = elim (Bool-cases (ltb (length bs) f.window)) [
    | inl short ↦ drain_short-Drains f (b ∷ bs) cs (ground (arith, short))
    | inr full ↦ drain_full-Drains f b bs cs (ground (arith, full, h))
  ]

  abbrev Enabled : ActionFilter → Type 0
  Enabled f = (f.cfg.enabled ≡ true) × (length f.buffer ≤ f.window)

  push-Drains :
      (f : ActionFilter) (c : Capture) (cs : List Capture)
      → Enabled f
      → Drains f (f.buffer ++ c ∷ []) cs (push rotation_angle f c)
  unfolding push
  push-Drains f c cs (on, short) = simp on (
      drain-Drains (record f { frames_seen = f.frames_seen + 1 }) (f.buffer ++ c ∷ []) cs
        (omega (arith, short, length-append f.buffer (c ∷ []))))

  pushes_lem :
      (f : ActionFilter) (cs : List Capture)
      → Enabled f
      → let r = pushes rotation_angle f cs in
        r.1 ++ (flush rotation_angle r.0).1 ≡ rest_of f (f.buffer ++ cs)
  unfolding pushes flush
  pushes_lem f [] (on, short) = flush_lem f f.buffer short ∙ rw append-nil
  pushes_lem f (c ∷ cs) (on, short) =
      let p = push rotation_angle f c in
      let d = push-Drains f c cs (on, short) in
      rw append_assoc (
        ap (λ out. p.1 ++ out)
          (pushes_lem p.0 cs (ap (λ g. g.enabled) d.2.0 ∙ on, omega (arith, d.1, d.2.2)))
        ∙ d.0
        ∙ ap (λ ds. rest_of f ds) (append_assoc f.buffer (c ∷ []) cs))

-- What an enabled filter keeps of an episode, capture by capture with its buffer and a flush at
-- the end, is what the offline description keeps of the whole episode, in the same order.
pub episode-offline :
    (rotation_angle : List ℤ → List ℤ → ℕ) (cfg : ActionFilterConfig) (arms : List ℕ)
    (cs : List Capture)
    → cfg.enabled ≡ true
    → (episode rotation_angle (init cfg arms) cs).1
      ≡ offline rotation_angle cfg arms cfg.context none [] cs
unfolding episode init reset
episode-offline rotation_angle cfg arms cs on =
    let e : (if cfg.enabled then cfg.context else 0) ≡ cfg.context = rw on in
    pushes_lem rotation_angle (reset (init cfg arms)) cs (on, omega arith)
    ∙ ap (λ w. offline rotation_angle cfg arms w none [] cs) e
