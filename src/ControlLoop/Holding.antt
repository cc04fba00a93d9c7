-- ===== src/ControlLoop/Holding.antt =====
-- What a stopped arm is commanded, and what is put for a faulted one.
use apollo_mavis_v2_runtime.ArmSender.{LatestSlot}
use apollo_mavis_v2_runtime.ControlLoop.Faults.{arm_stopped}
use apollo_mavis_v2_runtime.ControlLoop.Frames.{Core, core, resolve_arm-core}
use apollo_mavis_v2_runtime.ControlLoop.State.{Posture, ControlLoop, is_in}
use apollo_mavis_v2_runtime.ControlLoop.Stopped.{is_stopped, before-keep, run_tick-Dispatched}
use apollo_mavis_v2_runtime.ControlLoop.Recovery.{IsChange}
use apollo_mavis_v2_runtime.ControlLoop.Tick.{
  Tick, resolve_arm, resolve_arms, by_source, before_sources, commands, run_tick,
}
use apollo_mavis_v2_runtime.Prelude.Dicts.{lookup}
use apollo_mavis_v2_runtime.Prelude.{
  ℕ, ◌≡◌, refl, sym, ap, ◌∙◌, subst, inl, inr, Bool, true, false, ◌||◌, List, [], ◌∷◌, ◌++◌, none,
  some, ◌==◌, if◌then◌else◌, or_else, All, arith,
}

==-eq : (x y : ℕ) → (x == y) ≡ true → x ≡ y
==-eq x y h = ground arith

abbrev pub last_of : ControlLoop → ℕ → Posture
last_of l arm = or_else (lookup arm l.last_cmd) []

resolve-stopped :
    (i : Tick) (l : ControlLoop) (arm : ℕ) (q : Posture)
    → is_stopped (core l) arm ≡ true
    → (resolve_arm i l arm q).1 ≡ none
unfolding resolve_arm arm_stopped
resolve-stopped i l arm q h =
    ap
      (λ c.
        (if c then (l, none) else by_source i l arm q (lookup arm l.plans) (lookup arm l.jog)).1)
      (stops (i.has_error arm) i.stalled)
  where
    stops : (e s : Bool) → (s || (e || is_in arm l.faulted || is_in arm l.recovering_arms)) ≡ true
    stops true true = refl
    stops true false = refl
    stops false true = refl
    stops false false = h

stays-stopped :
    (i : Tick) (l : ControlLoop) (arm b : ℕ) (q : Posture)
    → is_stopped (core l) arm ≡ true
    → is_stopped (core (resolve_arm i l b q).0) arm ≡ true
stays-stopped i l arm b q h = ap (λ c. is_stopped c arm) (resolve_arm-core i l b q) ∙ h

other_arm :
    (b arm : ℕ) (arms : List ℕ)
    → (b == arm) ≡ false
    → is_in arm (b ∷ arms) ≡ true
    → is_in arm arms ≡ true
other_arm b arm arms e m = ground arith

resolve_arms-holds :
    (i : Tick) (arm : ℕ) (arms : List ℕ) (l : ControlLoop)
    → is_in arm arms ≡ true
    → is_stopped (core l) arm ≡ true
    → lookup arm (resolve_arms i l arms).1 ≡ some (i.cap (last_of l arm) (last_of l arm))
unfolding resolve_arms
resolve_arms-holds i arm [] l member h = cc
resolve_arms-holds i arm (b ∷ arms) l member h =
    let u = (resolve_arm i l b (last_of l b)).0 in
    go (b == arm) refl
      (λ m. resolve_arms-holds i arm arms u m (stays-stopped i l arm b (last_of l b) h))
  where
    go :
        (let u = (resolve_arm i l b (last_of l b)).0 in
          let q = (resolve_arm i l b (last_of l b)).1 in
          (same : Bool)
          → (b == arm) ≡ same
          → (is_in arm arms ≡ true
              → lookup arm (resolve_arms i u arms).1 ≡ some (i.cap (last_of u arm) (last_of u arm)))
          → (if same
              then some (i.cap (or_else q (last_of l b)) (last_of l b))
              else lookup arm (resolve_arms i u arms).1)
            ≡ some (i.cap (last_of l arm) (last_of l arm)))
    go true e later =
        let b_is = ==-eq b arm e in
        let none_given =
          resolve-stopped i l b (last_of l b) (ap (λ k. is_stopped (core l) k) b_is ∙ h) in
        ap (λ o. some (i.cap (or_else o (last_of l b)) (last_of l b))) none_given
        ∙ ap (λ k. some (i.cap (last_of l k) (last_of l k))) b_is
    go false e later =
        later (other_arm b arm arms e member)
        ∙ ap
            (λ (c : Core).
              some
                (i.cap (or_else (lookup arm c.last_cmd) []) (or_else (lookup arm c.last_cmd) [])))
            (resolve_arm-core i l b (last_of l b))

module _ (slots : LatestSlot) (travel hold : ℕ) where
  -- In any tick, an arm of the session that is faulted or recovering once the tick's driver events
  -- are taken in is given to the gate with its last command, capped, whatever plan, replay, jog
  -- target or key there is for it.
  pub run_tick-holds :
      (l : ControlLoop) (i : Tick) (arm : ℕ)
      → is_in arm (before_sources slots travel hold l i).session_arms ≡ true
      → is_stopped (core (before_sources slots travel hold l i)) arm ≡ true
      → lookup arm (commands slots travel hold l i)
        ≡ some (
            i.cap
              (last_of (before_sources slots travel hold l i) arm)
              (last_of (before_sources slots travel hold l i) arm))
  run_tick-holds l i arm member stopped =
      unfold commands in
      let ready = before_sources slots travel hold l i in
      resolve_arms-holds i arm ready.session_arms ready member stopped

  change-puts :
      (ps : List (ℕ × Posture)) (c d : Core) → IsChange slots c d → c.puts ≡ ps → d.puts ≡ ps
  change-puts ps c d (inl e) h = ap (λ x. x.puts) e ∙ h
  change-puts ps c d (inr (inl (arm, text, e))) h = ap (λ x. x.puts) e ∙ h
  change-puts ps c d (inr (inr (arm, last, e))) h = ap (λ x. x.puts) e ∙ h

  -- Any tick only adds to what was put into the slots of the arms, and adds nothing for an arm that
  -- is faulted when the tick ends.
  pub run_tick-puts :
      (l : ControlLoop) (i : Tick)
      → (let u = run_tick slots travel hold l i in
          (new : List (ℕ × Posture)) × (u.puts ≡ l.puts ++ new)
          × All (λ p. is_in p.0 u.faulted ≡ false) new)
  run_tick-puts l i =
      let (new, last, e, free) = run_tick-Dispatched slots travel hold l i in
      (
        new,
        ap (λ c. c.puts) e
            ∙ ap (λ ps. ps ++ new)
                (before-keep slots travel hold (λ c. c.puts ≡ l.puts) (change-puts l.puts) i
                  (λ dead c h. h) l refl),
        subst (λ c. All (λ p. is_in p.0 c.faulted ≡ false) new) (sym e) free,
      )
