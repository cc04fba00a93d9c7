-- ===== src/ControlLoop/Stopped.antt =====
-- Ticks with stopped arms.
use mathlib.Core.Bool.{false≢true}
use apollo_mavis_v2_runtime.ArmSender.{LatestSlot}
use apollo_mavis_v2_runtime.ControlLoop.Consistent.{
  IsConsistent, change-IsConsistent, release-IsConsistent,
}
use apollo_mavis_v2_runtime.ControlLoop.Faults.{
  forget_texts, drain_driver_events, update_recovering, publish_fault_state, same_state,
  fault_state, is_live,
}
use apollo_mavis_v2_runtime.ControlLoop.Frames.{
  Core, core, cancel_for_input-core, confirm_all-core, plan_gate_watch-core, finish_replay-core,
  expire_plan_status-core, resolve_arms-core,
}
use apollo_mavis_v2_runtime.ControlLoop.Plans.{Decision, motion_active, confirm_plan_arrivals}
use apollo_mavis_v2_runtime.ControlLoop.Recovery.{
  IsChange, on_events-keep, is_in-add, is_in-discard,
}
use apollo_mavis_v2_runtime.ControlLoop.State.{Posture, ControlLoop, HeldSources, is_in}
use apollo_mavis_v2_runtime.ControlLoop.Tick.{
  Tick, resolve_arms, dispatch, fault_step, counted, before_sources, after_gate, watched, replayed,
  finish_replay, commands, run_tick, run,
}
use apollo_mavis_v2_runtime.Prelude.Dicts.{insert}
use apollo_mavis_v2_runtime.Prelude.{
  ℕ, ◌≡◌, refl, sym, ap, ◌∙◌, subst, inl, inr, Bool, true, false, ◌&&◌, ◌||◌, List, [], ◌∷◌, ◌++◌,
  append-nil, append_assoc, if◌then◌else◌, is_some, All, all, and-true, arith, if-either,
}

abbrev release : Core → Core
release c = record c { recovering = []; texts = forget_texts c.recovering c.texts }

-- The arm gets no new command from a source.
abbrev pub is_stopped : Core → ℕ → Bool
is_stopped c arm = is_in arm c.faulted || is_in arm c.recovering

abbrev pub with_puts : List (ℕ × Posture) → List (ℕ × Posture) → Core → Core
with_puts new last c = record c { puts = c.puts ++ new; last_cmd = last }

-- Something was put, and for no faulted arm.
abbrev pub Dispatched : ControlLoop → ControlLoop → Type 0
Dispatched u d =
    (new last : List (ℕ × Posture)) × (core d
      ≡ record (core u) { puts = u.puts ++ new; last_cmd = last })
    × All (λ p. is_in p.0 u.faulted ≡ false) new

dispatch-core :
    (cmds : List (ℕ × Posture)) (l : ControlLoop)
    → (new last : List (ℕ × Posture)) × (core (dispatch l cmds)
        ≡ record (core l) { puts = l.puts ++ new; last_cmd = last })
      × All (λ p. is_in p.0 l.faulted ≡ false) new
unfolding dispatch
dispatch-core [] l =
    ([], l.last_cmd, ap (λ ps. record (core l) { puts = ps }) (sym (append-nil l.puts)), tt)
dispatch-core ((arm, q) ∷ rest) l =
    let u = record l { last_cmd = insert arm q l.last_cmd } in
    let v = record u { puts = u.puts ++ (arm, q) ∷ [] } in
    go (is_in arm l.faulted) refl (dispatch-core rest u) (dispatch-core rest v)
  where
    go :
        (let u = record l { last_cmd = insert arm q l.last_cmd } in
          let v = record u { puts = u.puts ++ (arm, q) ∷ [] } in
          (b : Bool)
          → is_in arm l.faulted ≡ b
          → Dispatched u (dispatch u rest)
          → Dispatched v (dispatch v rest)
          → Dispatched l (dispatch (if b then u else v) rest))
    go true h skip put = skip
    go false h skip (new, last, e, free) = (
      (arm, q) ∷ new,
      last,
      e
          ∙ ap (λ ps. record (core l) { puts = ps; last_cmd = last })
              (append_assoc l.puts ((arm, q) ∷ []) new),
      (h, free),
    )

counted-core : (l : ControlLoop) (i : Tick) → core (counted l i) ≡ core l
unfolding counted
counted-core l i = if-either (λ u. core u ≡ core l) i.watchdog_latched _ _ refl refl

publish-core : (l : ControlLoop) → core (publish_fault_state l) ≡ core l
unfolding publish_fault_state
publish-core l =
    if-either (λ u. core u ≡ core l) (same_state (fault_state l) l.fault_state_reported) l _ refl
      refl

update-keep :
    (P : Core → Type 0) (s : HeldSources)
    → (is_live s ≡ false → (c : Core) → P c → P (release c))
    → (l : ControlLoop) → P (core l)
    → P (core (update_recovering l s))
unfolding update_recovering
update-keep P s releases l p = go (is_live s) refl
  where
    go :
        (b : Bool)
        → is_live s ≡ b
        → P (
            core (
              if b then l else record l {
                recovering_arms = [];
                fault_text = forget_texts l.recovering_arms l.fault_text;
              }))
    go true h = p
    go false h = releases h (core l) p

module _ (slots : LatestSlot) (travel hold : ℕ) where
  -- What driver events keep, and the release where no input is live, a tick keeps up to its gate.
  pub before-keep :
      (P : Core → Type 0)
      → ((c d : Core) → IsChange slots c d → P c → P d)
      → (i : Tick) → (is_live i.sources ≡ false → (c : Core) → P c → P (release c))
      → (l : ControlLoop) → P (core l)
      → P (core (before_sources slots travel hold l i))
  unfolding fault_step before_sources
  before-keep P keep i releases l p =
      subst P
        (sym (
          cancel_for_input-core i (fault_step slots travel hold (counted l i) i)
          ∙ publish-core (
              drain_driver_events slots (update_recovering (counted l i) i.sources) i.now
                i.events)))
        (on_events-keep slots P keep i.events (update_recovering (counted l i) i.sources) i.now []
          (update-keep P i.sources (releases) (counted l i) (subst P (sym (counted-core l i)) p)))

  after_gate-Dispatched :
      (l : ControlLoop) (i : Tick) (dec : Decision)
      → Dispatched l (after_gate slots travel hold l i dec)
  unfolding after_gate
  after_gate-Dispatched l i dec =
      let confirmed = confirm_plan_arrivals travel l dec in
      let watched_l = watched slots travel hold confirmed i dec in
      let ready = replayed slots travel hold watched_l i in
      let same =
        replayed-core watched_l i
        ∙ watched-core confirmed i dec
        ∙ confirm_all-core travel l dec l.plan_arriving in
      let (new, last, e, free) = dispatch-core dec.q_out ready in
      (
        new,
        last,
        expire_plan_status-core (dispatch ready dec.q_out) ∙ e ∙ ap (with_puts new last) same,
        subst (λ c. All (λ p. is_in p.0 c.faulted ≡ false) new) same free,
      )
    where
      watched-core :
          (l : ControlLoop) (i : Tick) (dec : Decision)
          → core (watched slots travel hold l i dec) ≡ core l
      watched-core l i dec =
          if-either (λ u. core u ≡ core l) (motion_active l) _ l
            (plan_gate_watch-core hold l dec i.now) refl

      replayed-core : (l : ControlLoop) (i : Tick) → core (replayed slots travel hold l i) ≡ core l
      replayed-core l i =
          if-either (λ u. core u ≡ core l) (is_some l.replay && i.replay_over) (finish_replay l) l
            (finish_replay-core l) refl

  -- What a tick does after its inputs and events.
  pub run_tick-Dispatched :
      (l : ControlLoop) (i : Tick)
      → Dispatched (before_sources slots travel hold l i) (run_tick slots travel hold l i)
  unfolding run_tick
  run_tick-Dispatched l i =
      let ready = before_sources slots travel hold l i in
      let moved = (resolve_arms i ready ready.session_arms).0 in
      let same = resolve_arms-core i ready.session_arms ready in
      let (new, last, e, free) =
        after_gate-Dispatched moved i (i.gate (commands slots travel hold l i)) in
      (
        new,
        last,
        e ∙ ap (with_puts new last) same,
        subst (λ c. All (λ p. is_in p.0 c.faulted ≡ false) new) same free,
      )

  tick-keep :
      (P : Core → Type 0)
      → ((c d : Core) → IsChange slots c d → P c → P d)
      → ((c : Core) (puts last : List (ℕ × Posture))
          → P c
          → P (record c { puts = puts; last_cmd = last }))
      → (i : Tick) → (is_live i.sources ≡ false → (c : Core) → P c → P (release c))
      → (l : ControlLoop) → P (core l)
      → P (core (run_tick slots travel hold l i))
  tick-keep P keep put i releases l p =
      let (new, last, e, free) = run_tick-Dispatched l i in
      subst P (sym e) (
        put (core (before_sources slots travel hold l i)) _ last
          (before-keep P keep i releases l p))

  -- Over any ticks, with whatever driver events and inputs: no arm is faulted and recovering at
  -- once, an arm's sender is paused exactly while the arm is faulted, and only a stopped arm has a
  -- fault text. This holds at the end where it holds at the start.
  pub run-IsConsistent :
      (l : ControlLoop) (is : List Tick)
      → IsConsistent (core l)
      → IsConsistent (core (run slots travel hold l is))
  unfolding run
  run-IsConsistent l [] h = h
  run-IsConsistent l (i ∷ is) h = run-IsConsistent (run_tick slots travel hold l i) is (
      tick-keep IsConsistent (change-IsConsistent slots) (λ c puts last k. k) i
        (λ dead c k. release-IsConsistent c k) l h)

  abbrev IsStopped : ℕ → Core → Type 0
  IsStopped arm c = is_stopped c arm ≡ true

  change-IsStopped : (arm : ℕ) (c d : Core) → IsChange slots c d → IsStopped arm c → IsStopped arm d
  change-IsStopped arm c d (inl e) h = subst (IsStopped arm) (sym e) h
  change-IsStopped arm c d (inr (inl (a, text, e))) h =
      subst (IsStopped arm) (sym e)
        (ground (arith, h, is_in-add a arm c.faulted, is_in-discard a arm c.recovering))
  change-IsStopped arm c d (inr (inr (a, last, e))) h =
      subst (IsStopped arm) (sym e)
        (ground (arith, h, is_in-discard a arm c.faulted, is_in-add a arm c.recovering))

  -- An arm that a fault stopped stays stopped over any ticks in each of which some held input is
  -- live, whatever the drivers report: also after its re-seed, until all inputs are released.
  pub run-stopped :
      (l : ControlLoop) (arm : ℕ) (is : List Tick)
      → is_stopped (core l) arm ≡ true
      → all (λ i. is_live i.sources) is ≡ true
      → is_stopped (core (run slots travel hold l is)) arm ≡ true
  unfolding run
  run-stopped l arm [] h live = h
  run-stopped l arm (i ∷ is) h live =
      let both = and-true (is_live i.sources) (all (λ i. is_live i.sources) is) live in
      run-stopped (run_tick slots travel hold l i) arm is
        (tick-keep (IsStopped arm) (change-IsStopped arm) (λ c puts last k. k) i
          (λ dead c k. absurd (false≢true (sym dead ∙ both.0))) l h)
        both.1
