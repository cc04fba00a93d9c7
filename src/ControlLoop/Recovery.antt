-- ===== src/ControlLoop/Recovery.antt =====
-- Which arms are stopped, from the report of a fault to the release of the inputs.
use apollo_mavis_v2_runtime.ArmSender.{LatestSlot, pause, resume}
use apollo_mavis_v2_runtime.ControlLoop.Faults.{
  DriverEvent, fault_event, recovered_event, studio_warning, other_event, on_sender, drop_plan,
  stop_motion, is_active, release_tracker, on_fault_event, back, reseed_once, on_recovered_event,
  on_event, on_events,
}
use apollo_mavis_v2_runtime.ControlLoop.Frames.{Core, core, cancel_plans-core}
use apollo_mavis_v2_runtime.ControlLoop.Plans.{motion_active, set_plan_status, has_entries}
use apollo_mavis_v2_runtime.ControlLoop.State.{
  Posture, ControlLoop, driver_fault, is_in, add, discard,
}
use apollo_mavis_v2_runtime.Prelude.Dicts.{lookup, insert, remove}
use apollo_mavis_v2_runtime.Prelude.{
  ℕ, ◌≡◌, refl, ap, ◌∙◌, ◌⊎◌, inl, inr, not, ◌&&◌, ◌||◌, List, [], ◌∷◌, Option, none, some, ◌==◌,
  is_some, arith, if-either,
}

pub is_in-add : (a b : ℕ) (s : List ℕ) → is_in b (add a s) ≡ (b == a || is_in b s)
is_in-add a b s = ground (arith, is_in-same)
  where
    is_in-same : b ≡ a → is_in b s ≡ is_in a s
    is_in-same e = ap (λ k. is_in k s) e

pub is_in-discard : (a b : ℕ) (s : List ℕ) → is_in b (discard a s) ≡ (not (b == a) && is_in b s)
is_in-discard a b [] = ground arith
is_in-discard a b (c ∷ s) = ground (arith, is_in-discard a b s)

-- The effect of a fault, and of a re-seed.
abbrev pub faults : LatestSlot → Core → ℕ → ℕ → Core
faults slots c arm text = record c {
  faulted = add arm c.faulted;
  recovering = discard arm c.recovering;
  senders = on_sender (pause slots) arm c.senders;
  texts = insert arm text c.texts;
}

abbrev pub recovers : Core → ℕ → List (ℕ × Posture) → Core
recovers c arm last_cmd = record c {
  last_cmd = last_cmd;
  faulted = discard arm c.faulted;
  recovering = add arm c.recovering;
  senders = on_sender resume arm c.senders;
}

drop_plan-core : (l : ControlLoop) (arm : ℕ) → core (drop_plan l arm) ≡ core l
unfolding set_plan_status
drop_plan-core l arm =
    if-either (λ u. core u ≡ core l) (has_entries (remove arm l.plans)) _ _ refl refl

stop_motion-core : (l : ControlLoop) (arm : ℕ) → core (stop_motion l arm) ≡ core l
unfolding stop_motion
stop_motion-core l arm =
    if-either (λ u. core u ≡ core l) (l.plan_interruptible && motion_active l) _ _
      (cancel_plans-core l driver_fault)
      (if-either (λ u. core u ≡ core l)
        (is_some (lookup arm l.plans) || is_some (lookup arm l.plan_state)) (drop_plan l arm) l
        (drop_plan-core l arm) refl)

release_tracker-core : (l : ControlLoop) (arm : ℕ) → core (release_tracker l arm) ≡ core l
release_tracker-core l arm =
    if-either (λ u. core u ≡ core l) (l.has_tracker && is_active l.active_arm arm) _ l refl refl

module _ (slots : LatestSlot) where
  on_fault_event-core :
      (l : ControlLoop) (arm text : ℕ)
      → core (on_fault_event slots l arm text) ≡ faults slots (core l) arm text
  unfolding on_fault_event
  on_fault_event-core l arm text = release_tracker-core _ arm ∙ stop_motion-core _ arm

  -- One event stops an arm, or lets one that was re-seeded recover, or changes none.
  abbrev pub IsChange : Core → Core → Type 0
  IsChange c d =
      (d ≡ c)
      ⊎ (((arm : ℕ) × (text : ℕ) × (d ≡ faults slots c arm text))
          ⊎ ((arm : ℕ) × (last_cmd : List (ℕ × Posture)) × (d ≡ recovers c arm last_cmd)))

  reseed_once-IsChange :
      (l : ControlLoop) (arm : ℕ) (o : Option (Posture × ℕ)) (reseeded : List ℕ)
      → IsChange (core l) (core (reseed_once slots l arm o reseeded).0)
  reseed_once-IsChange l arm none reseeded = inl refl
  reseed_once-IsChange l arm (some q) reseeded = inr (inr (arm, _, refl))

  on_event-IsChange :
      (l : ControlLoop) (now : ℕ) (ev : DriverEvent) (reseeded : List ℕ)
      → IsChange (core l) (core (on_event slots l now ev reseeded).0)
  unfolding on_event on_recovered_event
  on_event-IsChange l now (fault_event arm text) reseeded =
      if-either (λ u. IsChange (core l) (core u)) (is_in arm l.session_arms) _ l
        (inr (inl (arm, text, on_fault_event-core l arm text))) (inl refl)
  on_event-IsChange l now (recovered_event arm measured) reseeded =
      if-either {A = ControlLoop × List ℕ} (λ r. IsChange (core l) (core r.0))
        (is_in arm l.session_arms) _ (l, reseeded)
        (if-either {A = ControlLoop × List ℕ} (λ r. IsChange (core l) (core r.0))
          (is_in arm reseeded) (back slots l arm, reseeded) _ (inr (inr (arm, _, refl)))
          (reseed_once-IsChange l arm measured reseeded))
        (inl refl)
  on_event-IsChange l now (studio_warning arm text) reseeded =
      if-either (λ u. IsChange (core l) (core u)) (is_in arm l.session_arms) _ l (inl refl)
        (inl refl)
  on_event-IsChange l now other_event reseeded = inl refl

  -- What every event keeps, a list of events keeps.
  pub on_events-keep :
      (P : Core → Type 0)
      → ((c d : Core) → IsChange c d → P c → P d)
      → (evs : List DriverEvent) (l : ControlLoop) (now : ℕ) (reseeded : List ℕ) → P (core l)
      → P (core (on_events slots l now evs reseeded))
  unfolding on_events
  on_events-keep P keep [] l now reseeded p = p
  on_events-keep P keep (ev ∷ evs) l now reseeded p =
      let r = on_event slots l now ev reseeded in
      on_events-keep P keep evs r.0 now r.1
        (keep (core l) (core r.0) (on_event-IsChange l now ev reseeded) p)
