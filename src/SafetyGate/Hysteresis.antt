-- ===== src/SafetyGate/Hysteresis.antt =====
-- How the gate leaves a block.
use apollo_mavis_v2_runtime.Prelude.Dicts.{insert, keys}
use apollo_mavis_v2_runtime.Prelude.{
  ℕ, ◌+◌, ◌≡◌, ◌≢◌, refl, Bool, true, false, List, [], ◌∷◌, Option, none, some, All, if◌then◌else◌,
  or_else, ℤ, pos, leb_int, arith, subst,
}
use apollo_mavis_v2_runtime.SafetyGate.{
  GateDecision, GateTwin, SafetyGate, all_violations, block, decide_on, fail_closed, filter,
  filter_from, join_arms, let_through, threshold, violations, with_band, collect, held_or_measured,
  stale_twin, per_arm, escapes, is_offending, block_events, cleared,
}

insert-nonempty : (p : ℕ) (d : ℤ) (v : List (ℕ × ℤ)) → insert p d v ≢ []
insert-nonempty p d [] = λ e. ground (arith, e)
insert-nonempty p d ((q, f) ∷ v) = λ e. ground (arith, e)

violations-empty : (viols vs : List (ℕ × ℤ)) → violations viols vs ≡ [] → (viols ≡ []) × (vs ≡ [])
violations-empty viols [] e = (e, refl)
violations-empty viols ((p, d) ∷ vs) e =
    absurd (insert-nonempty p d viols (violations-empty (insert p d viols) vs e).0)

-- The pair is clear of the hysteresis band under the command.
abbrev pub IsClear : GateTwin → List (ℕ × ℕ) → ℕ → ℕ → Type 0
IsClear twin q_cmd thr p =
    leb_int (pos thr) (twin.pair_distance p (some q_cmd) (thr + 10_000)) ≡ true

with_band-empty :
    (twin : GateTwin) (q_cmd : List (ℕ × ℕ)) (thr : ℕ) (ps : List ℕ) (viols : List (ℕ × ℤ))
    → with_band twin q_cmd thr ps viols ≡ []
    → (viols ≡ []) × All (IsClear twin q_cmd thr) ps
unfolding with_band
with_band-empty twin q_cmd thr [] viols e = (e, tt)
with_band-empty twin q_cmd thr (p ∷ ps) viols e =
    let d = twin.pair_distance p (some q_cmd) (thr + 10_000) in
    ground (
      arith,
      e,
      with_band-empty twin q_cmd thr ps viols,
      with_band-empty twin q_cmd thr ps (insert p d viols),
      insert-nonempty p d viols,
    )

-- What a decision after a blocked one shows, if it blocks no more.
abbrev Unblocks :
    SafetyGate → GateTwin → List (ℕ × ℕ) → Bool → Option (SafetyGate × GateDecision) → Type 0
Unblocks g twin q_cmd stale none = Unit
Unblocks g twin q_cmd stale (some (g', dec)) =
    dec.is_blocked ≡ false
    → (stale ≡ false)
      × (twin.check q_cmd ≡ [])
      × All (IsClear twin q_cmd (threshold g twin)) g.block_pairs
      × (dec.q_out ≡ q_cmd)
      × (dec.events ≡ cleared ∷ [])

module _ (g : SafetyGate) (twin : GateTwin) (q_cmd q_meas : List (ℕ × ℕ))
    (blocked : g.blocked ≡ true) where
  closed-Unblocks :
      (safe : List (ℕ × ℕ)) → Unblocks g twin q_cmd true (fail_closed g q_cmd q_meas safe)
  unfolding fail_closed
  closed-Unblocks safe = go (collect (held_or_measured q_meas safe) (keys q_cmd))
    where
      go :
          (r : Option (List (ℕ × ℕ)))
          → Unblocks g twin q_cmd true (elim r [
            | none ↦ none
            | some q_out ↦ some (
              record g { last_safe = some safe; blocked = true; block_pairs = [] },
              record {
                q_out = q_out;
                is_blocked = true;
                events = if g.blocked then [] else stale_twin (keys q_cmd) ∷ [];
              },
            )
          ])
      go none = tt
      go (some q_out) = λ e. ground (arith, e)

  block-Unblocks :
      (safe : List (ℕ × ℕ)) (pairs : List ℕ)
      → Unblocks g twin q_cmd false (block g twin q_cmd safe pairs)
  unfolding block
  block-Unblocks safe pairs =
      go (per_arm (escapes g twin q_cmd pairs) (is_offending twin pairs) safe q_cmd)
    where
      go :
          (r : Option (List (ℕ × ℕ) × List (ℕ × ℕ)))
          → Unblocks g twin q_cmd false (elim r [
            | none ↦ none
            | some (q_out, safe') ↦ some (
              record g { last_safe = some safe'; blocked = true; block_pairs = pairs },
              record { q_out = q_out; is_blocked = true; events = block_events g twin q_cmd pairs },
            )
          ])
      go none = tt
      go (some (q_out, safe')) = λ e. ground (arith, e)

  clear_lem :
      all_violations g twin q_cmd ≡ []
      → (twin.check q_cmd ≡ []) × All (IsClear twin q_cmd (threshold g twin)) g.block_pairs
  unfolding all_violations
  clear_lem e =
      let band : with_band twin q_cmd (threshold g twin) g.block_pairs
            (violations [] (twin.check q_cmd))
          ≡ [] =
        ground (arith, e, blocked) in
      let empty =
        with_band-empty twin q_cmd (threshold g twin) g.block_pairs
          (violations [] (twin.check q_cmd)) band in
      ((violations-empty [] (twin.check q_cmd) empty.0).1, empty.1)

  decide_on-Unblocks :
      (safe : List (ℕ × ℕ)) (viols : List (ℕ × ℤ))
      → all_violations g twin q_cmd ≡ viols
      → Unblocks g twin q_cmd false (decide_on g twin q_cmd safe viols)
  unfolding let_through
  decide_on-Unblocks safe [] e =
      let shown : (if g.blocked then cleared ∷ [] else []) ≡ cleared ∷ [] = rw blocked in
      λ free. (refl, (clear_lem e).0, (clear_lem e).1, refl, shown)
  decide_on-Unblocks safe (v ∷ vs) e = block-Unblocks safe (keys (v ∷ vs))

  filter-Unblocks : (stale : Bool) → Unblocks g twin q_cmd stale (filter g twin q_cmd q_meas stale)
  unfolding filter
  filter-Unblocks stale = go stale (join_arms q_meas (or_else g.last_safe q_meas) (keys q_cmd))
    where
      go :
          (stale : Bool) (r : Option (List (ℕ × ℕ)))
          → Unblocks g twin q_cmd stale
              (elim r [ none ↦ none | some safe ↦ filter_from g twin q_cmd q_meas stale safe ])
      go stale none = tt
      go true (some safe) = closed-Unblocks safe
      go false (some safe) = decide_on-Unblocks safe (all_violations g twin q_cmd) refl

-- The gate leaves a block only on a fresh twin that finds no violation in the command, and only when
-- every pair that was blocked is at least the unblocking threshold apart under it; the whole
-- command then goes out, with one event that says so.
pub filter-cleared :
    (g : SafetyGate) (twin : GateTwin) (q_cmd q_meas : List (ℕ × ℕ)) (stale : Bool)
    (g' : SafetyGate) (dec : GateDecision)
    → g.blocked ≡ true
    → filter g twin q_cmd q_meas stale ≡ some (g', dec)
    → dec.is_blocked ≡ false
    → (stale ≡ false)
      × (twin.check q_cmd ≡ [])
      × All (IsClear twin q_cmd (threshold g twin)) g.block_pairs
      × (dec.q_out ≡ q_cmd)
      × (dec.events ≡ cleared ∷ [])
filter-cleared g twin q_cmd q_meas stale g' dec blocked e free =
    subst (λ r. Unblocks g twin q_cmd stale r) e (filter-Unblocks g twin q_cmd q_meas blocked stale)
      free
