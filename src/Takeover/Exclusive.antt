-- ===== src/Takeover/Exclusive.antt =====
-- At most one arm is taken over at a time.
use apollo_mavis_v2_runtime.Prelude.Dicts.{lookup, insert, keys, lookup-insert}
use apollo_mavis_v2_runtime.Prelude.{
  ℕ, suc, ◌+◌, ◌≤◌, ◌≡◌, ◌≢◌, ◌∙◌, refl, Bool, true, false, ◌||◌, ◌==◌, is_some, List, [], ◌∷◌,
  Option, none, some, arith, if◌then◌else◌,
}
use apollo_mavis_v2_runtime.Takeover.Rules.{Keeps, run-Keeps, init_ind, reset_arms_ind}
use apollo_mavis_v2_runtime.Takeover.{
  ControlMode, policy, takeover_transition, human, Source, Gate, Call, is_policy, is_engaged,
  first_engaged, engaged_arm, on_toggle, tick_arm, reset_arm, reset, fromkeys, start, init, run,
}

-- How many arms the operator holds.
abbrev pub engaged_count : List (ℕ × ControlMode) → ℕ
engaged_count [] = 0
engaged_count ((a, m) ∷ d) = if is_policy m then engaged_count d else suc (engaged_count d)

abbrev weight : Option ControlMode → ℕ
weight none = 0
weight (some m) = if is_policy m then 0 else 1

engaged_count-insert :
    (a : ℕ) (m : ControlMode) (d : List (ℕ × ControlMode))
    → engaged_count (insert a m d) + weight (lookup a d) ≡ engaged_count d + weight (some m)
engaged_count-insert a m [] = ground arith
engaged_count-insert a m ((b, n) ∷ d) = ground (arith, engaged_count-insert a m d)

-- Every arm has one entry.
abbrev pub IsUnique {ℓ} : {V : Type ℓ} → List (ℕ × V) → Type ℓ
IsUnique [] = Unit
IsUnique ((a, m) ∷ d) = (lookup a d ≡ none) × IsUnique d

insert-IsUnique {ℓ} :
    {V : Type ℓ} (a : ℕ) (m : V) (d : List (ℕ × V)) → IsUnique d → IsUnique (insert a m d)
insert-IsUnique a m [] u = (refl, tt)
insert-IsUnique a m ((b, n) ∷ d) u =
    ground (arith, insert-IsUnique a m d u.1, lookup-insert a b m d)

first_engaged-lookup :
    (d : List (ℕ × ControlMode)) (e : ℕ)
    → IsUnique d
    → first_engaged d ≡ some e
    → is_engaged (lookup e d) ≡ true
first_engaged-lookup [] e u h = cc
first_engaged-lookup ((b, n) ∷ d) e u h = ground (arith, first_engaged-lookup d e u.1)

first_engaged-none : (d : List (ℕ × ControlMode)) → first_engaged d ≡ none → engaged_count d ≡ 0
first_engaged-none [] h = refl
first_engaged-none ((b, n) ∷ d) h = ground (arith, first_engaged-none d)

pub record IsExclusive (g : Gate) : Type 0 where
  pub alone : engaged_count g.modes ≤ 1
  pub unique : IsUnique g.modes

on_toggle-IsExclusive :
    (g : Gate) (arm t : ℕ) (source : Source)
    → IsExclusive g
    → IsExclusive (on_toggle g arm t source).0
unfolding on_toggle
on_toggle-IsExclusive g arm t source v = ground (
  arith,
  engaged_count-insert arm takeover_transition g.modes,
  engaged_count-insert arm policy g.modes,
  insert-IsUnique arm takeover_transition g.modes,
  insert-IsUnique arm policy g.modes,
  first_engaged-lookup g.modes arm,
  first_engaged-none g.modes,
)

tick_arm-IsExclusive : (g : Gate) (arm t : ℕ) → IsExclusive g → IsExclusive (tick_arm g arm t).0
unfolding tick_arm
tick_arm-IsExclusive g arm t v =
    ground (arith, engaged_count-insert arm human g.modes, insert-IsUnique arm human g.modes)

reset_arm-IsExclusive : (g : Gate) (arm : ℕ) → IsExclusive g → IsExclusive (reset_arm g arm).0
unfolding reset_arm
reset_arm-IsExclusive g arm v =
    ground (arith, engaged_count-insert arm policy g.modes, insert-IsUnique arm policy g.modes)

reset-IsExclusive : (g : Gate) → IsExclusive g → IsExclusive (reset g).0
unfolding reset
reset-IsExclusive g v =
    let w = reset_arms_ind IsExclusive reset_arm-IsExclusive g (keys g.modes) v in
    record { alone = w.alone; unique = w.unique }

Keeps-IsExclusive : Keeps IsExclusive
Keeps-IsExclusive = record {
  toggled = on_toggle-IsExclusive;
  ticked = tick_arm-IsExclusive;
  returned = reset-IsExclusive;
}

fromkeys-policy :
    (arms : List ℕ) (d : List (ℕ × ControlMode))
    → engaged_count d ≡ 0
    → IsUnique d
    → (engaged_count (fromkeys arms policy d) ≡ 0) × IsUnique (fromkeys arms policy d)
unfolding fromkeys
fromkeys-policy [] d z u = (z, u)
fromkeys-policy (a ∷ arms) d z u =
    fromkeys-policy arms (insert a policy d) (omega (arith, engaged_count-insert a policy d))
      (insert-IsUnique a policy d u)

start-IsExclusive : (arms : List ℕ) (blend : ℕ) → IsExclusive (start arms blend)
unfolding start
start-IsExclusive arms blend =
    let (none_out, once) = fromkeys-policy arms [] refl tt in
    record { alone = omega (arith, none_out); unique = once }

abbrev pub is_listed : ℕ → List ℕ → Bool
is_listed a [] = false
is_listed a (b ∷ arms) = b == a || is_listed a arms

-- Exactly the arms of the list have a mode.
abbrev pub IsCovering : List ℕ → Gate → Type 0
IsCovering arms g = (a : ℕ) → is_some (lookup a g.modes) ≡ is_listed a arms

on_toggle-IsCovering :
    (arms : List ℕ) (g : Gate) (arm t : ℕ) (source : Source)
    → IsCovering arms g
    → IsCovering arms (on_toggle g arm t source).0
unfolding on_toggle
on_toggle-IsCovering arms g arm t source v a = ground (
  arith,
  v a,
  lookup-insert arm a takeover_transition g.modes,
  lookup-insert arm a policy g.modes,
)

tick_arm-IsCovering :
    (arms : List ℕ) (g : Gate) (arm t : ℕ)
    → IsCovering arms g
    → IsCovering arms (tick_arm g arm t).0
unfolding tick_arm
tick_arm-IsCovering arms g arm t v a = ground (arith, v a, lookup-insert arm a human g.modes)

reset_arm-IsCovering :
    (arms : List ℕ) (g : Gate) (arm : ℕ) → IsCovering arms g → IsCovering arms (reset_arm g arm).0
unfolding reset_arm
reset_arm-IsCovering arms g arm v a = ground (arith, v a, lookup-insert arm a policy g.modes)

Keeps-IsCovering : (arms : List ℕ) → Keeps (IsCovering arms)
Keeps-IsCovering arms = record {
  toggled = on_toggle-IsCovering arms;
  ticked = tick_arm-IsCovering arms;
  returned = λ g v.
      unfold reset in
      reset_arms_ind (IsCovering arms) (reset_arm-IsCovering arms) g (keys g.modes) v;
}

fromkeys-is_some :
    (arms : List ℕ) (d : List (ℕ × ControlMode)) (a : ℕ)
    → is_some (lookup a (fromkeys arms policy d)) ≡ (is_some (lookup a d) || is_listed a arms)
unfolding fromkeys
fromkeys-is_some [] d a = ground arith
fromkeys-is_some (b ∷ arms) d a =
    fromkeys-is_some arms (insert b policy d) a ∙ ground (arith, lookup-insert b a policy d)

start-IsCovering : (arms : List ℕ) (blend : ℕ) → IsCovering arms (start arms blend)
unfolding start
start-IsCovering arms blend a = fromkeys-is_some arms [] a

-- Through any toggles, ticks and resets from the start, at most one arm is out of the policy's
-- hands, every arm of the gate has one mode, and no other arm has any.
pub run-IsExclusive :
    (arms : List ℕ) (blend : ℕ) {g : Gate} (cs : List Call)
    → init arms blend ≡ some g
    → IsExclusive (run g cs) × IsCovering arms (run g cs)
run-IsExclusive arms blend {g} cs e = (
  run-Keeps IsExclusive Keeps-IsExclusive g cs
      (init_ind IsExclusive arms blend (start-IsExclusive arms blend) e),
  run-Keeps (IsCovering arms) (Keeps-IsCovering arms) g cs
      (init_ind (IsCovering arms) arms blend (start-IsCovering arms blend) e),
)

-- While an arm is taken over, a toggle of any other arm is refused and changes nothing.
pub on_toggle-frozen :
    (g : Gate) (e arm t : ℕ) (source : Source)
    → engaged_arm g ≡ some e
    → arm ≢ e
    → on_toggle g arm t source ≡ (g, none)
unfolding on_toggle
on_toggle-frozen g e arm t source h n = ground arith
