-- ===== src/Takeover/Tests.antt =====
-- Two arms, 1 and 2, through a takeover, and the theorems there.
use apollo_mavis_v2_runtime.Prelude.{◌≡◌, refl, List, [], ◌∷◌, none, some}
use apollo_mavis_v2_runtime.Takeover.{
  policy, human, keyboard, Gate, Call, toggles, ticks, engaged_arm, frozen_arms, on_toggle, tick,
  start, init, run, step,
}
use apollo_mavis_v2_runtime.Takeover.Exclusive.{IsExclusive, IsCovering, run-IsExclusive}
use apollo_mavis_v2_runtime.Takeover.Log.{IsLogged, run-IsLogged}
use apollo_mavis_v2_runtime.Takeover.Blend.{IsEarned, run-IsEarned}

abbrev cell : Gate
cell = start (1 ∷ 2 ∷ []) 300

init-cell : init (1 ∷ 2 ∷ []) 300 ≡ some cell
unfolding init
init-cell = refl

init_refused : init (1 ∷ []) 600 ≡ none
unfolding init
init_refused = refl

abbrev taken : List Call
taken = toggles 1 1000 keyboard ∷ toggles 2 1100 keyboard ∷ ticks 1299 ∷ ticks 1300 ∷ []

run-taken : (run cell taken).modes ≡ (1, human) ∷ (2, policy) ∷ []
unfolding run step on_toggle tick start
run-taken = refl

frozen_arms-taken : frozen_arms (run cell taken) ≡ 2 ∷ []
unfolding run step on_toggle tick start frozen_arms
frozen_arms-taken = refl

run-IsExclusive_example : IsExclusive (run cell taken) × IsCovering (1 ∷ 2 ∷ []) (run cell taken)
run-IsExclusive_example = run-IsExclusive (1 ∷ 2 ∷ []) 300 taken init-cell

run-IsLogged_example : IsLogged (run cell taken)
run-IsLogged_example = run-IsLogged (1 ∷ 2 ∷ []) 300 taken init-cell

run-IsEarned_example : IsEarned 300 [] (run cell taken).events
run-IsEarned_example = run-IsEarned (1 ∷ 2 ∷ []) 300 taken init-cell

engaged_arm-taken : engaged_arm (run cell taken) ≡ some 1
unfolding run step on_toggle tick start engaged_arm
engaged_arm-taken = refl
