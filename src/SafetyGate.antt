-- ===== src/SafetyGate.antt =====
-- safety/gate.py: the gate that lets a command through to the arms, lets an arm escape, or holds it
-- where it last was safe.
-- A joint vector is only copied and passed to the twin: a number. Lengths are in micrometres. The twin
-- is another package's: a record of the answers that it gives during one call. A missing key of a
-- dictionary is `none`, the source's KeyError. Pairs of bodies are numbers; a set of pairs is a list.
pub mod Decisions
pub mod Hysteresis
pub mod Total
mod Tests
use apollo_mavis_v2_runtime.Prelude.Dicts.{insert, keys, lookup}
use apollo_mavis_v2_runtime.Prelude.{
  ℕ, ◌+◌, Bool, true, false, not, ◌&&◌, ◌||◌, List, [], ◌∷◌, ◌++◌, Option, none, some, ◌==◌,
  if◌then◌else◌, all, any, or_else, is_some, ℤ, pos, leb_int, add_nat,
}

-- The twin's slice that the gate needs. `check` gives the violated pairs with their clearance;
-- `pair_distance p none` is the distance in the measured configuration.
pub record GateTwin : Type 0 where
  pub inflation_m : ℕ
  pub check : List (ℕ × ℕ) → List (ℕ × ℤ)
  pub pair_distance : ℕ → Option (List (ℕ × ℕ)) → ℕ → ℤ
  pub arms_of_pair : ℕ → List ℕ

pub record SafetyConfig : Type 0 where
  pub min_clearance_m : ℕ
  pub hysteresis_m : ℕ

pub record SafetyGate : Type 0 where
  pub cfg : SafetyConfig
  pub last_safe : Option (List (ℕ × ℕ))
  pub blocked : Bool
  pub block_pairs : List ℕ

pub data Event : Type 0 where
  stale_twin : (arms : List ℕ) → Event
  cleared : Event
  penetration blocked_event : (pairs : List ℕ) → (arms : List ℕ) → Event

pub record GateDecision : Type 0 where
  pub q_out : List (ℕ × ℕ)
  pub is_blocked : Bool
  pub events : List Event

abbrev pub escape_eps_m : ℕ
escape_eps_m = 10

unfoldable pub init : SafetyConfig → SafetyGate
init cfg = record { cfg = cfg; last_safe = none; blocked = false; block_pairs = [] }

-- `NullGate.filter`
unfoldable pub null_filter : List (ℕ × ℕ) → GateDecision
null_filter q_cmd = record { q_out = q_cmd; is_blocked = false; events = [] }

unfoldable pub reseed : SafetyGate → ℕ → ℕ → SafetyGate
reseed g arm q = record g { last_safe = some (insert arm q (or_else g.last_safe [])) }

abbrev pub is_in : ℕ → List ℕ → Bool
is_in p ps = any (λ r. r == p) ps

-- `{… for a in arms}`, with an exception where one of the values raises.
abbrev pub collect : (ℕ → Option ℕ) → List ℕ → Option (List (ℕ × ℕ))
collect f [] = some []
collect f (a ∷ arms) = elim (f a) [
  | none ↦ none
  | some q ↦ elim (collect f arms) [ none ↦ none | some qs ↦ some ((a, q) ∷ qs) ]
]

-- The arms of the command that have no safe configuration yet get the measured one.
unfoldable pub join_arms : List (ℕ × ℕ) → List (ℕ × ℕ) → List ℕ → Option (List (ℕ × ℕ))
join_arms meas safe [] = some safe
join_arms meas safe (a ∷ arms) =
    if is_some (lookup a safe)
    then join_arms meas safe arms
    else elim (lookup a meas) [ none ↦ none | some q ↦ join_arms meas (insert a q safe) arms ]

-- `self._last_safe.get(a, q_meas[a])`
abbrev pub held_or_measured : List (ℕ × ℕ) → List (ℕ × ℕ) → ℕ → Option ℕ
held_or_measured meas safe a = elim (lookup a meas) [
  | none ↦ none
  | some q ↦ some (or_else (lookup a safe) q)
]

unfoldable pub threshold : SafetyGate → GateTwin → ℕ
threshold g twin = twin.inflation_m + g.cfg.min_clearance_m + g.cfg.hysteresis_m

unfoldable pub fail_closed :
    SafetyGate → List (ℕ × ℕ) → List (ℕ × ℕ) → List (ℕ × ℕ) → Option (SafetyGate × GateDecision)
fail_closed g q_cmd q_meas safe = elim (collect (held_or_measured q_meas safe) (keys q_cmd)) [
  | none ↦ none
  | some q_out ↦ some (
    record g { last_safe = some safe; blocked = true; block_pairs = [] },
    record {
      q_out = q_out;
      is_blocked = true;
      events = if g.blocked then [] else stale_twin (keys q_cmd) ∷ [];
    },
  )
]

-- `viols[ev.pairs[0]] = ev.min_clearance_m`, in turn
abbrev pub violations : List (ℕ × ℤ) → List (ℕ × ℤ) → List (ℕ × ℤ)
violations viols [] = viols
violations viols ((p, d) ∷ vs) = violations (insert p d viols) vs

-- The blocked pairs that are still in the hysteresis band.
unfoldable pub with_band : GateTwin → List (ℕ × ℕ) → ℕ → List ℕ → List (ℕ × ℤ) → List (ℕ × ℤ)
with_band twin q_cmd thr [] viols = viols
with_band twin q_cmd thr (p ∷ ps) viols =
    let d = twin.pair_distance p (some q_cmd) (thr + 10_000) in
    if is_some (lookup p viols) || leb_int (pos thr) d
    then with_band twin q_cmd thr ps viols
    else with_band twin q_cmd thr ps (insert p d viols)

unfoldable pub all_violations : SafetyGate → GateTwin → List (ℕ × ℕ) → List (ℕ × ℤ)
unfolding with_band
all_violations g twin q_cmd =
    let viols = violations [] (twin.check q_cmd) in
    if g.blocked then with_band twin q_cmd (threshold g twin) g.block_pairs viols else viols

unfoldable pub let_through : SafetyGate → List (ℕ × ℕ) → SafetyGate × GateDecision
let_through g q_cmd = (
  record g {
    last_safe = some q_cmd;
    blocked = false;
    block_pairs = if g.blocked then [] else g.block_pairs;
  },
  record { q_out = q_cmd; is_blocked = false; events = if g.blocked then cleared ∷ [] else [] },
)

abbrev pub distance_cmd : GateTwin → List (ℕ × ℕ) → ℕ → ℤ
distance_cmd twin q_cmd p = twin.pair_distance p (some q_cmd) 500_000

abbrev pub distance_meas : GateTwin → ℕ → ℤ
distance_meas twin p = twin.pair_distance p none 500_000

-- The window in which the measured configuration counts as violating.
abbrev pub meas_threshold : SafetyGate → GateTwin → ℕ
meas_threshold g twin =
    if g.blocked then threshold g twin else twin.inflation_m + g.cfg.min_clearance_m

abbrev pub moves_pair : GateTwin → ℕ → ℕ → Bool
moves_pair twin arm p = is_in arm (twin.arms_of_pair p)

-- The command opens this pair, which is violated already.
abbrev pub opens_known : SafetyGate → GateTwin → List (ℕ × ℕ) → ℕ → Bool
opens_known g twin q_cmd p =
    leb_int (add_nat (distance_meas twin p) escape_eps_m) (distance_cmd twin q_cmd p)
    && not (leb_int (pos (meas_threshold g twin)) (distance_meas twin p))

-- The escape test of an arm.
unfoldable pub escapes : SafetyGate → GateTwin → List (ℕ × ℕ) → List ℕ → ℕ → Bool
escapes g twin q_cmd pairs arm =
    all (λ p. not (moves_pair twin arm p) || opens_known g twin q_cmd p) pairs

abbrev pub is_offending : GateTwin → List ℕ → ℕ → Bool
is_offending twin pairs arm = any (λ p. moves_pair twin arm p) pairs

-- The loop over the arms of the command: what goes out, and the safe configurations after it.
unfoldable pub per_arm :
    (arm_escapes arm_offends : ℕ → Bool)
    → List (ℕ × ℕ)
    → List (ℕ × ℕ)
    → Option (List (ℕ × ℕ) × List (ℕ × ℕ))
per_arm esc off safe [] = some ([], safe)
per_arm esc off safe ((a, q) ∷ cmd) =
    if not (off a)
    then elim (per_arm esc off safe cmd) [ none ↦ none | some (out, s) ↦ some ((a, q) ∷ out, s) ]
    else if esc a
    then elim (per_arm esc off (insert a q safe) cmd) [
      | none ↦ none
      | some (out, s) ↦ some ((a, q) ∷ out, s)
    ]
    else elim (lookup a safe) [
      | none ↦ none
      | some h ↦ elim (per_arm esc off safe cmd) [
        | none ↦ none
        | some (out, s) ↦ some ((a, h) ∷ out, s)
      ]
    ]

abbrev pub offending : GateTwin → List ℕ → List ℕ
offending twin [] = []
offending twin (p ∷ ps) = twin.arms_of_pair p ++ offending twin ps

-- The event of a rising edge or of a new pair.
abbrev pub block_events : SafetyGate → GateTwin → List (ℕ × ℕ) → List ℕ → List Event
block_events g twin q_cmd pairs =
    if not g.blocked || any (λ p. not (is_in p g.block_pairs)) pairs
    then (let arms = offending twin pairs in
        if any (λ p. leb_int (distance_cmd twin q_cmd p) (pos 0)) pairs
        then penetration pairs arms ∷ []
        else blocked_event pairs arms ∷ [])
    else []

unfoldable pub block :
    SafetyGate
    → GateTwin
    → List (ℕ × ℕ)
    → List (ℕ × ℕ)
    → List ℕ
    → Option (SafetyGate × GateDecision)
unfolding escapes per_arm
block g twin q_cmd safe pairs =
    elim (per_arm (escapes g twin q_cmd pairs) (is_offending twin pairs) safe q_cmd) [
      | none ↦ none
      | some (q_out, safe') ↦ some (
        record g { last_safe = some safe'; blocked = true; block_pairs = pairs },
        record { q_out = q_out; is_blocked = true; events = block_events g twin q_cmd pairs },
      )
    ]

abbrev pub decide_on :
    SafetyGate
    → GateTwin
    → List (ℕ × ℕ)
    → List (ℕ × ℕ)
    → List (ℕ × ℤ)
    → Option (SafetyGate × GateDecision)
decide_on g twin q_cmd safe [] = some (let_through g q_cmd)
decide_on g twin q_cmd safe (v ∷ vs) = block g twin q_cmd safe (keys (v ∷ vs))

-- `filter`, with the safe configurations of the command's arms.
abbrev pub filter_from :
    SafetyGate
    → GateTwin
    → (q_cmd q_meas : List (ℕ × ℕ)) → Bool
    → List (ℕ × ℕ)
    → Option (SafetyGate × GateDecision)
filter_from g twin q_cmd q_meas stale safe =
    if stale
    then fail_closed g q_cmd q_meas safe
    else decide_on g twin q_cmd safe (all_violations g twin q_cmd)

unfoldable pub filter :
    SafetyGate
    → GateTwin
    → (q_cmd q_meas : List (ℕ × ℕ)) → (stale : Bool) → Option (SafetyGate × GateDecision)
unfolding all_violations fail_closed let_through block join_arms
filter g twin q_cmd q_meas stale =
    elim (join_arms q_meas (or_else g.last_safe q_meas) (keys q_cmd)) [
      | none ↦ none
      | some safe ↦ filter_from g twin q_cmd q_meas stale safe
    ]
