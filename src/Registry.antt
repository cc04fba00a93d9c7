-- ===== src/Registry.antt =====
-- dagger/registry.py: which checkpoint a session's policy is. The tree of the root directory is
-- `Root`, its lists sorted by name as `sorted` gives them; texts are lists of code points. A manifest
-- that cannot be read is `none`.
pub mod Promoted
pub mod Newest
mod Tests
use apollo_mavis_v2_runtime.Checkpoints.{is_digit, strip}
use apollo_mavis_v2_runtime.Prelude.{
  ℕ, zero, suc, Bool, true, false, not, ◌&&◌, ◌||◌, List, [], ◌∷◌, ◌++◌, map, Option, none, some,
  ltb, ◌==◌, if◌then◌else◌, ◌>>=◌, or_else,
}

abbrev pub Text : Type 0
Text = List ℕ

-- The fields of the core's `CheckpointInfo` that are read here.
pub record CheckpointInfo : Type 0 where
  pub version : ℕ
  pub action_frame : ℕ
  pub action_space : ℕ
  pub sanity_ok : Bool
  pub created_wallclock_ns : ℕ

pub record Entry : Type 0 where
  pub name : Text
  pub is_dir : Bool
  pub manifest : Option CheckpointInfo

pub record RunDir : Type 0 where
  pub name : Text
  pub is_dir : Bool
  pub entries : List Entry
  pub deploy : Option (List Entry)  -- where `deploy` is a directory

pub record Root : Type 0 where
  pub runs : List RunDir  -- none where the root does not exist
  pub promoted : Option Text  -- the text of the file `PROMOTED`

pub record Checkpoint : Type 0 where
  pub policy_id : Text
  pub info : CheckpointInfo
  pub is_deploy : Bool

abbrev pub same_text : Text → Text → Bool
same_text [] [] = true
same_text (x ∷ xs) (y ∷ ys) = x == y && same_text xs ys
same_text _ _ = false

-- `\d{n}$`; `$` stands before a last line feed too. Of the Unicode digits only ASCII's.
abbrev at_end : Text → Bool
at_end [] = true
at_end (c ∷ []) = c == 10
at_end (c ∷ d ∷ ds) = false

unfoldable pub digits_then_end : ℕ → Text → Bool
digits_then_end zero cs = at_end cs
digits_then_end (suc n) [] = false
digits_then_end (suc n) (c ∷ cs) = is_digit c && digits_then_end n cs

abbrev v_digits : ℕ → Text → Bool
v_digits n [] = false
v_digits n (c ∷ cs) = c == b'v' && digits_then_end n cs

-- `_ONLINE_RE` and `_DEPLOY_RE`
abbrev pub online_name : Text → Bool
online_name name = v_digits 6 name

abbrev pub deploy_name : Text → Bool
deploy_name name = v_digits 3 name

abbrev pub slash : Text → Text → Text
slash a b = a ++ b'/' ∷ b

abbrev with_manifest : Text → Bool → Option CheckpointInfo → List Checkpoint
with_manifest policy_id is_deploy none = []
with_manifest policy_id is_deploy (some info) =
    record { policy_id = policy_id; info = info; is_deploy = is_deploy } ∷ []

unfoldable pub entries_of : (Text → Bool) → Text → Bool → List Entry → List Checkpoint
entries_of matches prefix is_deploy [] = []
entries_of matches prefix is_deploy (d ∷ ds) =
    let rest = entries_of matches prefix is_deploy ds in
    if d.is_dir && matches d.name
    then with_manifest (slash prefix d.name) is_deploy d.manifest ++ rest
    else rest

abbrev pub deploy_text : Text
deploy_text = b'd' ∷ b'e' ∷ b'p' ∷ b'l' ∷ b'o' ∷ b'y' ∷ []

abbrev deployed : RunDir → Option (List Entry) → List Checkpoint
deployed run none = []
deployed run (some ds) = entries_of deploy_name (slash run.name deploy_text) true ds

unfoldable pub iter_checkpoints : List RunDir → List Checkpoint
iter_checkpoints [] = []
iter_checkpoints (run ∷ runs) =
    let rest = iter_checkpoints runs in
    if run.is_dir
    then entries_of online_name run.name false run.entries ++ deployed run run.deploy ++ rest
    else rest

-- `text or None`
abbrev unless_empty : Text → Option Text
unless_empty [] = none
unless_empty (c ∷ cs) = some (c ∷ cs)

unfoldable pub promoted_id : Root → Option Text
promoted_id root = do text ← root.promoted; unless_empty (strip text)

pub record PolicyInfo : Type 0 where
  pub policy_id : Text
  pub action_space : ℕ
  pub action_frame : ℕ
  pub policy_version : ℕ
  pub promoted : Bool

abbrev is_text : Option Text → Text → Bool
is_text none text = false
is_text (some other) text = same_text text other

unfoldable pub scan_policies : Root → List PolicyInfo
scan_policies root =
    map
      (λ c. record {
        policy_id = c.policy_id;
        action_space = c.info.action_space;
        action_frame = c.info.action_frame;
        policy_version = c.info.version;
        promoted = c.is_deploy && is_text (promoted_id root) c.policy_id;
      })
      (iter_checkpoints root.runs)

-- The dictionary of the checkpoints by their policy id.
abbrev pub enter : Checkpoint → List Checkpoint → List Checkpoint
enter c [] = c ∷ []
enter c (e ∷ es) = if same_text e.policy_id c.policy_id then c ∷ es else e ∷ enter c es

unfoldable pub entries : List Checkpoint → List Checkpoint → List Checkpoint
entries es [] = es
entries es (c ∷ cs) = entries (enter c es) cs

unfoldable pub entry : List Checkpoint → Text → Option Checkpoint
entry [] policy_id = none
entry (e ∷ es) policy_id =
    let rest = entry es policy_id in if same_text e.policy_id policy_id then some e else rest

pub data SessionError : Type 0 where
  no_promoted unknown_policy not_promoted insane no_checkpoints : SessionError

pub data Resolved : Type 0 where
  ok : Checkpoint → Resolved
  err : SessionError → Resolved

abbrev pub promoted_entry : Root → Text → Option Checkpoint → Resolved
promoted_entry root policy_id none = err unknown_policy
promoted_entry root policy_id (some e) =
    if not e.is_deploy || not (is_text (promoted_id root) policy_id)
    then err not_promoted
    else ok (record e { policy_id = policy_id })

abbrev pub inference_policy : Root → List Checkpoint → Option Text → Resolved
inference_policy root es none = err no_promoted
inference_policy root es (some policy_id) = promoted_entry root policy_id (entry es policy_id)

abbrev pub sane_entry : Text → Option Checkpoint → Resolved
sane_entry policy none = err unknown_policy
sane_entry policy (some e) =
    if not e.info.sanity_ok then err insane else ok (record e { policy_id = policy })

abbrev pub is_newer : Option Checkpoint → Checkpoint → Bool
is_newer none e = true
is_newer (some best) e = ltb best.info.created_wallclock_ns e.info.created_wallclock_ns

-- The loop for the newest sane checkpoint.
unfoldable pub newest : Option Checkpoint → List Checkpoint → Option Checkpoint
newest best [] = best
newest best (e ∷ es) =
    newest (if not e.info.sanity_ok then best else if is_newer best e then some e else best) es

abbrev pub found : Option Checkpoint → Resolved
found none = err no_checkpoints
found (some e) = ok e

-- `policy or promoted_id(root)`: an empty name is no name.
abbrev pub asked_or_promoted : Root → Option Text → Option Text
asked_or_promoted root none = promoted_id root
asked_or_promoted root (some []) = promoted_id root
asked_or_promoted root (some (c ∷ cs)) = some (c ∷ cs)

abbrev pub dagger_policy : List Checkpoint → Option Text → Resolved
dagger_policy es none = found (newest none es)
dagger_policy es (some policy) = sane_entry policy (entry es policy)

unfoldable pub resolve_policy : Root → Bool → Option Text → Resolved
resolve_policy root inference policy =
    let es = entries [] (iter_checkpoints root.runs) in
    if inference
    then inference_policy root es (asked_or_promoted root policy)
    else dagger_policy es policy
