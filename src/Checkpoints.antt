-- ===== src/Checkpoints.antt =====
-- dagger/trainer/checkpoints.py: the checkpoint directory that the trainer writes and the runtime
-- reads. Texts are lists of code points; strings that are only compared (frames, spaces, digests)
-- are numbers. A file that cannot be read or parsed is a missing entry.
pub mod Pointer
use apollo_mavis_v2_runtime.Prelude.Dicts.{lookup, insert}
use apollo_mavis_v2_runtime.Prelude.{
  ℕ, zero, suc, ◌+◌, ◌-◌, ◌*◌, ◌/◌, ◌%◌, Bool, true, false, ◌&&◌, ◌||◌, List, [], ◌∷◌, ◌++◌, Option,
  none, some, ltb, leb, ◌==◌, if◌then◌else◌, length, all,
}

-- The fields of the core's `CheckpointInfo` that the runtime reads.
pub record CheckpointInfo : Type 0 where
  pub version : ℕ
  pub action_frame : ℕ
  pub action_space : ℕ
  pub sanity_ok : Bool
  pub sha256 : ℕ

-- The directory: readable manifests and the digests of the state dictionaries, by version, and
-- the texts of the two pointer files.
pub record CheckpointStore : Type 0 where
  pub manifests : List (ℕ × CheckpointInfo)
  pub state_dicts : List (ℕ × ℕ)
  pub latest_file : Option (List ℕ)
  pub last_known_good_file : Option (List ℕ)

unfoldable pub write_manifest : CheckpointStore → CheckpointInfo → CheckpointStore
write_manifest s info = record s { manifests = insert info.version info s.manifests }

unfoldable pub read_manifest : CheckpointStore → ℕ → Option CheckpointInfo
read_manifest s version = lookup version s.manifests

abbrev digest_is : Option ℕ → ℕ → Bool
digest_is none expected = false
digest_is (some digest) expected = digest == expected

-- `sha256_file(path) == info.sha256`, and `False` for a file that cannot be read.
unfoldable pub verify : CheckpointStore → CheckpointInfo → Bool
verify s info = digest_is (lookup info.version s.state_dicts) info.sha256

-- The decimal digits of `n`, in front of `acc`; the fuel `n + 1` is enough.
unfoldable pub digits_on : ℕ → ℕ → List ℕ → List ℕ
digits_on zero n acc = acc
digits_on (suc fuel) n acc =
    let rest = digits_on fuel (n / 10) ((n % 10 + b'0') ∷ acc) in
    if ltb n 10 then (n + b'0') ∷ acc else rest

abbrev pub zeros : ℕ → List ℕ
zeros zero = []
zeros (suc n) = b'0' ∷ zeros n

-- `f"{n:06d}"`
unfoldable pub padded : ℕ → List ℕ
unfolding digits_on
padded n = let ds = digits_on (suc n) n [] in zeros (6 - length ds) ++ ds

-- The code points that `str.strip` takes off.
unfoldable pub is_space : ℕ → Bool
is_space c =
    (leb 9 c && leb c 13)
    || (leb 28 c && leb c 32)
    || c == 133
    || c == 160
    || c == 5760
    || (leb 8192 c && leb c 8202)
    || c == 8232
    || c == 8233
    || c == 8239
    || c == 8287
    || c == 12288

unfoldable pub strip_left : List ℕ → List ℕ
unfolding is_space
strip_left [] = []
strip_left (c ∷ cs) = if is_space c then strip_left cs else c ∷ cs

abbrev pub keep_unless_end : ℕ → List ℕ → List ℕ
keep_unless_end c [] = if is_space c then [] else c ∷ []
keep_unless_end c (d ∷ ds) = c ∷ d ∷ ds

unfoldable pub strip_right : List ℕ → List ℕ
unfolding is_space
strip_right [] = []
strip_right (c ∷ cs) = keep_unless_end c (strip_right cs)

unfoldable pub strip : List ℕ → List ℕ
unfolding strip_left strip_right
strip cs = strip_right (strip_left cs)

abbrev pub is_digit : ℕ → Bool
is_digit c = leb b'0' c && leb c b'9'

-- `int(digits)`, from the value `acc` of the digits before.
unfoldable pub value_on : ℕ → List ℕ → ℕ
value_on acc [] = acc
value_on acc (c ∷ cs) = value_on (acc * 10 + (c - b'0')) cs

-- `_VERSION_RE`, `^v(\d{6})$`, on a stripped text; of the Unicode digits only ASCII's.
unfoldable pub version_of : List ℕ → Option ℕ
unfolding value_on
version_of [] = none
version_of (c ∷ ds) =
    if c == b'v' && length ds == 6 && all is_digit ds then some (value_on 0 ds) else none

-- The text of a pointer file, `f"v{version:06d}\n"`.
unfoldable pub pointer_text : ℕ → List ℕ
pointer_text version = b'v' ∷ (padded version ++ 10 ∷ [])

unfoldable pub read_pointer : Option (List ℕ) → Option ℕ
unfolding version_of strip
read_pointer none = none
read_pointer (some text) = version_of (strip text)

unfoldable pub latest : CheckpointStore → Option ℕ
unfolding read_pointer
latest s = read_pointer s.latest_file

unfoldable pub advance_latest : CheckpointStore → ℕ → CheckpointStore
unfolding pointer_text
advance_latest s version = record s { latest_file = some (pointer_text version) }

unfoldable pub last_known_good : CheckpointStore → Option ℕ
unfolding read_pointer
last_known_good s = read_pointer s.last_known_good_file

unfoldable pub set_last_known_good : CheckpointStore → ℕ → CheckpointStore
unfolding pointer_text
set_last_known_good s version = record s { last_known_good_file = some (pointer_text version) }
