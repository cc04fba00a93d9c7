-- ===== src/Registry/Tests.antt =====
-- A root directory with three checkpoints, and the theorems there.
use apollo_mavis_v2_runtime.Checkpoints.{is_space, strip, strip_left, strip_right}
use apollo_mavis_v2_runtime.Prelude.{ℕ, ◌≡◌, refl, Bool, true, false, [], ◌∷◌, ◌++◌, none, some}
use apollo_mavis_v2_runtime.Registry.Promoted.{IsAllowed, resolve_policy-IsAllowed}
use apollo_mavis_v2_runtime.Registry.{
  Text, CheckpointInfo, Root, ok, err, not_promoted, slash, deploy_text, entries, entries_of,
  digits_then_end, iter_checkpoints, entry, newest, promoted_id, resolve_policy,
}

abbrev info : ℕ → Bool → ℕ → CheckpointInfo
info version sane created = record {
  version = version;
  action_frame = 0;
  action_space = 0;
  sanity_ok = sane;
  created_wallclock_ns = created;
}

abbrev six : ℕ → Text
six d = b'v' ∷ b'0' ∷ b'0' ∷ b'0' ∷ b'0' ∷ b'0' ∷ d ∷ []

abbrev three : Text
three = b'v' ∷ b'0' ∷ b'0' ∷ b'1' ∷ []

abbrev run_a : Text
run_a = b'a' ∷ []

abbrev root : Root
root = record {
  runs =
      (record {
        name = run_a;
        is_dir = true;
        entries =
            (record { name = six b'1'; is_dir = true; manifest = some (info 1 true 10) })
            ∷ (record { name = six b'2'; is_dir = true; manifest = some (info 2 true 30) })
            ∷ (record { name = six b'3'; is_dir = true; manifest = some (info 3 false 40) })
            ∷ (record { name = three; is_dir = true; manifest = some (info 4 true 50) })
            ∷ [];
        deploy =
            some ((record { name = three; is_dir = true; manifest = some (info 1 true 20) }) ∷ []);
      })
      ∷ [];
  promoted = some (slash (slash run_a deploy_text) three ++ 10 ∷ []);
}

resolve_newest :
    resolve_policy root false none
    ≡ ok (record { policy_id = slash run_a (six b'2'); info = info 2 true 30; is_deploy = false })
unfolding resolve_policy iter_checkpoints entries_of digits_then_end entries newest
resolve_newest = refl

resolve_promoted :
    resolve_policy root true none
    ≡ ok (record {
      policy_id = slash (slash run_a deploy_text) three;
      info = info 1 true 20;
      is_deploy = true;
    })
unfolding resolve_policy iter_checkpoints entries_of digits_then_end entries entry promoted_id strip
    strip_left strip_right is_space
resolve_promoted = refl

resolve_online : resolve_policy root true (some (slash run_a (six b'1'))) ≡ err not_promoted
unfolding resolve_policy iter_checkpoints entries_of digits_then_end entries entry promoted_id strip
    strip_left strip_right is_space
resolve_online = refl

resolve_policy-IsAllowed_example : IsAllowed root true (resolve_policy root true none)
resolve_policy-IsAllowed_example = resolve_policy-IsAllowed root true none
