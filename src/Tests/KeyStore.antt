-- ===== src/Tests/KeyStore.antt =====
-- pkg/keystore at concrete keystores: version 100 is active, 200 is pending, 300 is poisoned.
use eigenx_kms_go.Prelude.{ℕ, ◌*◌, ◌≡◌, refl, none, some, [], ◌∷◌, err, ◌==◌, WhenOk, contains}
use eigenx_kms_go.Prelude.Int.{pos}
use eigenx_kms_go.Types.{KeyShareVersion}
use eigenx_kms_go.KeyStore.{
  Ptr, KeyStore, new_key_store, add_version, mark_poisoned, set_pending_version,
  set_active_version_by_timestamp, get_private_share_for_version, activate_pending_version,
  get_active_version, get_key_version_at_time, is_poisoned, poisoned_version, best_version,
}
use eigenx_kms_go.KeyStore.Flags.{IsConsistent}
use eigenx_kms_go.KeyStore.Reachable.{here, next, adds, poisons, sets_pending, Reach-IsConsistent}
use eigenx_kms_go.KeyStore.Lookup.{
  Resolves, get_key_version_at_time-Resolves, Exact, get_private_share_for_version-Exact,
}
use eigenx_kms_go.KeyStore.Poison.{OtherThan, mark_poisoned_excludes}

abbrev objects : Ptr → KeyShareVersion ℕ
objects p = record {
  version = pos (100 * p);
  private_share = some (7 * p);
  commitments = [];
  master_public_key = none;
  is_active = p == 1;
  participant_ids = 11 ∷ 12 ∷ 13 ∷ [];
}

abbrev three_versions : KeyStore ℕ
three_versions = record {
  object = objects;
  key_versions = 1 ∷ 3 ∷ 2 ∷ [];
  active_version = some 1;
  pending_version = some 4;
  poisoned = pos 300 ∷ [];
}

Reach-IsConsistent_example :
    IsConsistent (
      mark_poisoned
        (pos 300)
        (set_pending_version (some 2) (add_version 1 (new_key_store objects))))
unfolding new_key_store
Reach-IsConsistent_example =
    Reach-IsConsistent objects
      (next (next (next here (adds 1 (λ e. cc))) (sets_pending (some 2))) (poisons (pos 300)))

get_key_version_at_time-Resolves_example :
    Resolves (pos 350) three_versions (get_key_version_at_time (pos 350) three_versions)
get_key_version_at_time-Resolves_example = get_key_version_at_time-Resolves (pos 350) three_versions

resolves_below_the_poisoned : get_key_version_at_time (pos 350) three_versions ≡ some 2
unfolding get_key_version_at_time best_version is_poisoned contains
resolves_below_the_poisoned = refl

get_private_share_for_version-Exact_example :
    Exact (pos 200) three_versions (get_private_share_for_version (pos 200) three_versions)
get_private_share_for_version-Exact_example =
    get_private_share_for_version-Exact (pos 200) three_versions

mark_poisoned_excludes_example :
    let ks' = mark_poisoned (pos 200) three_versions in
    (set_active_version_by_timestamp (pos 200) ks' ≡ err (poisoned_version (pos 200)))
    × (get_private_share_for_version (pos 200) ks' ≡ err (poisoned_version (pos 200)))
    × WhenOk
        (λ ks''. OtherThan (pos 200) ks''.object (get_active_version ks''))
        (activate_pending_version ks')
    × OtherThan (pos 200) ks'.object (get_key_version_at_time (pos 350) ks')
mark_poisoned_excludes_example = mark_poisoned_excludes (pos 200) (pos 350) three_versions
