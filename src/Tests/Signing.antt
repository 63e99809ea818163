-- ===== src/Tests/Signing.antt =====
-- The operator signs for an application after a rollback that found no version to go to.
use mathlib.Core.List.Memᴰ
use eigenx_kms_go.Prelude.{
  ℕ, ◌*◌, ◌≡◌, refl, false, none, some, List, [], ◌∷◌, err, arith, ◌==◌, contains,
}
use eigenx_kms_go.Prelude.Int.{pos}
use eigenx_kms_go.Prelude.Maps.{lookup, keys}
use eigenx_kms_go.Prelude.Sorting.{sort, insert_sorted}
use eigenx_kms_go.Types.{KeyShareVersion}
use eigenx_kms_go.KeyStore.{Ptr, is_poisoned, mark_poisoned}
use eigenx_kms_go.Persistence.{fresh_node_state}
use eigenx_kms_go.Persistence.Memory.{
  MemoryPersistence, add_poisoned_version, list_key_share_versions, values_at, load_node_state,
}
use eigenx_kms_go.Persistence.Memory.Contract.{memory_persistence}
use eigenx_kms_go.AutoHeal.{Healing, perform_rollback}
use eigenx_kms_go.AutoHeal.Rollback.{with_poisoned, not_HasTarget}
use eigenx_kms_go.Signing.{sign_app_id, no_version_at}
use eigenx_kms_go.Signing.Floor.{perform_rollback-sign_app_id}
use eigenx_kms_go.Tests.Scalars.{Scalar, unit, scalars}
use eigenx_kms_go.Tests.Ibe.{ciphers}

abbrev app_id : List ℕ
app_id = 97 ∷ 112 ∷ 112 ∷ []

abbrev objects : Ptr → KeyShareVersion Scalar
objects p = record {
  version = pos (100 * p);
  private_share = some unit;
  commitments = [];
  master_public_key = none;
  is_active = p == 2;
  participant_ids = 11 ∷ 12 ∷ [];
}

-- Version 200 is active, and version 100 was poisoned earlier.
abbrev node : Healing Scalar (MemoryPersistence Scalar)
node = record {
  key_store = record {
    object = objects;
    key_versions = 1 ∷ 2 ∷ [];
    active_version = some 2;
    pending_version = none;
    poisoned = pos 100 ∷ [];
  };
  store = record {
    key_shares = (pos 200, objects 2) ∷ (pos 100, objects 1) ∷ [];
    active_version_timestamp = pos 200;
    node_state = fresh_node_state (48 ∷ []);
    sessions = [];
    block_records = [];
    last_processed_blocks = [];
    poisoned = pos 100 ∷ [];
    closed = false;
  };
  tracker = record { tracked_source_version = pos 200; consecutive_aborts = 3 };
  operator_address = 48 ∷ [];
}

perform_rollback-sign_app_id_example :
    let rolled = perform_rollback (memory_persistence Scalar) (pos 200) node in
    (sign_app_id ciphers app_id (pos 0) rolled.key_store
      ≡ sign_app_id ciphers app_id (pos 0) node.key_store)
    × (sign_app_id ciphers app_id (pos 250) rolled.key_store ≡ err (no_version_at (pos 250)))
unfolding add_poisoned_version list_key_share_versions contains lookup values_at sort insert_sorted
    keys load_node_state mark_poisoned is_poisoned
perform_rollback-sign_app_id_example =
    perform_rollback-sign_app_id (memory_persistence Scalar) ciphers (pos 200) (pos 250) node
      (objects 1 ∷ objects 2 ∷ []) app_id refl
      (not_HasTarget (memory_persistence Scalar) (pos 200)
        (with_poisoned (memory_persistence Scalar) (pos 200) node) (pos 100 ∷ pos 200 ∷ []) refl
        (refl, (refl, tt)))
      ((Memᴰ.head refl, omega arith), ((Memᴰ.tail (Memᴰ.head refl), omega arith), tt)) (omega arith)
