-- ===== src/Tests/Restore.antt =====
-- A restart over the in-memory layer: the active version 200 is poisoned.
use eigenx_kms_go.Prelude.{
  ℕ, ◌≡◌, refl, true, false, none, some, [], ◌∷◌, ok, arith, contains, int_eq, if◌then◌else◌,
}
use eigenx_kms_go.Prelude.Int.{ℤ, pos, eqb_ℤ}
use eigenx_kms_go.Prelude.Maps.{lookup, keys}
use eigenx_kms_go.Prelude.Sorting.{sort, insert_sorted}
use eigenx_kms_go.Types.{KeyShareVersion}
use eigenx_kms_go.Config.{ethereum_sepolia}
use eigenx_kms_go.KeyStore.{is_poisoned}
use eigenx_kms_go.Persistence.{NodeState, fresh_node_state}
use eigenx_kms_go.Persistence.Memory.{
  MemoryPersistence, load_node_state, list_key_share_versions, values_at,
  get_active_version_timestamp, list_poisoned_versions, list_protocol_sessions,
}
use eigenx_kms_go.Persistence.Memory.Contract.{memory_persistence}
use eigenx_kms_go.AutoHeal.{new_abort_tracker}
use eigenx_kms_go.Restore.{Node, restore_state}
use eigenx_kms_go.Restore.Restored.{Serves, restore_state-active}

abbrev share_of_version : ℕ → KeyShareVersion ℕ
share_of_version v = record {
  version = pos v;
  private_share = some v;
  commitments = [];
  master_public_key = none;
  is_active = true;
  participant_ids = [];
}

abbrev saved_state : NodeState
saved_state = record (fresh_node_state (48 ∷ [])) {
  last_processed_boundary = pos 20;
  tracked_source_version = pos 200;
  consecutive_mpk_aborts = 2;
}

abbrev layer : MemoryPersistence ℕ
layer = record {
  key_shares = (pos 200, share_of_version 200) ∷ (pos 100, share_of_version 100) ∷ [];
  active_version_timestamp = pos 200;
  node_state = saved_state;
  sessions = [];
  block_records = [];
  last_processed_blocks = [];
  poisoned = pos 200 ∷ [];
  closed = false;
}

abbrev starting : Node ℕ (MemoryPersistence ℕ)
starting = record {
  chain_id = ethereum_sepolia;
  last_processed_boundary = pos 0;
  key_store = record {
    object = λ p. share_of_version 0;
    key_versions = [];
    active_version = none;
    pending_version = none;
    poisoned = [];
  };
  tracker = new_abort_tracker;
  store = layer;
}

restore_state-active_example :
    (n' : Node ℕ (MemoryPersistence ℕ)) × (restore_state
        (memory_persistence ℕ)
        (pos 5000)
        7
        starting
      ≡ ok n')
    × Serves (pos 200) n'.key_store
    × ((v : ℤ) → is_poisoned v n'.key_store ≡ contains (pos 200 ∷ []) v)
    × (n'.tracker ≡ (
        if eqb_ℤ (pos 200) (pos 200)
        then record { tracked_source_version = pos 200; consecutive_aborts = 2 }
        else new_abort_tracker))
unfolding load_node_state list_key_share_versions values_at sort insert_sorted keys lookup
    get_active_version_timestamp list_poisoned_versions list_protocol_sessions contains
restore_state-active_example =
    restore_state-active (memory_persistence ℕ) (pos 5000) 7 starting saved_state
      (share_of_version 100 ∷ share_of_version 200 ∷ []) (pos 200) (pos 200 ∷ []) [] refl refl refl
      refl refl refl (omega arith) refl
