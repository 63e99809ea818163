-- ===== src/Tests/Memory.antt =====
-- pkg/persistence/memory at concrete layers.
use eigenx_kms_go.Prelude.{List, Memᴰ, ◌↔◌, ℕ, ◌≡◌, true, false, none, some, [], ◌∷◌, ok}
use eigenx_kms_go.Prelude.Int.{ℤ, ltb_ℤ, pos}
use eigenx_kms_go.Prelude.Sorting.{IsSorted}
use eigenx_kms_go.Types.{KeyShareVersion}
use eigenx_kms_go.Persistence.{BlockRecord, ProtocolSessionState, fresh_node_state}
use eigenx_kms_go.Persistence.Memory.{
  MemoryPersistence, load_key_share_version, list_key_share_versions,
}
use eigenx_kms_go.Persistence.Memory.Versions.{
  Call, saves, deletes, after_calls, kept, numbers, list_key_share_versions-kept,
}

abbrev block_7 : BlockRecord
block_7 = record { number = 7; hash = 1 ∷ []; parent_hash = 2 ∷ []; timestamp = 84; chain_id = 1 }

abbrev block_9 : BlockRecord
block_9 = record { number = 9; hash = 3 ∷ []; parent_hash = 1 ∷ []; timestamp = 108; chain_id = 1 }

abbrev after_9 : MemoryPersistence ℕ
after_9 = record {
  key_shares = [];
  active_version_timestamp = pos 0;
  node_state = fresh_node_state [];
  sessions = [];
  block_records = (record { chain_id = 1; number = 9 }, block_9) ∷ [];
  last_processed_blocks = (1, 9) ∷ [];
  poisoned = [];
  closed = false;
}

abbrev a_version : KeyShareVersion ℕ
a_version = record {
  version = pos 100;
  private_share = some 5;
  commitments = [];
  master_public_key = none;
  is_active = true;
  participant_ids = [];
}

abbrev a_session : ProtocolSessionState
a_session = record {
  session_timestamp = pos 100;
  type = [];
  phase = pos 0;
  start_time = pos 100;
  operator_addresses = [];
  shares = [];
  commitments = [];
  acknowledgements = [];
}

abbrev closed_layer_9 : MemoryPersistence ℕ
closed_layer_9 = record after_9 { closed = true }

abbrev calls : List (Call ℕ)
calls =
    deletes (pos 300)
    ∷ saves (record a_version { private_share = some 6 })
    ∷ saves (record a_version { version = pos 300 })
    ∷ saves a_version
    ∷ []

list_key_share_versions-kept_example :
    ((t : ℤ) → load_key_share_version t (after_calls calls) ≡ ok (kept t calls))
    × ((vs : List (KeyShareVersion ℕ)) × (list_key_share_versions (after_calls calls) ≡ ok vs)
        × IsSorted ltb_ℤ (numbers vs)
        × ((v : KeyShareVersion ℕ) → Memᴰ v vs ↔ (kept v.version calls ≡ some v)))
list_key_share_versions-kept_example = list_key_share_versions-kept calls
