-- ===== src/Persistence/Memory/Blocks.antt =====
-- memory.go: the block records of the chain poller, and what closing the layer does.
use eigenx_kms_go.Prelude.{
  ℕ, ◌≡◌, refl, true, false, Option, none, some, ok, err, arith, if◌then◌else◌, ◌==◌, List, ◌>>=◌,
  nat_eq,
}
use eigenx_kms_go.Prelude.Int.{ℤ}
use eigenx_kms_go.Prelude.Maps.{lookup, insert, lookup-insert}
use eigenx_kms_go.Types.{KeyShareVersion}
use eigenx_kms_go.Persistence.{NodeState, BlockRecord, ProtocolSessionState}
use eigenx_kms_go.Persistence.Memory.{
  closed_layer, MemoryPersistence, BlockRecordKey, key_eq, record_at, save_key_share_version,
  load_key_share_version, list_key_share_versions, delete_key_share_version, add_poisoned_version,
  list_poisoned_versions, set_active_version_timestamp, get_active_version_timestamp,
  save_node_state, load_node_state, save_protocol_session, load_protocol_session,
  delete_protocol_session, list_protocol_sessions, save_block_record,
  get_last_processed_block_record, get_block_record, delete_block_record, health_check, close,
}

abbrev key_of : BlockRecord → BlockRecordKey
key_of r = record { chain_id = r.chain_id; number = r.number }

record_at-insert :
    (r : BlockRecord) (chain : ℕ) (o : Option ℕ) (rs : List (BlockRecordKey × BlockRecord))
    → record_at chain (if r.chain_id == chain then some r.number else o) (insert (key_of r) r rs)
      ≡ (if r.chain_id == chain then some r else record_at chain o rs)
unfolding record_at
record_at-insert r chain none rs =
    ground (arith, lookup-insert (key_of r) (record { chain_id = chain; number = r.number }) r rs)
record_at-insert r chain (some n) rs = ground (
  arith,
  lookup-insert (key_of r) (record { chain_id = chain; number = r.number }) r rs,
  lookup-insert (key_of r) (record { chain_id = chain; number = n }) r rs,
)

module _ {F : Type 0} (m : MemoryPersistence F) (r : BlockRecord) where
  abbrev saved_block : MemoryPersistence F
  saved_block = record m {
    block_records = insert (key_of r) r m.block_records;
    last_processed_blocks = insert r.chain_id r.number m.last_processed_blocks;
  }

  save_block_record-eq : m.closed ≡ false → save_block_record (some r) m ≡ ok saved_block
  unfolding save_block_record
  save_block_record-eq e = rw (e, save_block_record)

  -- While the layer is open, saving a block record succeeds, makes it the chain's last processed
  -- block whatever its number, and changes no other chain's last processed block.
  pub get_last_processed_block_record-save :
      (chain : ℕ)
      → m.closed ≡ false
      → (save_block_record (some r) m >>= get_last_processed_block_record chain)
        ≡ (if r.chain_id == chain then ok (some r) else get_last_processed_block_record chain m)
  unfolding get_last_processed_block_record
  get_last_processed_block_record-save chain e = rw (save_block_record-eq e) (
      rw (e, get_last_processed_block_record)
        (rw (lookup-insert r.chain_id chain r.number m.last_processed_blocks) (
          rw (record_at-insert r chain (lookup chain m.last_processed_blocks) m.block_records)
            (ground arith))))

-- A layer that is closed refuses every call that the nil checks let through.
pub closed_refuses :
    {F : Type 0} (m m' : MemoryPersistence F) (v : KeyShareVersion F) (st : NodeState)
    (s : ProtocolSessionState) (r : BlockRecord) (t : ℤ) (chain block : ℕ)
    → close m ≡ ok m'
    → (save_key_share_version (some v) m' ≡ err closed_layer)
      × (load_key_share_version t m' ≡ err closed_layer)
      × (list_key_share_versions m' ≡ err closed_layer)
      × (delete_key_share_version t m' ≡ err closed_layer)
      × (add_poisoned_version t m' ≡ err closed_layer)
      × (list_poisoned_versions m' ≡ err closed_layer)
      × (set_active_version_timestamp t m' ≡ err closed_layer)
      × (get_active_version_timestamp m' ≡ err closed_layer)
      × (save_node_state (some st) m' ≡ err closed_layer)
      × (load_node_state m' ≡ err closed_layer)
      × (save_protocol_session (some s) m' ≡ err closed_layer)
      × (load_protocol_session t m' ≡ err closed_layer)
      × (delete_protocol_session t m' ≡ err closed_layer)
      × (list_protocol_sessions m' ≡ err closed_layer)
      × (save_block_record (some r) m' ≡ err closed_layer)
      × (get_last_processed_block_record chain m' ≡ err closed_layer)
      × (get_block_record chain block m' ≡ err closed_layer)
      × (delete_block_record chain block m' ≡ err closed_layer)
      × (health_check m' ≡ err closed_layer)
unfolding save_key_share_version load_key_share_version list_key_share_versions
    delete_key_share_version add_poisoned_version list_poisoned_versions
    set_active_version_timestamp get_active_version_timestamp save_node_state load_node_state
    save_protocol_session load_protocol_session delete_protocol_session list_protocol_sessions
    save_block_record get_last_processed_block_record get_block_record delete_block_record
    health_check close
closed_refuses m m' v st s r t chain block h = rw closed_of (
  refl, refl, refl, refl, refl, refl, refl, refl, refl, refl, refl, refl, refl, refl, refl, refl,
  refl, refl, refl,
)
  where
    closed_of : m' ≡ record m { closed = true }
    closed_of = ground arith
