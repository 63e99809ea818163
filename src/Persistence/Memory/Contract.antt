-- ===== src/Persistence/Memory/Contract.antt =====
-- memory.go implements the interface that the node relies on.
use eigenx_kms_go.Prelude.{ℕ, ◌≡◌, refl, ◌≢◌, false, some, ok, arith, List, [], ◌∷◌}
use eigenx_kms_go.Prelude.Int.{ℤ}
use eigenx_kms_go.Persistence.{NodeState, NodePersistence}
use eigenx_kms_go.Persistence.Memory.{
  Error, MemoryPersistence, save_node_state, load_node_state, add_poisoned_version,
  list_poisoned_versions, set_active_version_timestamp, get_active_version_timestamp,
  list_key_share_versions, list_protocol_sessions, delete_protocol_session, is_empty,
  save_key_share_version, load_key_share_version, delete_key_share_version, save_protocol_session,
  load_protocol_session, save_block_record, get_last_processed_block_record, get_block_record,
  delete_block_record, close, health_check,
}

is_empty_of_ne : (xs : List ℕ) → xs ≢ [] → is_empty xs ≡ false
is_empty_of_ne [] h = absurd (h refl)
is_empty_of_ne (x ∷ xs) h = refl

module _ {F : Type 0} where
  pub load-save_state :
      (st : NodeState) (m : MemoryPersistence F) {m' : MemoryPersistence F}
      → st.operator_address ≢ []
      → save_node_state (some st) m ≡ ok m'
      → load_node_state m' ≡ ok (some st)
  unfolding save_node_state load_node_state
  load-save_state st m ne h = ground (arith, is_empty_of_ne st.operator_address ne)

  pub load-add_poisoned_state :
      (v : ℤ) (m : MemoryPersistence F) {m' : MemoryPersistence F}
      → add_poisoned_version v m ≡ ok m'
      → load_node_state m' ≡ load_node_state m
  unfolding add_poisoned_version load_node_state
  load-add_poisoned_state v m h = ground arith

  pub load-set_active_state :
      (v : ℤ) (m : MemoryPersistence F) {m' : MemoryPersistence F}
      → set_active_version_timestamp v m ≡ ok m'
      → load_node_state m' ≡ load_node_state m
  unfolding set_active_version_timestamp load_node_state
  load-set_active_state v m h = ground arith

  pub get-set_active_state :
      (v : ℤ) (m : MemoryPersistence F) {m' : MemoryPersistence F}
      → set_active_version_timestamp v m ≡ ok m'
      → get_active_version_timestamp m' ≡ ok v
  unfolding set_active_version_timestamp get_active_version_timestamp
  get-set_active_state v m h = ground arith

  pub get-save_state :
      (st : NodeState) (m : MemoryPersistence F) {m' : MemoryPersistence F}
      → save_node_state (some st) m ≡ ok m'
      → get_active_version_timestamp m' ≡ get_active_version_timestamp m
  unfolding save_node_state get_active_version_timestamp
  get-save_state st m h = ground arith

-- The in-memory layer with the laws that the node's components assume.
abbrev pub memory_persistence : (F : Type 0) → NodePersistence F
memory_persistence F = record {
  State = MemoryPersistence F;
  Failure = Error;
  save_key_share_version = λ v. save_key_share_version (some v);
  load_key_share_version = load_key_share_version;
  delete_key_share_version = delete_key_share_version;
  add_poisoned_version = add_poisoned_version;
  list_poisoned_versions = list_poisoned_versions;
  set_active_version_timestamp = set_active_version_timestamp;
  get_active_version_timestamp = get_active_version_timestamp;
  list_key_share_versions = list_key_share_versions;
  save_node_state = λ st. save_node_state (some st);
  load_node_state = load_node_state;
  list_protocol_sessions = list_protocol_sessions;
  delete_protocol_session = delete_protocol_session;
  save_protocol_session = λ pss. save_protocol_session (some pss);
  load_protocol_session = load_protocol_session;
  save_block_record = λ r. save_block_record (some r);
  get_last_processed_block_record = get_last_processed_block_record;
  get_block_record = get_block_record;
  delete_block_record = delete_block_record;
  close = close;
  health_check = health_check;
  load-save = load-save_state;
  load-add_poisoned = load-add_poisoned_state;
  load-set_active = load-set_active_state;
  get-set_active = get-set_active_state;
  get-save = get-save_state;
}
