-- ===== src/Persistence/Memory.antt =====
-- pkg/persistence/memory/memory.go. A map is an association list, and a pointer argument that may be
-- nil is an option. Values here do not change, so the deep copies that the Go code makes against
-- aliasing are the values themselves. Each method runs under the lock, so it is one step.
pub mod Versions
pub mod Blocks
pub mod Contract
use eigenx_kms_go.Prelude.{
  ℕ, ◌≡◌, ◌↔◌, Bool, true, false, ◌&&◌, Option, none, some, List, [], ◌∷◌, map, Result, ok, err, Eq,
  ◌==◌, if◌then◌else◌, contains, int_eq, nat_eq, arith,
}
use eigenx_kms_go.Prelude.Int.{ℤ, ltb_ℤ, eqb_ℤ, pos}
use eigenx_kms_go.Prelude.Maps.{lookup, insert, delete, keys}
use eigenx_kms_go.Prelude.Sorting.{sort}
use eigenx_kms_go.Types.{KeyShareVersion}
use eigenx_kms_go.Persistence.{NodeState, BlockRecord, ProtocolSessionState, fresh_node_state}

pub data Error : Type 0 where
  nil_value closed_layer : Error

pub record BlockRecordKey : Type 0 where
  pub chain_id : ℕ
  pub number : ℕ

abbrev pub key_beq : BlockRecordKey → BlockRecordKey → Bool
key_beq a b = a.chain_id == b.chain_id && a.number == b.number

pub key_beq_iff : (a b : BlockRecordKey) → (key_beq a b ≡ true) ↔ (a ≡ b)
key_beq_iff a b = ground arith

instance abbrev pub key_eq : Eq BlockRecordKey
key_eq = record { beq = key_beq; beq_iff = key_beq_iff }

pub record MemoryPersistence (F : Type 0) : Type 0 where
  pub key_shares : List (ℤ × KeyShareVersion F)
  pub active_version_timestamp : ℤ
  pub node_state : NodeState
  pub sessions : List (ℤ × ProtocolSessionState)
  pub block_records : List (BlockRecordKey × BlockRecord)
  pub last_processed_blocks : List (ℕ × ℕ)
  pub poisoned : List ℤ
  pub closed : Bool

-- `if m.closed { return … }`
abbrev pub when_open : {F A : Type 0} → MemoryPersistence F → A → Result Error A
when_open m a = if m.closed then err closed_layer else ok a

abbrev pub is_empty : List ℕ → Bool
is_empty [] = true
is_empty (x ∷ xs) = false

-- `m.blockRecords` at the number that the chain's entry of `m.lastProcessedBlocks` gives, if any.
record_at : ℕ → Option ℕ → List (BlockRecordKey × BlockRecord) → Option BlockRecord
unfolding lookup
record_at chain none rs = none
record_at chain (some n) rs = lookup (record { chain_id = chain; number = n }) rs

-- `state.OperatorAddress == "" && state.LastProcessedBoundary == 0`
abbrev pub never_saved : NodeState → Bool
never_saved st = is_empty st.operator_address && eqb_ℤ st.last_processed_boundary (pos 0)

module _ {F : Type 0} where
  unfoldable pub new_memory_persistence : MemoryPersistence F
  new_memory_persistence = record {
    key_shares = [];
    active_version_timestamp = pos 0;
    node_state = fresh_node_state [];
    sessions = [];
    block_records = [];
    last_processed_blocks = [];
    poisoned = [];
    closed = false;
  }

  unfoldable pub save_key_share_version :
      Option (KeyShareVersion F) → MemoryPersistence F → Result Error (MemoryPersistence F)
  unfolding insert
  save_key_share_version none m = err nil_value
  save_key_share_version (some v) m =
      when_open m (record m { key_shares = insert v.version v m.key_shares })

  unfoldable pub load_key_share_version :
      ℤ → MemoryPersistence F → Result Error (Option (KeyShareVersion F))
  unfolding lookup
  load_key_share_version t m = when_open m (lookup t m.key_shares)

  -- The values at the given keys; every key that the caller passes is in the map.
  unfoldable pub values_at : List ℤ → List (ℤ × KeyShareVersion F) → List (KeyShareVersion F)
  values_at [] m = []
  values_at (t ∷ ts) m = elim (lookup t m) [ none ↦ values_at ts m | some v ↦ v ∷ values_at ts m ]

  unfoldable pub list_key_share_versions :
      MemoryPersistence F → Result Error (List (KeyShareVersion F))
  unfolding values_at sort keys lookup
  list_key_share_versions m = when_open m (values_at (sort ltb_ℤ (keys m.key_shares)) m.key_shares)

  unfoldable pub delete_key_share_version :
      ℤ → MemoryPersistence F → Result Error (MemoryPersistence F)
  unfolding delete
  delete_key_share_version t m = when_open m (record m { key_shares = delete t m.key_shares })

  unfoldable pub add_poisoned_version : ℤ → MemoryPersistence F → Result Error (MemoryPersistence F)
  unfolding contains
  add_poisoned_version v m =
      when_open m (if contains m.poisoned v then m else record m { poisoned = v ∷ m.poisoned })

  unfoldable pub list_poisoned_versions : MemoryPersistence F → Result Error (List ℤ)
  list_poisoned_versions m = when_open m m.poisoned

  unfoldable pub set_active_version_timestamp :
      ℤ → MemoryPersistence F → Result Error (MemoryPersistence F)
  set_active_version_timestamp t m = when_open m (record m { active_version_timestamp = t })

  unfoldable pub get_active_version_timestamp : MemoryPersistence F → Result Error ℤ
  get_active_version_timestamp m = when_open m m.active_version_timestamp

  unfoldable pub save_node_state :
      Option NodeState → MemoryPersistence F → Result Error (MemoryPersistence F)
  save_node_state none m = err nil_value
  save_node_state (some st) m = when_open m (record m { node_state = st })

  unfoldable pub load_node_state : MemoryPersistence F → Result Error (Option NodeState)
  load_node_state m = when_open m (if never_saved m.node_state then none else some m.node_state)

  unfoldable pub save_protocol_session :
      Option ProtocolSessionState → MemoryPersistence F → Result Error (MemoryPersistence F)
  unfolding insert
  save_protocol_session none m = err nil_value
  save_protocol_session (some s) m =
      when_open m (record m { sessions = insert s.session_timestamp s m.sessions })

  unfoldable pub load_protocol_session :
      ℤ → MemoryPersistence F → Result Error (Option ProtocolSessionState)
  unfolding lookup
  load_protocol_session t m = when_open m (lookup t m.sessions)

  unfoldable pub delete_protocol_session :
      ℤ → MemoryPersistence F → Result Error (MemoryPersistence F)
  unfolding delete
  delete_protocol_session t m = when_open m (record m { sessions = delete t m.sessions })

  unfoldable pub list_protocol_sessions :
      MemoryPersistence F → Result Error (List ProtocolSessionState)
  list_protocol_sessions m = when_open m (map (λ e. e.1) m.sessions)

  unfoldable pub save_block_record :
      Option BlockRecord → MemoryPersistence F → Result Error (MemoryPersistence F)
  unfolding insert
  save_block_record none m = err nil_value
  save_block_record (some r) m =
      let key : BlockRecordKey = record { chain_id = r.chain_id; number = r.number } in
      when_open m (record m {
        block_records = insert key r m.block_records;
        last_processed_blocks = insert r.chain_id r.number m.last_processed_blocks;
      })

  unfoldable pub get_block_record : ℕ → ℕ → MemoryPersistence F → Result Error (Option BlockRecord)
  unfolding lookup
  get_block_record chain block m =
      when_open m (lookup (record { chain_id = chain; number = block }) m.block_records)

  unfoldable pub get_last_processed_block_record :
      ℕ → MemoryPersistence F → Result Error (Option BlockRecord)
  unfolding record_at
  get_last_processed_block_record chain m =
      when_open m (record_at chain (lookup chain m.last_processed_blocks) m.block_records)

  unfoldable pub delete_block_record :
      ℕ → ℕ → MemoryPersistence F → Result Error (MemoryPersistence F)
  unfolding delete
  delete_block_record chain block m = when_open m (record m {
    block_records = delete (record { chain_id = chain; number = block }) m.block_records;
  })

  unfoldable pub close : MemoryPersistence F → Result Error (MemoryPersistence F)
  close m = ok (record m { closed = true })

  unfoldable pub health_check : MemoryPersistence F → Result Error (Unit {0})
  health_check m = when_open m tt
