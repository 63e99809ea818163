-- ===== src/Persistence.antt =====
-- pkg/persistence: the records of types.go and the interface of interface.go, over a state that an
-- implementation chooses. A method that fails leaves the state as it was. Node is a client of it.
pub mod Memory
use eigenx_kms_go.Prelude.{ℕ, ◌≡◌, ◌≢◌, ◌⊎◌, Bool, Option, none, some, List, [], Result, ok}
use eigenx_kms_go.Prelude.Int.{ℤ, ◌-ℤ◌, ltb_ℤ, pos}
use eigenx_kms_go.Types.{KeyShareVersion, G2Point, Acknowledgement}

-- Text is its bytes. ConsecutiveMPKAborts is a count: the program only resets and increments it.
pub record NodeState : Type 0 where
  pub last_processed_boundary : ℤ
  pub node_start_time : ℤ
  pub operator_address : List ℕ
  pub tracked_source_version : ℤ
  pub consecutive_mpk_aborts : ℕ
  pub last_known_good_source_version : ℤ

-- A `&NodeState{…}` literal that gives only the operator's address.
abbrev pub fresh_node_state : List ℕ → NodeState
fresh_node_state address = record {
  last_processed_boundary = pos 0;
  node_start_time = pos 0;
  operator_address = address;
  tracked_source_version = pos 0;
  consecutive_mpk_aborts = 0;
  last_known_good_source_version = pos 0;
}

pub record BlockRecord : Type 0 where
  pub number : ℕ
  pub hash : List ℕ
  pub parent_hash : List ℕ
  pub timestamp : ℕ
  pub chain_id : ℕ

pub record ProtocolSessionState : Type 0 where
  pub session_timestamp : ℤ
  pub type : List ℕ
  pub phase : ℤ
  pub start_time : ℤ
  pub operator_addresses : List (List ℕ)
  pub shares : List (List ℕ × List ℕ)
  pub commitments : List (List ℕ × List G2Point)
  pub acknowledgements : List (List ℕ × List (List ℕ × Acknowledgement))

-- `IsExpired` at the current time `now`, for a session that is not nil.
unfoldable pub is_expired : ℤ → ProtocolSessionState → ℤ → Bool
is_expired now pss timeout_seconds = ltb_ℤ timeout_seconds (now -ℤ pss.start_time)

-- The methods of `INodePersistence`, and what the scheduler, the restart and the auto-heal path rely
-- on: what was saved is what is loaded, and a write to one item leaves the others. A pointer that is
-- handed over to be saved is not nil.
pub record NodePersistence (F : Type 0) : Type 1 where
  pub State : Type 0
  pub Failure : Type 0
  pub save_key_share_version : KeyShareVersion F → State → Result Failure State
  pub load_key_share_version : ℤ → State → Result Failure (Option (KeyShareVersion F))
  pub delete_key_share_version : ℤ → State → Result Failure State
  pub add_poisoned_version : ℤ → State → Result Failure State
  pub list_poisoned_versions : State → Result Failure (List ℤ)
  pub set_active_version_timestamp : ℤ → State → Result Failure State
  pub get_active_version_timestamp : State → Result Failure ℤ
  pub list_key_share_versions : State → Result Failure (List (KeyShareVersion F))
  pub save_node_state : NodeState → State → Result Failure State
  pub load_node_state : State → Result Failure (Option NodeState)
  pub list_protocol_sessions : State → Result Failure (List ProtocolSessionState)
  pub delete_protocol_session : ℤ → State → Result Failure State
  pub save_protocol_session : ProtocolSessionState → State → Result Failure State
  pub load_protocol_session : ℤ → State → Result Failure (Option ProtocolSessionState)
  pub save_block_record : BlockRecord → State → Result Failure State
  pub get_last_processed_block_record : ℕ → State → Result Failure (Option BlockRecord)
  pub get_block_record : ℕ → ℕ → State → Result Failure (Option BlockRecord)
  pub delete_block_record : ℕ → ℕ → State → Result Failure State
  pub close : State → Result Failure State
  pub health_check : State → Result Failure (Unit {0})
  pub load-save :
      (st : NodeState) (s : State) {s' : State}
      → st.operator_address ≢ []
      → save_node_state st s ≡ ok s'
      → load_node_state s' ≡ ok (some st)
  pub load-add_poisoned :
      (v : ℤ) (s : State) {s' : State}
      → add_poisoned_version v s ≡ ok s'
      → load_node_state s' ≡ load_node_state s
  pub load-set_active :
      (v : ℤ) (s : State) {s' : State}
      → set_active_version_timestamp v s ≡ ok s'
      → load_node_state s' ≡ load_node_state s
  pub get-set_active :
      (v : ℤ) (s : State) {s' : State}
      → set_active_version_timestamp v s ≡ ok s'
      → get_active_version_timestamp s' ≡ ok v
  pub get-save :
      (st : NodeState) (s : State) {s' : State}
      → save_node_state st s ≡ ok s'
      → get_active_version_timestamp s' ≡ get_active_version_timestamp s
