-- ===== src/Tests/Scheduler.antt =====
-- The scheduler of a Sepolia node over the in-memory layer.
use eigenx_kms_go.Prelude.{ℕ, ◌≡◌, refl, false, none, some, [], ◌∷◌, arith}
use eigenx_kms_go.Prelude.Int.{pos}
use eigenx_kms_go.Config.{ethereum_sepolia, get_reshare_block_interval_for_chain}
use eigenx_kms_go.KeyStore.{KeyStore, get_active_version}
use eigenx_kms_go.Persistence.{NodeState, fresh_node_state}
use eigenx_kms_go.Persistence.Memory.{MemoryPersistence}
use eigenx_kms_go.Persistence.Memory.Contract.{memory_persistence}
use eigenx_kms_go.Scheduler.{
  Scheduler, Surroundings, Block, check_scheduled_operations, has_existing_shares,
  detect_cluster_state, start_with, persist_boundary,
}
use eigenx_kms_go.Scheduler.Boundaries.{
  IsGenesis, check_scheduled_operations-IsGenesis, Arrival, starts, Ascends, starts-Ascends,
}

abbrev saved_state : NodeState
saved_state = record (fresh_node_state (48 ∷ [])) {
  last_processed_boundary = pos 20;
  consecutive_mpk_aborts = 2;
  last_known_good_source_version = pos 100;
}

abbrev layer : MemoryPersistence ℕ
layer = record {
  key_shares = [];
  active_version_timestamp = pos 0;
  node_state = saved_state;
  sessions = [];
  block_records = [];
  last_processed_blocks = [];
  poisoned = [];
  closed = false;
}

abbrev no_versions : KeyStore ℕ
no_versions = record {
  object = λ p. record {
    version = pos 0;
    private_share = none;
    commitments = [];
    master_public_key = none;
    is_active = false;
    participant_ids = [];
  };
  key_versions = [];
  active_version = none;
  pending_version = none;
  poisoned = [];
}

abbrev node : Scheduler ℕ (MemoryPersistence ℕ)
node = record {
  chain_id = ethereum_sepolia;
  last_processed_boundary = pos 20;
  active_sessions = 0;
  key_store = no_versions;
  store = layer;
  operator_address = 48 ∷ [];
}

abbrev no_peers : Surroundings
no_peers = record { operators = some []; query = λ op. none; now = pos 1000 }

abbrev block_30 : Block
block_30 = record { number = 30; timestamp = 960 }

check_scheduled_operations-IsGenesis_example : IsGenesis (memory_persistence ℕ) no_peers node
unfolding check_scheduled_operations get_reshare_block_interval_for_chain start_with
    has_existing_shares get_active_version detect_cluster_state persist_boundary
check_scheduled_operations-IsGenesis_example =
    check_scheduled_operations-IsGenesis (memory_persistence ℕ) no_peers block_30 node 960 refl

abbrev delivery : Arrival (memory_persistence ℕ)
delivery = record {
  around = no_peers;
  block = block_30;
  active_sessions = 0;
  key_store = no_versions;
  store = layer;
}

starts-Ascends_example :
    Ascends
      (memory_persistence ℕ)
      (pos 20)
      (starts (memory_persistence ℕ) (delivery ∷ delivery ∷ []) node)
starts-Ascends_example =
    starts-Ascends (memory_persistence ℕ) (delivery ∷ delivery ∷ []) node 25 (omega arith)
      (omega arith, (omega arith, tt))

starts_once : starts (memory_persistence ℕ) (delivery ∷ delivery ∷ []) node ≡ 30 ∷ []
unfolding starts check_scheduled_operations get_reshare_block_interval_for_chain start_with
    has_existing_shares get_active_version detect_cluster_state persist_boundary
starts_once = refl
