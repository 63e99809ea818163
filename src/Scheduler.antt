-- ===== src/Scheduler.antt =====
-- pkg/node/node.go: the interval boundaries that start a protocol. The client of a persistence layer P.
-- A block number is the int64 that the code casts it to, below 2^63. The protocols run in goroutines of
-- their own, so starting one is the result of a step. Logging is left out.
pub mod Boundaries
use eigenx_kms_go.Prelude.{
  ℕ, ◌%◌, Bool, true, false, Option, none, some, List, [], ◌∷◌, Result, ok, err, ltb, ◌==◌,
  if◌then◌else◌,
}
use eigenx_kms_go.Prelude.Int.{ℤ, pos, eqb_ℤ}
use eigenx_kms_go.Types.{G2Point}
use eigenx_kms_go.Peering.{OperatorSetPeer}
use eigenx_kms_go.Config.{ChainId, get_reshare_block_interval_for_chain}
use eigenx_kms_go.Dealers.{no_commitments}
use eigenx_kms_go.KeyStore.{KeyStore, get_active_version}
use eigenx_kms_go.Persistence.{NodeState, NodePersistence, fresh_node_state}
use eigenx_kms_go.AutoHeal.{or_keep}

pub data ClusterState : Type 0 where
  genesis existing : ClusterState

-- What a query of an operator's public key gives; `none` is an error.
abbrev pub PubkeyQuery : Type 0
PubkeyQuery = OperatorSetPeer → Option (List G2Point)

abbrev pub has_key : Option (List G2Point) → Bool
has_key none = false
has_key (some []) = false
has_key (some (c ∷ cs)) = true

unfoldable pub detect_cluster_state : PubkeyQuery → List OperatorSetPeer → ClusterState
detect_cluster_state query [] = genesis
detect_cluster_state query (op ∷ ops) =
    if has_key (query op) then existing else detect_cluster_state query ops

-- The goroutine that a boundary starts, with the block's timestamp and number.
pub data Started : Type 0 where
  run_dkg : ℕ → Started
  run_reshare_as_new_operator : ℕ → ℕ → Started
  run_reshare_as_existing_operator : ℕ → ℕ → Started

pub record Block : Type 0 where
  pub number : ℕ
  pub timestamp : ℕ

-- The fields of Node that the scheduler reads and writes.
pub record Scheduler (F : Type 0) (State : Type 0) : Type 0 where
  pub chain_id : ChainId
  pub last_processed_boundary : ℤ
  pub active_sessions : ℕ
  pub key_store : KeyStore F
  pub store : State
  pub operator_address : List ℕ

-- What the node finds outside at one block: the operators, the answers of the peers and the time.
pub record Surroundings : Type 0 where
  pub operators : Option (List OperatorSetPeer)
  pub query : PubkeyQuery
  pub now : ℤ

module _ {F : Type 0} where
  unfoldable pub has_existing_shares : KeyStore F → Bool
  unfolding get_active_version
  has_existing_shares ks = elim (get_active_version ks) [ none ↦ false | some p ↦ true ]

-- `if err != nil || st == nil`, with the start time of the node.
abbrev pub or_started : {E : Type 0} → List ℕ → ℤ → Result E (Option NodeState) → NodeState
or_started address now (ok (some st)) = st
or_started address now (ok none) = record (fresh_node_state address) { node_start_time = now }
or_started address now (err e) = record (fresh_node_state address) { node_start_time = now }

module _ {F : Type 0} (P : NodePersistence F) where
  open P use {State, Failure, load_node_state, save_node_state}

  unfoldable pub persist_boundary : ℤ → ℤ → Scheduler F State → Scheduler F State
  persist_boundary now block n =
      let st = or_started n.operator_address now (load_node_state n.store) in
      record n {
        store = or_keep n.store (
            save_node_state
              (record st { last_processed_boundary = block; operator_address = n.operator_address })
              n.store);
      }

  -- Step 8: a new operator asks for the state of the cluster.
  abbrev pub start_at : Surroundings → Block → List OperatorSetPeer → Scheduler F State → Started
  start_at around b ops n =
      if has_existing_shares n.key_store
      then run_reshare_as_existing_operator b.timestamp b.number
      else elim (detect_cluster_state around.query ops) [
        | genesis ↦ run_dkg b.timestamp
        | existing ↦ run_reshare_as_new_operator b.timestamp b.number
      ]

  -- Steps 6 to 8, after the boundary is recorded.
  unfoldable pub start_with :
      Surroundings → Block → Option (List OperatorSetPeer) → Scheduler F State → Option Started
  unfolding has_existing_shares detect_cluster_state
  start_with around b none n = none
  start_with around b (some ops) n =
      if ltb 0 n.active_sessions then none else some (start_at around b ops n)

  -- Step 5: the boundary is recorded whether a protocol starts or not.
  abbrev pub at_boundary : Surroundings → Block → Scheduler F State → Scheduler F State
  at_boundary around b n =
      persist_boundary around.now (pos b.number)
        (record n { last_processed_boundary = pos b.number })

  unfoldable pub check_scheduled_operations :
      Surroundings → Block → Scheduler F State → Scheduler F State × Option Started
  unfolding get_reshare_block_interval_for_chain persist_boundary start_with
  check_scheduled_operations around b n =
      if b.number % get_reshare_block_interval_for_chain n.chain_id == 0
      then (if eqb_ℤ n.last_processed_boundary (pos 0)
          then (record n { last_processed_boundary = pos b.number }, none)
          else if eqb_ℤ (pos b.number) n.last_processed_boundary
          then (n, none)
          else (
            at_boundary around b n,
            start_with around b around.operators (at_boundary around b n),
          ))
      else (n, none)
