-- ===== src/Scheduler/Boundaries.antt =====
-- node.go: which boundaries start a protocol, and what they persist.
use eigenx_kms_go.Prelude.{
  ℕ, ◌%◌, ◌≤◌, ◌≡◌, ◌≢◌, refl, false, Option, none, some, List, [], ◌∷◌, ok, arith, Bool-cases, inl,
  inr, subst, All, ◌==◌,
}
use eigenx_kms_go.Prelude.Int.{ℤ, pos, eqb_ℤ, ◌≤ℤ◌, ◌<ℤ◌}
use eigenx_kms_go.Peering.{OperatorSetPeer}
use eigenx_kms_go.Config.{get_reshare_block_interval_for_chain}
use eigenx_kms_go.KeyStore.{KeyStore}
use eigenx_kms_go.Persistence.{NodeState, NodePersistence}
use eigenx_kms_go.Scheduler.{
  genesis, has_key, PubkeyQuery, detect_cluster_state, Started, run_dkg, Block, Scheduler,
  Surroundings, has_existing_shares, persist_boundary, start_with, at_boundary,
  check_scheduled_operations,
}

detect_cluster_state-genesis :
    (query : PubkeyQuery) (ops : List OperatorSetPeer)
    → detect_cluster_state query ops ≡ genesis
    → All (λ op. has_key (query op) ≡ false) ops
unfolding detect_cluster_state
detect_cluster_state-genesis query [] e = tt
detect_cluster_state-genesis query (op ∷ ops) e = elim (Bool-cases (has_key (query op))) [
  | inl y ↦ ground (arith, y, e)
  | inr n ↦ (n, detect_cluster_state-genesis query ops (ground (arith, n, e)))
]

module _ {F : Type 0} (P : NodePersistence F) where
  open P use {State, load_node_state, save_node_state}

  -- What a genesis DKG rests on.
  abbrev pub IsGenesis : Surroundings → Scheduler F State → Type 0
  IsGenesis around n =
      (has_existing_shares n.key_store ≡ false)
      × (n.active_sessions ≡ 0)
      × ((ops : List OperatorSetPeer) × (around.operators ≡ some ops)
          × All (λ op. has_key (around.query op) ≡ false) ops)

  start_with-IsGenesis :
      (around : Surroundings) (b : Block) (o : Option (List OperatorSetPeer))
      (n : Scheduler F State) (t : ℕ)
      → around.operators ≡ o
      → start_with P around b o n ≡ some (run_dkg t)
      → IsGenesis around n
  unfolding start_with
  start_with-IsGenesis around b none n t e s = cc
  start_with-IsGenesis around b (some ops) n t e s =
      let none_yet : has_existing_shares n.key_store ≡ false = ground (arith, s) in
      let quiet : n.active_sessions ≡ 0 = ground (arith, s) in
      let new : detect_cluster_state around.query ops ≡ genesis = ground (arith, s) in
      (none_yet, quiet, (ops, e, detect_cluster_state-genesis around.query ops new))

  -- A genesis DKG starts only at a node that has no shares and no session in progress, and only if the
  -- operators could be fetched and none of them answers with a key.
  pub check_scheduled_operations-IsGenesis :
      (around : Surroundings) (b : Block) (n : Scheduler F State) (t : ℕ)
      → (check_scheduled_operations P around b n).1 ≡ some (run_dkg t)
      → IsGenesis around n
  unfolding check_scheduled_operations persist_boundary
  check_scheduled_operations-IsGenesis around b n t e =
      start_with-IsGenesis around b around.operators (at_boundary P around b n) t refl
        (ground (arith, e))

  -- A block that arrives, with what the other goroutines have made of the node meanwhile.
  pub record Arrival : Type 0 where
    pub around : Surroundings
    pub block : Block
    pub active_sessions : ℕ
    pub key_store : KeyStore F
    pub store : State

  abbrev pub at_arrival : Arrival → Scheduler F State → Scheduler F State
  at_arrival a n = record n {
    active_sessions = a.active_sessions;
    key_store = a.key_store;
    store = a.store;
  }

  abbrev pub number_if : {A : Type 0} → Option A → ℕ → List ℕ → List ℕ
  number_if none b bs = bs
  number_if (some s) b bs = b ∷ bs

  -- The numbers of the blocks at which a protocol starts.
  unfoldable pub starts : List Arrival → Scheduler F State → List ℕ
  unfolding check_scheduled_operations
  starts [] n = []
  starts (a ∷ later) n =
      let (n', started) = check_scheduled_operations P a.around a.block (at_arrival a n) in
      number_if started a.block.number (starts later n')

  -- The chain does not go back.
  abbrev pub Rises : ℕ → List Arrival → Type 0
  Rises lo [] = Unit
  Rises lo (a ∷ later) = (lo ≤ a.block.number) × Rises a.block.number later

  abbrev pub Ascends : ℤ → List ℕ → Type 0
  Ascends lo [] = Unit
  Ascends lo (b ∷ bs) = (lo <ℤ pos b) × Ascends (pos b) bs

  Ascends-le : (lo hi : ℤ) (bs : List ℕ) → lo ≤ℤ hi → Ascends hi bs → Ascends lo bs
  Ascends-le lo hi [] h a = tt
  Ascends-le lo hi (b ∷ bs) h a = (omega (arith, h, a.0), a.1)

  -- What one step does to the boundary.
  abbrev Moves : ℕ → ℤ → ℤ → Option Started → Type 0
  Moves b last last' none = (last ≤ℤ last') × (last' ≤ℤ pos b)
  Moves b last last' (some s) = (last <ℤ pos b) × (last' ≡ pos b)

  Moves-of :
      (b : ℕ) (last : ℤ) (o : Option Started)
      → last ≤ℤ pos b
      → eqb_ℤ (pos b) last ≡ false
      → Moves b last (pos b) o
  Moves-of b last none h n = (h, omega arith)
  Moves-of b last (some s) h n = (ground (arith, h, n), refl)

  step-Moves :
      (around : Surroundings) (b : Block) (n : Scheduler F State)
      → n.last_processed_boundary ≤ℤ pos b.number
      → let r = check_scheduled_operations P around b n in
        Moves b.number n.last_processed_boundary r.0.last_processed_boundary r.1
  unfolding check_scheduled_operations persist_boundary
  step-Moves around b n h =
      elim (Bool-cases (b.number % get_reshare_block_interval_for_chain n.chain_id == 0)) [
        | inr d ↦ rw d (omega arith, h)
        | inl y ↦ elim (Bool-cases (eqb_ℤ n.last_processed_boundary (pos 0))) [
          | inl z ↦ rw (y, z) (h, omega arith)
          | inr w ↦ elim (Bool-cases (eqb_ℤ (pos b.number) n.last_processed_boundary)) [
            | inl s ↦ rw (y, w, s) (omega arith, h)
            | inr d ↦
                rw (y, w, d)
                  (Moves-of b.number n.last_processed_boundary
                    (start_with P around b around.operators (at_boundary P around b n)) h d)
          ]
        ]
      ]

  number_if-Ascends :
      (b : ℕ) (last last' : ℤ) (o : Option Started) (bs : List ℕ)
      → Moves b last last' o
      → Ascends last' bs
      → Ascends last (number_if o b bs)
  number_if-Ascends b last last' none bs m a = Ascends-le last last' bs m.0 a
  number_if-Ascends b last last' (some s) bs m a = (m.0, subst (λ x. Ascends x bs) m.1 a)

  Moves-le : (b : ℕ) (last last' : ℤ) (o : Option Started) → Moves b last last' o → last' ≤ℤ pos b
  Moves-le b last last' none m = m.1
  Moves-le b last last' (some s) m = ground (arith, m.1)

  -- While the numbers of the arriving blocks do not fall, and are not below the last processed
  -- boundary, the blocks at which protocols start rise strictly and lie above that boundary: no
  -- block starts two protocols, however often it is delivered and whatever sessions, keys and
  -- persisted state the node has meanwhile.
  pub starts-Ascends :
      (arrivals : List Arrival) (n : Scheduler F State) (lo : ℕ)
      → n.last_processed_boundary ≤ℤ pos lo
      → Rises lo arrivals
      → Ascends n.last_processed_boundary (starts arrivals n)
  unfolding starts
  starts-Ascends [] n lo h r = tt
  starts-Ascends (a ∷ later) n lo h r =
      let next = check_scheduled_operations P a.around a.block (at_arrival a n) in
      let m = step-Moves a.around a.block (at_arrival a n) (omega (arith, h, r.0)) in
      number_if-Ascends a.block.number n.last_processed_boundary next.0.last_processed_boundary
        next.1 (starts later next.0) m
        (starts-Ascends later next.0 a.block.number
          (Moves-le a.block.number n.last_processed_boundary next.0.last_processed_boundary next.1
            m)
          r.1)

-- If there is a saved state, the operator's address is not empty and the save succeeds, recording
-- a boundary writes its number and the address into the saved state and leaves every other field,
-- so the auto-heal fields and the start time.
pub persist_boundary-load :
    {F : Type 0} (P : NodePersistence F) (st : NodeState) (n : Scheduler F P.State) (now block : ℤ)
    {s : P.State}
    → P.load_node_state n.store ≡ ok (some st)
    → n.operator_address ≢ []
    → let st' = record st {
      last_processed_boundary = block;
      operator_address = n.operator_address;
    } in
      P.save_node_state st' n.store ≡ ok s
      → P.load_node_state (persist_boundary P now block n).store ≡ ok (some st')
unfolding persist_boundary
persist_boundary-load P st n now block loaded named saved =
    rw (loaded, saved) (P.load-save _ n.store named saved)
