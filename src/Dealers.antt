-- ===== src/Dealers.antt =====
-- pkg/node/node.go and VerifyDealerSourceVersions of pkg/reshare/reshare.go: from the operator set and
-- the commitment registry to the dealers whose versions a reshare tallies. The registry is a contract
-- on chain, so what a read of it gives is an argument.
pub mod Overlap
pub mod Verified
pub mod Cutoff
pub mod Agreed
use eigenx_kms_go.Prelude.{
  ℕ, zero, suc, ◌+◌, ◌-◌, Bool, true, false, ◌&&◌, ◌||◌, not, Option, none, some, List, [], ◌∷◌,
  Result, ok, err, ltb, ◌==◌, if◌then◌else◌, replicate, ◌++◌, ◌>>=◌, length, contains, nat_eq,
  bytes_eq, list_beq,
}
use eigenx_kms_go.Prelude.Int.{ℤ}
use eigenx_kms_go.Prelude.Maps.{insert}
use eigenx_kms_go.Types.{Address, G2Point, Hash}
use eigenx_kms_go.Peering.{OperatorSetPeer, addresses}
use eigenx_kms_go.Crypto.{hash_reshare_commitment}
use eigenx_kms_go.Config.{
  ChainId, get_reshare_block_interval_for_chain, get_reshare_cutoff_buffer_for_chain,
}
use eigenx_kms_go.Reshare.{calculate_threshold}

pub data SetError : Type 0 where
  nil_operator : SetError
  duplicate_operator : Address → SetError

-- The loop of validateOperatorSetNoDuplicates; a nil operator is `none`.
unfoldable pub check_operators :
    List Address → List (Option OperatorSetPeer) → Result SetError (Unit {0})
unfolding contains
check_operators seen [] = ok tt
check_operators seen (none ∷ ops) = err nil_operator
check_operators seen (some op ∷ ops) =
    let rest = check_operators (op.operator_address ∷ seen) ops in
    if contains seen op.operator_address then err (duplicate_operator op.operator_address) else rest

unfoldable pub validate_operator_set_no_duplicates :
    List (Option OperatorSetPeer) → Result SetError (Unit {0})
unfolding check_operators
validate_operator_set_no_duplicates ops = check_operators [] ops

-- How many of the addresses stand in the other list.
unfoldable pub count_in : List Address → List Address → ℕ
unfolding contains
count_in ys [] = 0
count_in ys (x ∷ xs) = if contains ys x then suc (count_in ys xs) else count_in ys xs

pub data OverlapError : Type 0 where
  insufficient_overlap : ℕ → ℕ → ℕ → OverlapError

unfoldable pub validate_reshare_operator_overlap :
    List Address → List OperatorSetPeer → Result OverlapError (Unit {0})
unfolding calculate_threshold count_in
validate_reshare_operator_overlap [] ops = ok tt
validate_reshare_operator_overlap (p ∷ ps) ops =
    let overlap = count_in (addresses ops) (p ∷ ps) in
    let threshold = calculate_threshold (length (p ∷ ps)) in
    if ltb overlap threshold
    then err (insufficient_overlap overlap (length (p ∷ ps)) threshold)
    else ok tt

unfoldable pub session_participant_ids : List OperatorSetPeer → List Address
session_participant_ids ops = addresses ops

-- The operators that stand in a set, in the order of the operator set.
unfoldable pub those_in : List Address → List OperatorSetPeer → List Address
unfolding contains
those_in set [] = []
those_in set (op ∷ ops) =
    if contains set op.operator_address
    then op.operator_address ∷ those_in set ops
    else those_in set ops

unfoldable pub existing_operator_dealers : List OperatorSetPeer → List Address → List Address
unfolding those_in
existing_operator_dealers ops existing = those_in existing ops

-- The participants of the active version; `none` is a node with no active version.
unfoldable pub expected_reshare_dealers :
    Option (List Address) → List OperatorSetPeer → List Address
unfolding those_in
expected_reshare_dealers none ops = addresses ops
expected_reshare_dealers (some []) ops = addresses ops
expected_reshare_dealers (some (p ∷ ps)) ops = those_in (p ∷ ps) ops

-- `len(commits) == 0`
abbrev pub no_commitments : List G2Point → Bool
no_commitments [] = true
no_commitments (c ∷ cs) = false

-- A dealer is kept if its hash is on chain and its commitments and source version hash to it.
unfoldable pub dealer_checks : (List ℕ → Hash) → Option Hash → List G2Point → Option ℤ → Bool
unfolding hash_reshare_commitment list_beq
dealer_checks sha256 none commits version = false
dealer_checks sha256 (some on_chain) commits none = false
dealer_checks sha256 (some on_chain) commits (some v) =
    not (no_commitments commits) && list_beq (hash_reshare_commitment sha256 commits v) on_chain

module _ (sha256 : List ℕ → Hash) (on_chain : Address → Option Hash)
    (commitments_by_dealer : Address → List G2Point) (source_versions : Address → Option ℤ) where
  abbrev pub is_verified : Address → Bool
  is_verified d = dealer_checks sha256 (on_chain d) (commitments_by_dealer d) (source_versions d)

  unfoldable pub verified_dealers : List Address → List Address
  unfolding dealer_checks
  verified_dealers [] = []
  verified_dealers (d ∷ ds) = if is_verified d then d ∷ verified_dealers ds else verified_dealers ds

  -- The map `verifiedVersions`, as a function.
  unfoldable pub verified_versions : List Address → Address → Option ℤ
  unfolding dealer_checks
  verified_versions [] a = none
  verified_versions (d ∷ ds) a =
      if is_verified d && d == a then source_versions d else verified_versions ds a

  unfoldable pub verify_dealer_source_versions : List Address → List Address × (Address → Option ℤ)
  unfolding verified_dealers verified_versions
  verify_dealer_source_versions agreed = (verified_dealers agreed, verified_versions agreed)

-- One read of the chain: what it gave, or that it failed, and whether the deadline had passed then.
pub data Attempt (A : Type 0) : Type 0 where
  got : A → Attempt A
  failed : Bool → Attempt A

pub data AgreeError : Type 0 where
  no_expected_dealers : AgreeError
  not_read_before_deadline : AgreeError
  context_done : AgreeError

-- A loop that polls until a read succeeds; the context is done where the attempts end.
unfoldable pub retry : {A : Type 0} → List (Attempt A) → Result AgreeError A
retry [] = err context_done
retry (got a ∷ ats) = ok a
retry (failed true ∷ ats) = err not_read_before_deadline
retry (failed false ∷ ats) = retry ats

-- `commitmentHash != ([32]byte{})`
abbrev pub is_submitted : Hash → Bool
is_submitted h = not (list_beq h (replicate 32 0))

unfoldable pub read_commitments :
    (Address → List (Attempt Hash))
    → List Address
    → List Address × List (Address × Hash)
    → Result AgreeError (List Address × List (Address × Hash))
unfolding retry insert
read_commitments reads [] acc = ok acc
read_commitments reads (dealer ∷ ds) (submitted, hashes) = retry (reads dealer) >>= λ h.
    read_commitments reads ds (
      if is_submitted h
      then (submitted ++ (dealer ∷ []), insert dealer h hashes)
      else (submitted, hashes))

-- `reads h d` are the attempts to read the commitment of `d` at the L2 height `h`, and `cutoff` those
-- to resolve the height.
unfoldable pub derive_for :
    List (Attempt ℕ)
    → (ℕ → Address → List (Attempt Hash))
    → List Address
    → Result AgreeError (List Address × List (Address × Hash))
unfolding retry read_commitments
derive_for cutoff reads [] = err no_expected_dealers
derive_for cutoff reads (d ∷ ds) =
    retry cutoff >>= λ h. read_commitments (reads h) (d ∷ ds) ([], [])

-- `none` is a nil slice of expected dealers.
unfoldable pub expected_or_default :
    Option (List Address) → Option (List Address) → List OperatorSetPeer → List Address
unfolding expected_reshare_dealers
expected_or_default (some ds) participants ops = ds
expected_or_default none participants ops = expected_reshare_dealers participants ops

-- What one attempt to resolve the height finds of the chains, and whether the deadline has passed when
-- it has failed: the timestamp of an L1 block, and the first L2 block at or after a timestamp.
pub record View : Type 0 where
  pub header_timestamp_at : ℕ → Option ℕ
  pub first_block_at_or_after_timestamp : ℕ → Option ℕ
  pub late : Bool

-- The L1 block N + interval - buffer; the interval is longer than the buffer.
unfoldable pub deadline_block : ChainId → ℕ → ℕ
unfolding get_reshare_block_interval_for_chain get_reshare_cutoff_buffer_for_chain
deadline_block chain trigger =
    trigger + get_reshare_block_interval_for_chain chain - get_reshare_cutoff_buffer_for_chain chain

unfoldable pub resolve_cutoff_l2 : ChainId → ℕ → View → Option ℕ
unfolding deadline_block
resolve_cutoff_l2 chain trigger v = elim (v.header_timestamp_at (deadline_block chain trigger)) [
  | none ↦ none
  | some timestamp ↦ v.first_block_at_or_after_timestamp timestamp
]

abbrev pub attempt_of : Bool → Option ℕ → Attempt ℕ
attempt_of late none = failed late
attempt_of late (some h) = got h

unfoldable pub cutoff_attempts : ChainId → ℕ → List View → List (Attempt ℕ)
unfolding resolve_cutoff_l2
cutoff_attempts chain trigger [] = []
cutoff_attempts chain trigger (v ∷ views) =
    attempt_of v.late (resolve_cutoff_l2 chain trigger v) ∷ cutoff_attempts chain trigger views

unfoldable pub derive_agreed_dealer_set :
    ChainId
    → ℕ
    → List View
    → (ℕ → Address → List (Attempt Hash))
    → Option (List Address)
    → List OperatorSetPeer
    → Option (List Address)
    → Result AgreeError (List Address × List (Address × Hash))
unfolding derive_for expected_or_default cutoff_attempts
derive_agreed_dealer_set chain trigger views reads participants ops expected_dealers =
    derive_for (cutoff_attempts chain trigger views) reads
      (expected_or_default expected_dealers participants ops)
