-- ===== src/Session.antt =====
-- pkg/node/node.go: a DKG or reshare session as its messages arrive, and the shares that a dealer keeps
-- after it. Each handler runs under the session's lock, so it is one step. A completion channel has
-- room for one signal: the flag says whether it is there, and a send to a full channel is dropped.
pub mod Received
pub mod Stored
pub mod Retained
pub mod Table
pub mod Verify
pub mod Waits
use eigenx_kms_go.Prelude.{
  ℕ, ◌+◌, ◌-◌, ◌≡◌, Bool, true, false, ◌||◌, Option, none, some, List, [], ◌∷◌, ◌++◌, Result, ok,
  err, ltb, ◌==◌, if◌then◌else◌, length, nat_eq, int_eq,
}
use eigenx_kms_go.Prelude.Int.{ℤ}
use eigenx_kms_go.Prelude.Maps.{lookup, insert, delete}
use eigenx_kms_go.Types.{Address, G2Point, Acknowledgement}
use eigenx_kms_go.Peering.{OperatorSetPeer}
use eigenx_kms_go.Dealers.{SetError, check_operators, validate_operator_set_no_duplicates}

pub data SessionType : Type 0 where
  dkg reshare : SessionType

pub data SessionError : Type 0 where
  duplicate_share duplicate_commitment empty_commitments : Address → SessionError
  duplicate_ack : Address → Address → SessionError

-- A stored share may be a nil pointer. A nil map of generated shares is `none`.
pub record ProtocolSession (F : Type 0) : Type 0 where
  pub session_timestamp : ℤ
  pub type : SessionType
  pub start_time : ℤ
  pub operators : List OperatorSetPeer
  pub shares : List (Address × Option F)
  pub commitments : List (Address × List G2Point)
  pub acks : List (Address × List (Address × Acknowledgement))
  pub source_versions : List (Address × ℤ)
  pub my_generated_shares : Option (List (Address × F))
  pub shares_complete : Bool
  pub commitments_complete : Bool
  pub acks_complete : Bool
  pub verified_operators : List (Address × Bool)

abbrev pub is_some {ℓ} : {A : Type ℓ} → Option A → Bool
is_some none = false
is_some (some a) = true

abbrev pub no_acks : List OperatorSetPeer → List (Address × List (Address × Acknowledgement))
no_acks [] = []
no_acks (op ∷ ops) = insert op.operator_address [] (no_acks ops)

module _ {F : Type 0} where
  -- The session that createSession makes at the time `now` for operators that it accepts.
  abbrev pub new_session : SessionType → List OperatorSetPeer → ℤ → ℤ → ProtocolSession F
  new_session type ops t now = record {
    session_timestamp = t;
    type = type;
    start_time = now;
    operators = ops;
    shares = [];
    commitments = [];
    acks = no_acks ops;
    source_versions = [];
    my_generated_shares = none;
    shares_complete = false;
    commitments_complete = false;
    acks_complete = false;
    verified_operators = [];
  }

  unfoldable pub handle_received_share :
      Address → Option F → ProtocolSession F → Result SessionError (ProtocolSession F)
  unfolding lookup insert
  handle_received_share sender share s =
      let shares = insert sender share s.shares in
      if is_some (lookup sender s.shares)
      then err (duplicate_share sender)
      else ok (record s {
        shares = shares;
        shares_complete = s.shares_complete || length shares == length s.operators;
      })

  unfoldable pub handle_received_commitment :
      Address → List G2Point → ℤ → ProtocolSession F → Result SessionError (ProtocolSession F)
  unfolding lookup insert
  handle_received_commitment sender [] version s = err (empty_commitments sender)
  handle_received_commitment sender (c ∷ cs) version s =
      let commitments = insert sender (c ∷ cs) s.commitments in
      if is_some (lookup sender s.commitments)
      then err (duplicate_commitment sender)
      else ok (record s {
        commitments = commitments;
        source_versions = insert sender version s.source_versions;
        commitments_complete = s.commitments_complete || length commitments == length s.operators;
      })

  -- `s.acks[dealer]`, where a nil map has no entries.
  abbrev pub acks_of : Address → ProtocolSession F → List (Address × Acknowledgement)
  acks_of dealer s = elim (lookup dealer s.acks) [ none ↦ [] | some m ↦ m ]

  -- `len(s.Operators) - 1` is a Go int, so it is -1 for no operators, which no count equals.
  unfoldable pub handle_received_ack :
      Address
      → Address
      → Acknowledgement
      → ProtocolSession F
      → Result SessionError (ProtocolSession F)
  unfolding lookup insert
  handle_received_ack dealer player ack s =
      let of_dealer = insert player ack (acks_of dealer s) in
      if is_some (lookup player (acks_of dealer s))
      then err (duplicate_ack player dealer)
      else ok (record s {
        acks = insert dealer of_dealer s.acks;
        acks_complete = s.acks_complete || length of_dealer + 1 == length s.operators;
      })

  unfoldable pub set_my_generated_shares :
      List (Address × F) → ProtocolSession F → ProtocolSession F
  set_my_generated_shares shares s = record s { my_generated_shares = some shares }

  unfoldable pub get_my_generated_share_for : Address → ProtocolSession F → Option F
  unfolding lookup
  get_my_generated_share_for recipient s = elim s.my_generated_shares [
    | none ↦ none
    | some shares ↦ lookup recipient shares
  ]

  unfoldable pub get_source_versions : ProtocolSession F → List (Address × ℤ)
  get_source_versions s = s.source_versions

  unfoldable pub get_commitments_for : Address → ProtocolSession F → Option (List G2Point)
  unfolding lookup
  get_commitments_for dealer s = lookup dealer s.commitments

-- The fields of Node for the shares that outlive their session.
pub record RetainedShares (F : Type 0) : Type 0 where
  pub by_session : List (ℤ × List (Address × F))
  pub order : List ℤ

abbrev pub retained_share_rounds : ℕ
retained_share_rounds = 4

module _ {F : Type 0} where
  -- The loop that evicts the oldest session while there are too many.
  unfoldable pub evict : List ℤ → List (ℤ × List (Address × F)) → RetainedShares F
  unfolding delete
  evict [] m = record { by_session = m; order = [] }
  evict (oldest ∷ order) m =
      let rest = evict order (delete oldest m) in
      if ltb retained_share_rounds (length (oldest ∷ order))
      then rest
      else record { by_session = m; order = oldest ∷ order }

  unfoldable pub retain_generated_shares :
      ℤ → List (Address × F) → RetainedShares F → RetainedShares F
  unfolding lookup insert evict
  retain_generated_shares t shares n =
      evict (if is_some (lookup t n.by_session) then n.order else n.order ++ (t ∷ []))
        (insert t shares n.by_session)

  unfoldable pub get_retained_generated_share : ℤ → Address → RetainedShares F → Option F
  unfolding lookup
  get_retained_generated_share t recipient n = elim (lookup t n.by_session) [
    | none ↦ none
    | some by_recipient ↦ lookup recipient by_recipient
  ]
