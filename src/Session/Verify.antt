-- ===== src/Session/Verify.antt =====
-- pkg/node/node.go, VerifyOperatorBroadcast: a dealer's broadcast against the share that it sent to this
-- node. A nil pointer is `none`; the acknowledgements of a broadcast are not nil.
pub mod Accepted
use eigenx_kms_go.Prelude.{
  ℕ, Bool, true, false, Option, none, some, List, [], ◌∷◌, Result, ok, err, ◌==◌, if◌then◌else◌,
  nat_eq, list_beq,
}
use eigenx_kms_go.Prelude.Maps.{lookup, insert}
use eigenx_kms_go.Types.{Address, Hash, Acknowledgement, CommitmentBroadcast}
use eigenx_kms_go.Crypto.{hash_share_for_ack}
use eigenx_kms_go.Session.{ProtocolSession}

pub data VerifyError : Type 0 where
  nil_broadcast session_not_found my_ack_not_found merkle_proof_empty : VerifyError
  no_share_received share_hash_mismatch : Address → VerifyError

-- The first acknowledgement of this node.
unfoldable pub find_ack : Address → List Acknowledgement → Option Acknowledgement
find_ack me [] = none
find_ack me (ack ∷ acks) = if ack.player_address == me then some ack else find_ack me acks

abbrev pub is_empty_proof : List Hash → Bool
is_empty_proof [] = true
is_empty_proof (h ∷ hs) = false

module _ {F : Type 0} (keccak256 : List ℕ → Hash) (share_bytes : F → List ℕ) (me : Address) where
  -- Steps 4 and 5, for the acknowledgement and the received share.
  unfoldable pub check_share :
      Acknowledgement
      → Option (Option F)
      → CommitmentBroadcast
      → ProtocolSession F
      → Result VerifyError (ProtocolSession F)
  unfolding hash_share_for_ack list_beq insert
  check_share ack none b s = err (no_share_received b.from_operator_address)
  check_share ack (some none) b s = err (no_share_received b.from_operator_address)
  check_share ack (some (some share)) b s =
      if list_beq ack.share_hash (hash_share_for_ack keccak256 share_bytes share)
      then (if is_empty_proof b.merkle_proof
          then err merkle_proof_empty
          else ok (record s {
            verified_operators = insert b.from_operator_address true s.verified_operators;
          }))
      else err (share_hash_mismatch b.from_operator_address)

  unfoldable pub check_ack :
      Option Acknowledgement
      → CommitmentBroadcast
      → ProtocolSession F
      → Result VerifyError (ProtocolSession F)
  unfolding check_share lookup
  check_ack none b s = err my_ack_not_found
  check_ack (some ack) b s = check_share ack (lookup b.from_operator_address s.shares) b s

  unfoldable pub verify_operator_broadcast :
      Option CommitmentBroadcast
      → Option (ProtocolSession F)
      → Result VerifyError (ProtocolSession F)
  unfolding check_ack find_ack
  verify_operator_broadcast none s = err nil_broadcast
  verify_operator_broadcast (some b) none = err session_not_found
  verify_operator_broadcast (some b) (some s) = check_ack (find_ack me b.acknowledgements) b s
