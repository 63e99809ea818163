-- ===== src/Tests/Dealers.antt =====
-- The dealers of a reshare from the operators 1, 2 and 3 to the operators 2, 3 and 4.
use eigenx_kms_go.Prelude.{
  ℕ, ◌+◌, ◌*◌, ◌≡◌, refl, false, Option, none, some, List, [], ◌∷◌, replicate, list_beq, bytes_eq,
  if◌then◌else◌, ◌==◌, arith, nat_eq,
}
use eigenx_kms_go.Prelude.Int.{ℤ, pos}
use eigenx_kms_go.Types.{Address, G2Point, Hash}
use eigenx_kms_go.Peering.{OperatorSetPeer, bn254}
use eigenx_kms_go.Prelude.Bytes.{be_bytes}
use eigenx_kms_go.Crypto.{hash_reshare_commitment, commitment_bytes}
use eigenx_kms_go.Dealers.{View, Attempt, got, failed, dealer_checks}
use eigenx_kms_go.Dealers.Verified.{verified_version_agrees}

abbrev peer : ℕ → OperatorSetPeer
peer a = record { operator_address = a; socket_address = []; curve_type = bn254 }

abbrev next_operators : List OperatorSetPeer
next_operators = peer 2 ∷ peer 3 ∷ peer 4 ∷ []

abbrev identity_hash : List ℕ → Hash
identity_hash bytes = bytes

abbrev commitments_of : Address → List G2Point
commitments_of d = (record { compressed_bytes = d ∷ [] }) ∷ []

abbrev from_200 : Address → Option ℤ
from_200 d = some (pos 200)

-- The hash of dealer `d` on chain: its commitment and the version 200 in eight bytes.
abbrev on_chain : Address → Option Hash
on_chain d = some (d ∷ 0 ∷ 0 ∷ 0 ∷ 0 ∷ 0 ∷ 0 ∷ 0 ∷ 200 ∷ [])

abbrev one_and_two : List Address
one_and_two = 1 ∷ 2 ∷ []

verified_version_agrees_example : from_200 2 ≡ from_200 2
unfolding dealer_checks hash_reshare_commitment commitment_bytes be_bytes list_beq
verified_version_agrees_example =
    verified_version_agrees identity_hash on_chain commitments_of commitments_of from_200 from_200 2
      (λ xs ys e. e) (λ v e. ground arith) (λ v e. ground arith) refl refl

abbrev registry : Address → Hash
registry d = if d == 4 then replicate 32 0 else replicate 32 d

abbrev l1_time : ℕ → ℕ
l1_time b = 12 * b

abbrev l2_block : ℕ → ℕ
l2_block t = t + 7

abbrev not_yet : View
not_yet = record {
  header_timestamp_at = λ b. none;
  first_block_at_or_after_timestamp = λ t. none;
  late = false;
}

abbrev both_chains : View
both_chains = record {
  header_timestamp_at = λ b. some (l1_time b);
  first_block_at_or_after_timestamp = λ t. some (l2_block t);
  late = false;
}

abbrev reads_of : ℕ → Address → List (Attempt Hash)
reads_of h d = failed false ∷ got (registry d) ∷ []

abbrev agreed_result : List Address × List (Address × Hash)
agreed_result = (2 ∷ 3 ∷ [], (2, replicate 32 2) ∷ (3, replicate 32 3) ∷ [])
