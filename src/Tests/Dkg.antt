-- ===== src/Tests/Dkg.antt =====
-- pkg/dkg with the operators 1 and 2, who both deal the polynomial 1 + 2x over three elements.
use eigenx_kms_go.Prelude.{
  ℕ, ◌≡◌, ◌↔◌, refl, true, Option, some, List, [], ◌∷◌, ok, arith, ◌==◌, if◌then◌else◌, nat_eq,
}
use mathlib.Core.List.Permᴰ
use eigenx_kms_go.Prelude.Bytes.{be_bytes}
use eigenx_kms_go.Prelude.Maps.{lookup, insert, keys}
use eigenx_kms_go.Types.{Address, G2Point}
use eigenx_kms_go.Peering.{OperatorSetPeer, bn254}
use eigenx_kms_go.Field.Sums.{sum}
use eigenx_kms_go.Polynomial.{address_to_fr, evaluate_polynomial, recover_secret, draw}
use eigenx_kms_go.Polynomial.Interpolation.{constant_of}
use eigenx_kms_go.Commitments.{create_commitments}
use eigenx_kms_go.Commitments
use eigenx_kms_go.Curve.{scalar_mul, scalar_mul_g2, point_from_compressed_bytes}
use eigenx_kms_go.Curve.Multiples.{g2_multiple}
use eigenx_kms_go.Dkg.{
  Dkg, generate_shares, deal, deal_loop, commit_loop, verify_share, finalize_key_share, add_shares,
}
use eigenx_kms_go.Dkg.Dealt.{generate_shares-verify_share, verify_share_agree}
use eigenx_kms_go.Dkg.Finalized.{
  dealt_to, finalize_key_share-verify_share, finalize_key_share-recover_secret,
}
use eigenx_kms_go.Tests.Scalars.{
  Scalar, nought, unit, twice, library, curve, unit_ne_nought, scalars,
}
use eigenx_kms_go.Tests.Sharing.{dealt, same_order, both, both-IsSeparated, shares_of_both}

abbrev operator : Address → OperatorSetPeer
operator a = record { operator_address = a; socket_address = []; curve_type = bn254 }

abbrev node : Address → List Scalar → Dkg Scalar
node a poly = record {
  node_address = a;
  threshold = 2;
  operators = operator 1 ∷ operator 2 ∷ [];
  poly = poly;
}

abbrev random : ℕ → Option Scalar
random i = some (if i == 0 then unit else twice)

abbrev commitments : List G2Point
commitments = g2_multiple curve unit ∷ g2_multiple curve twice ∷ []

generate_shares-verify_share_example :
    (verify_share library curve (node 1 []) (some nought) commitments ≡ true) ↔ (nought ≡ nought)
unfolding generate_shares deal deal_loop commit_loop draw insert lookup evaluate_polynomial
    address_to_fr be_bytes scalar_mul_g2 scalar_mul point_from_compressed_bytes
generate_shares-verify_share_example =
    generate_shares-verify_share library curve random (node 2 []) (node 2 dealt) (node 1 [])
      shares_of_both commitments nought nought (omega arith) refl refl

verify_share_agree_example :
    (verify_share library curve (node 1 []) (some nought) commitments ≡ true) ↔ (
      Commitments.verify_share curve library 1 (some nought) (some unit ∷ some twice ∷ [])
      ≡ ok true)
unfolding commit_loop create_commitments scalar_mul_g2 scalar_mul point_from_compressed_bytes
verify_share_agree_example =
    verify_share_agree library curve (node 1 []) nought dealt commitments (unit ∷ twice ∷ [])
      (omega arith) refl refl

abbrev deals : List (Address × List Scalar)
deals = (1, dealt) ∷ (2, dealt) ∷ []

finalize_key_share-verify_share_example :
    verify_share library curve
      (node 2 [])
      (finalize_key_share library curve
        (node 2 [])
        (dealt_to library 2 deals)
        (commitments ∷ commitments ∷ [])
        both).private_share
      (finalize_key_share library curve
        (node 2 [])
        (dealt_to library 2 deals)
        (commitments ∷ commitments ∷ [])
        both).commitments
    ≡ true
finalize_key_share-verify_share_example =
    finalize_key_share-verify_share library curve (node 2 []) (1, dealt) ((2, dealt) ∷ [])
      (dealt_to library 2 deals) both (omega arith) (refl, (refl, tt))
      (Permᴰ.refl (dealt_to library 2 deals))

abbrev finals : List (Address × Scalar)
finals = (1, nought) ∷ (2, unit) ∷ []

finalize_key_share-recover_secret_example :
    recover_secret library same_order same_order finals ≡ ok twice
unfolding finalize_key_share add_shares evaluate_polynomial address_to_fr be_bytes keys sum
    constant_of
finalize_key_share-recover_secret_example =
    finalize_key_share-recover_secret library curve 2 deals (λ a. node a [])
      (λ a. dealt_to library a deals) (commitments ∷ commitments ∷ []) both same_order same_order
      finals unit_ne_nought (omega arith) (refl, (refl, tt))
      (Permᴰ.refl (dealt_to library 1 deals), (Permᴰ.refl (dealt_to library 2 deals), tt))
      (refl, (refl, tt)) both-IsSeparated (omega arith) (Permᴰ.refl finals) (Permᴰ.refl finals)
