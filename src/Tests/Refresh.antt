-- ===== src/Tests/Refresh.antt =====
-- pkg/reshare with the dealers 1 and 2, whose shares are of the polynomial 1 + 2x over three elements.
use eigenx_kms_go.Prelude.{
  ◌≡◌, ◌≢◌, refl, Option, none, some, List, [], ◌∷◌, ok, err, map, arith, ◌==◌, if◌then◌else◌,
  nat_eq, list_beq, false,
}
use mathlib.Core.List.Permᴰ
use eigenx_kms_go.Prelude.Bytes.{be_bytes}
use eigenx_kms_go.Prelude.Int.{pos}
use eigenx_kms_go.Prelude.Maps.{lookup, keys}
use eigenx_kms_go.Types.{Address, G2Point, KeyShareVersion}
use eigenx_kms_go.Peering.{OperatorSetPeer, bn254}
use eigenx_kms_go.Polynomial.{
  address_to_fr, evaluate_polynomial, recover_secret, compute_lagrange_coefficient, lagrange_loop,
}
use eigenx_kms_go.Polynomial.Interpolation.{constant_of}
use eigenx_kms_go.Curve.{scalar_mul, scalar_mul_g2, point_from_compressed_bytes, add_g2, add_points}
use eigenx_kms_go.Curve.Multiples.{g2_multiple}
use eigenx_kms_go.Refresh.{
  Reshare, compute_new_key_share, new_share_loop, key_mismatch, validate_reshare_master_public_key,
  key_loop, accumulate,
}
use eigenx_kms_go.Refresh.Preserved.{Refreshes}
use eigenx_kms_go.Refresh.Secret.{
  validate_reshare_master_public_key-recover_secret, reshare-DealFrom,
}
use eigenx_kms_go.Refresh.Foreign.{validate_reshare_master_public_key-foreign_dealer}
use eigenx_kms_go.Tests.Scalars.{
  Scalar, nought, unit, twice, library, curve, unit_ne_nought, twice_ne_nought, scalars,
}
use eigenx_kms_go.Tests.Sharing.{dealt, same_order, both, both-IsSeparated}

abbrev operator : Address → OperatorSetPeer
operator a = record { operator_address = a; socket_address = []; curve_type = bn254 }

abbrev node : Address → List Scalar → Reshare Scalar
node a poly = record { node_address = a; operators = operator 1 ∷ operator 2 ∷ []; poly = poly }

-- The dealer 1 has the share 0 and deals x; the dealer 2 has the share 2 and deals 2 + x.
abbrev poly_of : Address → List Scalar
poly_of d = (if d == 1 then nought else twice) ∷ unit ∷ []

abbrev published : Address → Option (List G2Point)
published d = some (map (g2_multiple curve) (poly_of d))

abbrev new_shares : List (Address × Scalar)
new_shares = (1, twice) ∷ (2, nought) ∷ []

abbrev received : Address → List (Address × Scalar)
received a =
    (1, evaluate_polynomial library (poly_of 1) a)
    ∷ (2, evaluate_polynomial library (poly_of 2) a)
    ∷ []

abbrev key_share_of : Scalar → Scalar → KeyShareVersion Scalar
key_share_of share scaled = record {
  version = pos 0;
  private_share = some share;
  commitments = g2_multiple curve scaled ∷ [];
  master_public_key = none;
  is_active = false;
  participant_ids = both;
}

first-Refreshes : Refreshes library curve 1 (2 ∷ []) poly_of 1 twice
unfolding lookup compute_new_key_share new_share_loop compute_lagrange_coefficient lagrange_loop
    evaluate_polynomial address_to_fr be_bytes scalar_mul_g2 scalar_mul point_from_compressed_bytes
first-Refreshes = record {
  operator = node 1 [];
  received = received 1;
  all_commitments = [];
  key_share = key_share_of twice unit;
  received_all = (refl, (refl, tt));
  computed = refl;
  private_share = refl;
}

second-Refreshes : Refreshes library curve 1 (2 ∷ []) poly_of 2 nought
unfolding lookup compute_new_key_share new_share_loop compute_lagrange_coefficient lagrange_loop
    evaluate_polynomial address_to_fr be_bytes scalar_mul_g2 scalar_mul point_from_compressed_bytes
second-Refreshes = record {
  operator = node 2 [];
  received = received 2;
  all_commitments = [];
  key_share = key_share_of nought nought;
  received_all = (refl, (refl, tt));
  computed = refl;
  private_share = refl;
}

validate_reshare_master_public_key-recover_secret_example :
    recover_secret library same_order same_order new_shares ≡ ok unit
unfolding validate_reshare_master_public_key key_loop accumulate compute_lagrange_coefficient
    lagrange_loop address_to_fr be_bytes scalar_mul_g2 scalar_mul point_from_compressed_bytes keys
    add_g2 add_points list_beq
validate_reshare_master_public_key-recover_secret_example =
    validate_reshare_master_public_key-recover_secret library curve 2 1 (2 ∷ []) poly_of published
      unit same_order same_order new_shares unit_ne_nought (omega arith) (refl, (refl, tt))
      (refl, (refl, tt)) (first-Refreshes, (second-Refreshes, tt)) both-IsSeparated (omega arith)
      (Permᴰ.refl new_shares) (Permᴰ.refl new_shares) refl

reshare-DealFrom_example :
    (validate_reshare_master_public_key library curve both published (some (g2_multiple curve unit))
      ≡ ok tt)
    × (recover_secret library same_order same_order new_shares ≡ ok unit)
unfolding evaluate_polynomial address_to_fr be_bytes keys constant_of
reshare-DealFrom_example =
    reshare-DealFrom library curve 2 1 (2 ∷ []) dealt poly_of published same_order same_order
      new_shares unit_ne_nought (omega arith) (omega arith) (omega arith) both-IsSeparated
      (refl, (refl, tt)) (refl, (refl, tt)) (refl, (refl, tt))
      (first-Refreshes, (second-Refreshes, tt)) both-IsSeparated (omega arith)
      (Permᴰ.refl new_shares) (Permᴰ.refl new_shares)

-- The dealer 1 commits to 1, where its share is 0.
abbrev foreign_published : Address → Option (List G2Point)
foreign_published d = some (g2_multiple curve (if d == 1 then unit else twice) ∷ [])

unit_ne_share : unit ≢ evaluate_polynomial library dealt 1
unfolding evaluate_polynomial address_to_fr be_bytes
unit_ne_share e = ground arith

validate_reshare_master_public_key-foreign_dealer_example :
    validate_reshare_master_public_key library curve both foreign_published
      (some (g2_multiple curve unit))
    ≡ err key_mismatch
unfolding evaluate_polynomial address_to_fr be_bytes constant_of
validate_reshare_master_public_key-foreign_dealer_example =
    validate_reshare_master_public_key-foreign_dealer library curve 1 (2 ∷ []) (2 ∷ []) 1 dealt
      foreign_published (λ d. if d == 1 then unit else twice) unit_ne_nought (omega arith)
      (omega arith) both-IsSeparated (unit_ne_nought, (twice_ne_nought, tt))
      (([], refl), (([], refl), tt)) (Permᴰ.refl both) (refl, tt) unit_ne_share
