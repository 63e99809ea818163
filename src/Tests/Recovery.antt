-- ===== src/Tests/Recovery.antt =====
-- pkg/crypto: partial signatures of the operators 1 and 2, whose shares are of the polynomial 1 + 2x.
use eigenx_kms_go.Prelude.{◌≡◌, refl, Bool, true, false, none, [], ◌∷◌, ok, arith, nat_eq, map}
use eigenx_kms_go.Prelude.Bytes.{be_bytes}
use eigenx_kms_go.Prelude.Maps.{lookup, keys}
use eigenx_kms_go.Prelude.Sorting.{sort, insert_sorted}
use eigenx_kms_go.Types.{G1Point}
use eigenx_kms_go.Field.Sums.{sum}
use eigenx_kms_go.Polynomial.{address_to_fr, compute_lagrange_coefficient, lagrange_loop}
use eigenx_kms_go.Polynomial.Interpolation.{value, constant_of}
use eigenx_kms_go.Curve.{
  scalar_mul, scalar_mul_g1, add_g1, add_points, point_from_compressed_bytes, is_zero_g1,
}
use eigenx_kms_go.Curve.Multiples.{g2_multiple}
use eigenx_kms_go.Recovery.{
  Sigs, recover_app_private_key, recover_app_private_key_capped, compute_master_public_key,
  try_subset, add_scaled, retry_loop, next_combination, movable,
}
use eigenx_kms_go.Recovery.Keys.{g1_multiple, recover_app_private_key-interpolates}
use eigenx_kms_go.Recovery.Answers.{
  EndsBy, recover_app_private_key_capped-exhausted, recover_app_private_key_capped-EndsBy,
}
use eigenx_kms_go.Recovery.Master.{compute_master_public_key-sum}
use eigenx_kms_go.Tests.Scalars.{nought, unit, twice, library, curve, unit_ne_nought, scalars}
use eigenx_kms_go.Tests.Sharing.{dealt, both-IsSeparated}

abbrev sigs : Sigs
sigs = (2, g1_multiple curve twice) ∷ (1, g1_multiple curve nought) ∷ []

recover_app_private_key-interpolates_example :
    recover_app_private_key library curve sigs 2 ≡ ok (g1_multiple curve unit)
unfolding sort insert_sorted keys lookup value constant_of address_to_fr be_bytes
recover_app_private_key-interpolates_example =
    recover_app_private_key-interpolates library curve sigs 2 dealt unit unit_ne_nought
      (omega arith) (omega arith) (omega arith) both-IsSeparated (refl, (refl, tt))

abbrev reject : G1Point → Bool
reject key = false

abbrev accept : G1Point → Bool
accept key = true

recover_app_private_key_capped-exhausted_example :
    try_subset library curve sigs 1 reject (2 ∷ []) ≡ none
unfolding recover_app_private_key_capped retry_loop next_combination movable try_subset
    recover_app_private_key add_scaled compute_lagrange_coefficient lagrange_loop scalar_mul_g1
    add_g1 add_points scalar_mul point_from_compressed_bytes is_zero_g1 sort insert_sorted keys
    lookup address_to_fr be_bytes
recover_app_private_key_capped-exhausted_example =
    recover_app_private_key_capped-exhausted library curve sigs 1 reject 5 2 2 1 (1 ∷ []) refl
      (omega arith, omega arith, tt) refl

recover_app_private_key_capped-EndsBy_example :
    EndsBy 5 (recover_app_private_key_capped library curve sigs 1 reject 5)
recover_app_private_key_capped-EndsBy_example =
    recover_app_private_key_capped-EndsBy library curve sigs 1 reject 5 (omega arith)

compute_master_public_key-sum_example :
    compute_master_public_key curve (map (map (g2_multiple curve)) (dealt ∷ dealt ∷ []))
    ≡ ok (g2_multiple curve twice)
unfolding sum constant_of
compute_master_public_key-sum_example =
    compute_master_public_key-sum curve dealt (dealt ∷ []) (omega arith, (omega arith, tt))
