-- ===== src/Tests/Sharing.antt =====
-- pkg/bls and pkg/dkg with two dealers and a threshold of two: the operators 1 and 2.
use eigenx_kms_go.Prelude.{◌≡◌, ◌≢◌, refl, List, [], ◌∷◌, ok, arith}
use mathlib.Core.List.Permᴰ
use eigenx_kms_go.Prelude.Bytes.{be_bytes}
use eigenx_kms_go.Prelude.Maps.{lookup, insert, keys}
use eigenx_kms_go.Types.{Address}
use eigenx_kms_go.Polynomial.{
  address_to_fr, evaluate_polynomial, recover_secret, generate_shares, shares_loop,
}
use eigenx_kms_go.Polynomial.Interpolation.{IsSeparated}
use eigenx_kms_go.Polynomial.Recovered.{recover_secret-generate_shares}
use eigenx_kms_go.Tests.Scalars.{Scalar, nought, unit, twice, library, unit_ne_nought, scalars}

abbrev pub dealt : List Scalar
dealt = unit ∷ twice ∷ []

abbrev pub same_order : List (Address × Scalar) → List (Address × Scalar)
same_order m = m

abbrev pub both : List Address
both = 1 ∷ 2 ∷ []

abbrev pub shares_of_both : List (Address × Scalar)
shares_of_both = (1, nought) ∷ (2, twice) ∷ []

twice_ne_unit : twice ≢ unit
twice_ne_unit e = ground arith

pub both-IsSeparated : IsSeparated library both
unfolding IsSeparated address_to_fr be_bytes
both-IsSeparated = ((twice_ne_unit, tt), (tt, tt))

recover_secret-generate_shares_example :
    recover_secret library same_order same_order shares_of_both ≡ ok unit
unfolding keys lookup generate_shares shares_loop insert evaluate_polynomial address_to_fr be_bytes
recover_secret-generate_shares_example =
    recover_secret-generate_shares library same_order same_order shares_of_both unit (twice ∷ [])
      both unit_ne_nought (Permᴰ.refl shares_of_both) (Permᴰ.refl shares_of_both) (refl, (refl, tt))
      both-IsSeparated (omega arith)
