-- ===== src/Commitments.antt =====
-- pkg/bls/polynomial.go: commitments in G2 to the coefficients of a polynomial, and the check of a
-- share against them. A `*G2Point` that is nil, or has no point, is `none`.
pub mod Powers
pub mod Verified
use eigenx_kms_go.Prelude.{
  ℕ, zero, suc, Bool, Option, none, some, List, [], ◌∷◌, Result, ok, err, ◌>>=◌, length, with_error,
  or_error,
}
use eigenx_kms_go.Types.{Address}
use eigenx_kms_go.Field.{Field, ◌⊗◌}
use eigenx_kms_go.Polynomial.{Library, address_to_fr}
use eigenx_kms_go.Curve.{Curve, CurveError, scalar_mul}

pub data VerifyError : Type 0 where
  no_commitments : VerifyError
  share_is_nil : VerifyError
  share_commitment_failed : CurveError → VerifyError
  nil_commitment : ℕ → VerifyError
  multi_exp_failed : VerifyError

module _ {ℓ κ} {F : Type ℓ} ⦃f : Field F⦄ {P : Type κ} (c : Curve F f P) where
  unfoldable pub create_commitments : List F → Result CurveError (List P)
  unfolding scalar_mul
  create_commitments [] = ok []
  create_commitments (k ∷ poly) =
      scalar_mul c c.generator k >>= λ p. create_commitments poly >>= λ ps. ok (p ∷ ps)

  -- `powers`, from `power` on.
  unfoldable pub powers_from : F → F → ℕ → List F
  powers_from x power zero = []
  powers_from x power (suc n) = power ∷ powers_from x (power ⊗ x) n

  unfoldable pub affine_points : ℕ → List (Option P) → Result VerifyError (List P)
  affine_points i [] = ok []
  affine_points i (none ∷ cs) = err (nil_commitment i)
  affine_points i (some p ∷ cs) = affine_points (suc i) cs >>= λ ps. ok (p ∷ ps)

  unfoldable pub verify_share :
      Library F f → Address → Option F → List (Option P) → Result VerifyError Bool
  unfolding scalar_mul powers_from affine_points address_to_fr
  verify_share l a share [] = err no_commitments
  verify_share l a none (d ∷ ds) = err share_is_nil
  verify_share l a (some share) (d ∷ ds) =
      with_error share_commitment_failed (scalar_mul c c.generator share) >>= λ left.
      affine_points 0 (d ∷ ds) >>= λ points.
      or_error multi_exp_failed
        (c.multi_exp points (powers_from (address_to_fr l a) f.one (length (d ∷ ds))))
      >>= λ right. ok (c.point_equal left right)
