-- ===== src/Commitments/Powers.antt =====
-- The multi-exponentiation of pkg/bls/polynomial.go over the powers of a participant's identifier.
use eigenx_kms_go.Prelude.{
  ℕ, zero, suc, ◌≡◌, refl, sym, ap, ◌∙◌, some, List, [], ◌∷◌, ok, map, length,
}
use eigenx_kms_go.Field.{Field, ◌⊕◌, ◌⊗◌, mul-zero}
use eigenx_kms_go.Polynomial.Interpolation.{value}
use eigenx_kms_go.Curve.{Curve, combination}
use eigenx_kms_go.Curve.Multiples.{multiple}
use eigenx_kms_go.Commitments.{powers_from, affine_points}

module _ {ℓ κ} {F : Type ℓ} ⦃f : Field F⦄ {P : Type κ} (c : Curve F f P) where
  -- The step that Horner's rule and the powers share.
  pub horner : (k x power v : F) → k ⊗ power ⊕ (power ⊗ x) ⊗ v ≡ power ⊗ (k ⊕ x ⊗ v)
  horner k x power v =
      rw (f.mul_comm k power, f.mul_assoc power x v) (sym (f.mul-add power k (x ⊗ v)))

  pub combination-powers :
      (poly : List F) (x power : F)
      → combination c.add c.scalar_multiplication c.infinity
          (map (multiple c) poly)
          (powers_from c x power (length poly))
        ≡ multiple c (power ⊗ value poly x)
  unfolding combination powers_from value
  combination-powers [] x power = sym c.multiple-zero ∙ ap (multiple c) (sym (mul-zero power))
  combination-powers (k ∷ poly) x power =
      rw
        (
          combination-powers poly x (power ⊗ x),
          c.multiple-multiple c.generator k power c.generator_in,
          c.add-multiples c.generator (k ⊗ power) ((power ⊗ x) ⊗ value poly x) c.generator_in,
        )
        (ap (multiple c) (horner k x power (value poly x)))

  pub length-powers_from : (x power : F) (n : ℕ) → length (powers_from c x power n) ≡ n
  unfolding powers_from
  length-powers_from x power zero = refl
  length-powers_from x power (suc n) = ap suc (length-powers_from x (power ⊗ x) n)

  pub affine_points-some : (i : ℕ) (ps : List P) → affine_points c i (map (λ p. some p) ps) ≡ ok ps
  unfolding affine_points
  affine_points-some i [] = refl
  affine_points-some i (p ∷ ps) = rw (affine_points-some (suc i) ps) refl
