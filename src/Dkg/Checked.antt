-- ===== src/Dkg/Checked.antt =====
-- The check of a dealt share in pkg/dkg/dkg.go, and its agreement with the one of pkg/bls/polynomial.go.
use eigenx_kms_go.Prelude.{◌≡◌, ◌↔◌, refl, sym, ap, ◌∙◌, true, List, [], ◌∷◌, ok, map, bind-ok}
use eigenx_kms_go.Types.{Address}
use eigenx_kms_go.Field.{Field, ◌⊕◌, ◌⊗◌, add-zero, mul-zero}
use eigenx_kms_go.Polynomial.{Library, address_to_fr, evaluate_polynomial}
use eigenx_kms_go.Polynomial.Interpolation.{value}
use eigenx_kms_go.Polynomial.Recovered.{evaluate-value}
use eigenx_kms_go.Curve.{Curve, scalar_mul_g2, g2_generator}
use eigenx_kms_go.Curve.Multiples.{
  g2_multiple, scalar_mul_g2-generator, scalar_mul_g2-multiple, add_g2-multiples, is_equal_g2_iff,
}
use eigenx_kms_go.Commitments.Powers.{horner}
use eigenx_kms_go.Dkg.{commit_loop, right_side, sides_equal}

module _ {κ} {F : Type 0} ⦃f : Field F⦄ {P : Type κ} (c : Curve F f P) where
  pub commit_loop-multiples : (poly : List F) → commit_loop c poly ≡ ok (map (g2_multiple c) poly)
  unfolding commit_loop
  commit_loop-multiples [] = refl
  commit_loop-multiples (k ∷ poly) =
      bind-ok _ (scalar_mul_g2-generator c k) ∙ bind-ok _ (commit_loop-multiples poly)

  -- The loop adds the rest of the polynomial to what it has.
  right_side-multiples :
      (x power r : F) (poly : List F)
      → right_side c x power (g2_multiple c r) (map (g2_multiple c) poly)
        ≡ ok (g2_multiple c (r ⊕ (power ⊗ x) ⊗ value poly x))
  unfolding right_side value
  right_side-multiples x power r [] =
      ap (λ s. ok (g2_multiple c s)) (sym (ap (λ s. r ⊕ s) (mul-zero (power ⊗ x)) ∙ add-zero r))
  right_side-multiples x power r (k ∷ poly) =
      let power' = power ⊗ x in
      bind-ok _ (scalar_mul_g2-multiple c k power')
      ∙ (bind-ok _ (add_g2-multiples c r (k ⊗ power'))
          ∙ (right_side-multiples x power' (r ⊕ k ⊗ power') poly
              ∙ ap (λ s. ok (g2_multiple c s))
                  (f.add_assoc r (k ⊗ power') ((power' ⊗ x) ⊗ value poly x)
                    ∙ ap (λ s. r ⊕ s) (horner c k x power' (value poly x)))))

  right_side-value :
      (x k : F) (poly : List F)
      → right_side c x f.one (g2_multiple c k) (map (g2_multiple c) poly)
        ≡ ok (g2_multiple c (value (k ∷ poly) x))
  unfolding value
  right_side-value x k poly =
      right_side-multiples x f.one k poly
      ∙ ap (λ y. ok (g2_multiple c (k ⊕ y ⊗ value poly x))) (f.one-mul x)

  -- Whether the two sides of the check, at commitments to a polynomial, are equal.
  pub sides_equal_iff :
      (l : Library F f) (a : Address) (share k : F) (poly : List F)
      → (sides_equal c
            (scalar_mul_g2 c (g2_generator c) share)
            (right_side c (address_to_fr l a) f.one (g2_multiple c k) (map (g2_multiple c) poly))
          ≡ true)
        ↔ (share ≡ evaluate_polynomial l (k ∷ poly) a)
  sides_equal_iff l a share k poly =
      rw
        (
          scalar_mul_g2-generator c share,
          right_side-value (address_to_fr l a) k poly,
          evaluate-value l k poly a,
        )
        (is_equal_g2_iff c share (value (k ∷ poly) (address_to_fr l a)))
