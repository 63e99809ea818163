-- ===== src/Commitments/Verified.antt =====
-- The check of a share in pkg/bls/polynomial.go accepts the committed polynomial's value only.
use eigenx_kms_go.Prelude.{
  ◌≡◌, ◌↔◌, refl, sym, ap, ◌∙◌, Bool, true, some, List, [], ◌∷◌, ok, map, length, length-map,
  bind-ok, ok-injective, with_error, or_error,
}
use eigenx_kms_go.Types.{Address}
use eigenx_kms_go.Field.{Field}
use eigenx_kms_go.Polynomial.{Library, address_to_fr, evaluate_polynomial}
use eigenx_kms_go.Polynomial.Interpolation.{value}
use eigenx_kms_go.Polynomial.Recovered.{evaluate-value}
use eigenx_kms_go.Curve.{Curve}
use eigenx_kms_go.Curve.Multiples.{multiple, scalar_mul_in}
use eigenx_kms_go.Commitments.{
  create_commitments, verify_share, powers_from, share_commitment_failed, multi_exp_failed,
}
use eigenx_kms_go.Commitments.Powers.{combination-powers, affine_points-some, length-powers_from}

module _ {ℓ κ} {F : Type ℓ} ⦃f : Field F⦄ {P : Type κ} (c : Curve F f P) where
  pub create_commitments-multiples :
      (poly : List F) → create_commitments c poly ≡ ok (map (multiple c) poly)
  unfolding create_commitments
  create_commitments-multiples [] = refl
  create_commitments-multiples (k ∷ poly) =
      rw (create_commitments, scalar_mul_in c k c.generator_in, create_commitments-multiples poly)
        refl

  module _ (l : Library F f) where
    verify_share-points :
        (a : Address) (share k : F) (poly : List F)
        → verify_share c l a (some share) (map (λ p. some p) (map (multiple c) (k ∷ poly)))
          ≡ ok
              (c.point_equal (multiple c share) (multiple c (value (k ∷ poly) (address_to_fr l a))))
    unfolding verify_share
    verify_share-points a share k poly =
        let x = address_to_fr l a in
        let points = map (multiple c) (k ∷ poly) in
        let n : length (map (λ p. some p) points) ≡ length (k ∷ poly) =
          length-map (λ p. some p) points ∙ length-map (multiple c) (k ∷ poly) in
        bind-ok _ (ap (with_error share_commitment_failed) (scalar_mul_in c share c.generator_in))
        ∙ (bind-ok _ (affine_points-some c 0 points)
            ∙ (bind-ok _ (
                  ap (or_error multi_exp_failed) (
                    ap (λ m. c.multi_exp points (powers_from c x f.one m)) n
                    ∙ (c.multi_exp_lem points (powers_from c x f.one (length (k ∷ poly))) (
                          length-map (multiple c) (k ∷ poly)
                          ∙ sym (length-powers_from c x f.one (length (k ∷ poly))))
                        ∙ ap some (combination-powers c (k ∷ poly) x f.one))))
                ∙ ap (λ v. ok (c.point_equal (multiple c share) (multiple c v)))
                    (f.one-mul (value (k ∷ poly) x))))

    -- A participant's share is checked against the commitments that were made of a polynomial with
    -- at least one coefficient: the check gives no error, and it accepts exactly the value of the
    -- polynomial at the participant.
    pub verify_share-create_commitments :
        (a : Address) (share k : F) (poly : List F) (points : List P)
        → create_commitments c (k ∷ poly) ≡ ok points
        → (b : Bool) × (verify_share c l a (some share) (map (λ p. some p) points) ≡ ok b)
          × ((b ≡ true) ↔ (share ≡ evaluate_polynomial l (k ∷ poly) a))
    verify_share-create_commitments a share k poly points e =
        let x = address_to_fr l a in
        let v = value (k ∷ poly) x in
        let same : points ≡ map (multiple c) (k ∷ poly) =
          ok-injective (sym e ∙ create_commitments-multiples (k ∷ poly)) in
        let t = c.point_equal_iff (multiple c share) (multiple c v) in
        (
          c.point_equal (multiple c share) (multiple c v),
          ap (λ ps. verify_share c l a (some share) (map (λ p. some p) ps)) same
              ∙ verify_share-points a share k poly,
          (
            (λ h. c.multiple_injective share v (t.0 h) ∙ sym (evaluate-value l k poly a)),
            (λ h. t.1 (ap (multiple c) (h ∙ evaluate-value l k poly a))),
          ),
        )
