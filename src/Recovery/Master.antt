-- ===== src/Recovery/Master.antt =====
-- The master public key of pkg/crypto/bls.go: the key of the sum of the dealers' secrets.
use eigenx_kms_go.Prelude.{
  ◌<◌, ◌≡◌, refl, sym, ap, ◌∙◌, not, List, [], ◌∷◌, All, map, length, ok, err, guard, ◌>>◌,
  with_error, if◌then◌else◌, bind-ok, Bool_ext, arith, Bool-cases, inl, inr,
}
use eigenx_kms_go.Field.{Field, ◌⊕◌, add-zero}
use eigenx_kms_go.Field.Sums.{sum}
use eigenx_kms_go.Polynomial.Interpolation.{constant_of}
use eigenx_kms_go.Curve.{Curve, is_zero_g2}
use eigenx_kms_go.Curve.Multiples.{
  multiple, g2_multiple, decode_point, in_sub_group, add_g2-multiples, add_g2-zero,
}
use eigenx_kms_go.Recovery.{
  add_first_commitments, compute_master_public_key, key_is_zero, curve_failed,
}

module _ {κ} {F : Type 0} ⦃f : Field F⦄ {P : Type κ} (c : Curve F f P) where
  add_first_commitments-multiples :
      (polys : List (List F)) (k : F)
      → All (λ g. 0 < length g) polys
      → add_first_commitments c (map (map (g2_multiple c)) polys) (g2_multiple c k)
        ≡ ok (g2_multiple c (k ⊕ sum polys constant_of))
  unfolding add_first_commitments sum constant_of
  add_first_commitments-multiples [] k h = ap (λ v. ok (g2_multiple c v)) (sym (add-zero k))
  add_first_commitments-multiples ([] ∷ polys) k h = absurd (omega (arith, h.0))
  add_first_commitments-multiples ((x ∷ g) ∷ polys) k h =
      bind-ok _ (add_g2-multiples c k x)
      ∙ (add_first_commitments-multiples polys (k ⊕ x) h.1
          ∙ ap (λ v. ok (g2_multiple c v)) (f.add_assoc k x (sum polys constant_of)))

  is_zero_g2-multiple : (k : F) → is_zero_g2 c (g2_multiple c k) ≡ ok (f.is_zero k)
  unfolding is_zero_g2
  is_zero_g2-multiple k =
      bind-ok _ (decode_point c (in_sub_group c k))
      ∙ ap (λ b. ok b)
          (Bool_ext (c.is_infinity (multiple c k)) (f.is_zero k) (
            (λ h. (f.is_zero_iff k).1 (
                c.multiple_injective k f.zero
                  ((c.is_infinity_iff (multiple c k)).0 h ∙ sym c.multiple-zero))),
            (λ h.
                (c.is_infinity_iff (multiple c k)).1
                  (ap (multiple c) ((f.is_zero_iff k).0 h) ∙ c.multiple-zero)),
          ))

  refuse :
      (k : F)
      → (guard (not (f.is_zero k)) key_is_zero >> ok (g2_multiple c k))
        ≡ (if f.is_zero k then err key_is_zero else ok (g2_multiple c k))
  refuse k = elim (Bool-cases (f.is_zero k)) [ inl y ↦ rw y refl | inr y ↦ rw y refl ]

  -- At commitments to polynomials, one or more of them and each with a coefficient, the master public
  -- key is the multiple of the generator by the sum of the polynomials' constants; zero is refused.
  pub compute_master_public_key-sum :
      (g : List F) (polys : List (List F))
      → All (λ g'. 0 < length g') (g ∷ polys)
      → let secret = sum (g ∷ polys) constant_of in
        compute_master_public_key c (map (map (g2_multiple c)) (g ∷ polys))
        ≡ (if f.is_zero secret then err key_is_zero else ok (g2_multiple c secret))
  unfolding compute_master_public_key add_first_commitments sum constant_of
  compute_master_public_key-sum [] polys h = absurd (omega (arith, h.0))
  compute_master_public_key-sum (x ∷ g) polys h =
      let secret = x ⊕ sum polys constant_of in
      bind-ok _ (
        ap (with_error curve_failed) (
          bind-ok _ (add_g2-zero c x)
          ∙ (add_first_commitments-multiples polys (f.zero ⊕ x) h.1
              ∙ ap (λ v. ok (g2_multiple c (v ⊕ sum polys constant_of))) (f.zero-add x))))
      ∙ (bind-ok _ (ap (with_error curve_failed) (is_zero_g2-multiple secret)) ∙ refuse secret)
