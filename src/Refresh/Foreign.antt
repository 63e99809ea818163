-- ===== src/Refresh/Foreign.antt =====
-- One dealer that deals from another sharing: the check of the master public key in
-- pkg/reshare/reshare.go finds it.
use eigenx_kms_go.Prelude.{
  ◌<◌, ◌≤◌, ◌≡◌, ◌≢◌, sym, ap, ◌∙◌, Option, some, List, ◌∷◌, All, All-map_of, All-perm, length, err,
  nat_eq,
}
use mathlib.Core.Path.{fun_ext}
use mathlib.Core.List.{Permᴰ}
use eigenx_kms_go.Types.{Address, G2Point}
use eigenx_kms_go.Field.{Field, ◌⊕◌, ◌⊗◌, mul_cancel, add_cancel}
use eigenx_kms_go.Field.Sums.{sum, sum_congr, sum_perm}
use eigenx_kms_go.Polynomial.{
  Library, address_to_fr, evaluate_polynomial, compute_lagrange_coefficient,
}
use eigenx_kms_go.Polynomial.Coefficients.{IsApart, coefficient_ne_zero}
use eigenx_kms_go.Polynomial.Interpolation.{
  constant_of, IsSeparated, IsSeparated-IsApart, interpolate, interpolate-value,
}
use eigenx_kms_go.Polynomial.Recovered.{evaluate-value_lem}
use eigenx_kms_go.Curve.{Curve}
use eigenx_kms_go.Curve.Multiples.{g2_multiple}
use eigenx_kms_go.Refresh.{validate_reshare_master_public_key, key_mismatch}
use eigenx_kms_go.Refresh.Validated.{CommitTo, validate_reshare_master_public_key_lem}

module _ {κ} {F : Type 0} ⦃f : Field F⦄ (l : Library F f) {P : Type κ} (c : Curve F f P) where
  -- Interpolations that differ at one participant only are equal only if they do not differ there.
  interpolate_differs :
      (ps others : List Address) (e : Address) (g h : Address → F)
      → f.one ≢ f.zero
      → IsSeparated l ps
      → All (λ i. address_to_fr l i ≢ f.zero) ps
      → Permᴰ ps (e ∷ others)
      → All (λ i. g i ≡ h i) others
      → interpolate l ps g ≡ interpolate l ps h
      → g e ≡ h e
  unfolding sum
  interpolate_differs ps others e g h o s z p a q =
      let k : Address → F = λ i. compute_lagrange_coefficient l i ps in
      let apart : IsApart l e ps =
        (All-perm (λ i. IsApart l i ps) p (IsSeparated-IsApart l ps s)).0 in
      let rest : sum others (λ i. k i ⊗ g i) ≡ sum others (λ i. k i ⊗ h i) = sum_congr others _ _ (
        All-map_of (λ i. g i ≡ h i) (λ i. k i ⊗ g i ≡ k i ⊗ h i) (λ i e'. ap (λ v. k i ⊗ v) e')
          others a) in
      let both : k e ⊗ g e ⊕ sum others (λ i. k i ⊗ h i) ≡ k e ⊗ h e ⊕ sum others (λ i. k i ⊗ h i) =
        ap (λ v. k e ⊗ g e ⊕ v) (sym rest)
        ∙ (sym (sum_perm (λ i. k i ⊗ g i) p) ∙ (q ∙ sum_perm (λ i. k i ⊗ h i) p)) in
      mul_cancel (k e) (g e) (h e) (coefficient_ne_zero l e ps o apart z) (
        add_cancel (sum others (λ i. k i ⊗ h i)) (k e ⊗ g e) (k e ⊗ h e)
          (f.add_comm _ _ ∙ (both ∙ f.add_comm _ _)))

  -- If all dealers but `e` commit to their shares of the polynomial `old` and `e` commits to another
  -- value than its share, then the check against the key of the secret of `old` fails with a mismatch
  -- of the keys. The dealers have pairwise different identifiers, none of them zero, and there are at
  -- least as many as `old` has coefficients.
  pub validate_reshare_master_public_key-foreign_dealer :
      (d : Address) (ds others : List Address) (e : Address) (old : List F)
      (commitments : Address → Option (List G2Point)) (x : Address → F)
      → f.one ≢ f.zero
      → 0 < length old
      → length old ≤ length (d ∷ ds)
      → IsSeparated l (d ∷ ds)
      → All (λ i. address_to_fr l i ≢ f.zero) (d ∷ ds)
      → CommitTo l c commitments x (d ∷ ds)
      → Permᴰ (d ∷ ds) (e ∷ others)
      → All (λ i. x i ≡ evaluate_polynomial l old i) others
      → x e ≢ evaluate_polynomial l old e
      → validate_reshare_master_public_key l c
          (d ∷ ds)
          commitments
          (some (g2_multiple c (constant_of old)))
        ≡ err key_mismatch
  validate_reshare_master_public_key-foreign_dealer d ds others e old commitments x o p n s z h q a
        b =
      (validate_reshare_master_public_key_lem l c d ds commitments x (constant_of old) h).1 (λ same.
        b (
          interpolate_differs (d ∷ ds) others e x (evaluate_polynomial l old) o s z q a (
            same
            ∙ (sym (interpolate-value l old (d ∷ ds) o s n)
                ∙ ap (interpolate l (d ∷ ds))
                    (sym (fun_ext (λ i. evaluate-value_lem l old i p)))))))
