-- ===== src/Refresh/Validated.antt =====
-- The check of the master public key in pkg/reshare/reshare.go: the commitments to the dealers'
-- secrets, interpolated, must be the expected key.
use eigenx_kms_go.Prelude.{
  ◌≡◌, ◌≢◌, ◌↔◌, sym, ap, ◌∙◌, guard_iff, Option, none, some, List, [], ◌∷◌, All, ok, err, bind-ok,
  with_error, nat_eq,
}
use mathlib.Core.Path.{fun_ext}
use eigenx_kms_go.Types.{Address, G2Point}
use eigenx_kms_go.Field.{Field, ◌⊕◌, ◌⊗◌, add-zero}
use eigenx_kms_go.Field.Sums.{sum}
use eigenx_kms_go.Polynomial.{Library, compute_lagrange_coefficient}
use eigenx_kms_go.Polynomial.Interpolation.{interpolate}
use eigenx_kms_go.Curve.{Curve, is_equal_g2}
use eigenx_kms_go.Curve.Multiples.{
  g2_multiple, scalar_mul_g2-multiple, add_g2-multiples, is_equal_g2_iff,
}
use eigenx_kms_go.Refresh.{
  key_mismatch, key_loop, accumulate, first_commitment, compare_key, scale_failed,
  accumulate_failed, validate_reshare_master_public_key,
}

module _ {κ} {F : Type 0} ⦃f : Field F⦄ (l : Library F f) {P : Type κ} (c : Curve F f P) where
  -- The first commitment of each dealer commits to `x d`.
  abbrev pub CommitTo : (Address → Option (List G2Point)) → (Address → F) → List Address → Type 0
  CommitTo commitments x ds =
      All (λ d. (rest : List G2Point) × (commitments d ≡ some (g2_multiple c (x d) ∷ rest))) ds

  term : List Address → (Address → F) → Address → F
  term dealers x d = x d ⊗ compute_lagrange_coefficient l d dealers

  key_loop-some :
      (dealers ds : List Address) (commitments : Address → Option (List G2Point)) (x : Address → F)
      (acc : F)
      → CommitTo commitments x ds
      → key_loop l c dealers ds commitments (some (g2_multiple c acc))
        ≡ ok (some (g2_multiple c (acc ⊕ sum ds (term dealers x))))
  unfolding key_loop accumulate sum term
  key_loop-some dealers [] commitments x acc h =
      ap (λ s. ok (some (g2_multiple c s))) (sym (add-zero acc))
  key_loop-some dealers (d ∷ ds) commitments x acc h =
      let k = compute_lagrange_coefficient l d dealers in
      bind-ok _ (ap (first_commitment d) h.0.1)
      ∙ (bind-ok _ (ap (with_error scale_failed) (scalar_mul_g2-multiple c (x d) k))
          ∙ (bind-ok _ (ap (with_error accumulate_failed) (add_g2-multiples c acc (x d ⊗ k)))
              ∙ (key_loop-some dealers ds commitments x (acc ⊕ x d ⊗ k) h.1
                  ∙ ap (λ s. ok (some (g2_multiple c s)))
                      (f.add_assoc acc (x d ⊗ k) (sum ds (term dealers x))))))

  key_loop-interpolate :
      (d : Address) (ds : List Address) (commitments : Address → Option (List G2Point))
      (x : Address → F)
      → CommitTo commitments x (d ∷ ds)
      → key_loop l c (d ∷ ds) (d ∷ ds) commitments none
        ≡ ok (some (g2_multiple c (interpolate l (d ∷ ds) x)))
  unfolding key_loop accumulate sum term
  key_loop-interpolate d ds commitments x h =
      let k = compute_lagrange_coefficient l d (d ∷ ds) in
      bind-ok _ (ap (first_commitment d) h.0.1)
      ∙ (bind-ok _ (ap (with_error scale_failed) (scalar_mul_g2-multiple c (x d) k))
          ∙ (key_loop-some (d ∷ ds) ds commitments x (x d ⊗ k) h.1
              ∙ ap (λ t. ok (some (g2_multiple c (sum (d ∷ ds) t))))
                  (fun_ext (λ e. f.mul_comm (x e) (compute_lagrange_coefficient l e (d ∷ ds))))))

  validate-compare :
      (d : Address) (ds : List Address) (commitments : Address → Option (List G2Point))
      (x : Address → F) (secret : F)
      → CommitTo commitments x (d ∷ ds)
      → validate_reshare_master_public_key l c (d ∷ ds) commitments (some (g2_multiple c secret))
        ≡ compare_key (g2_multiple c secret) (some (g2_multiple c (interpolate l (d ∷ ds) x)))
  unfolding validate_reshare_master_public_key
  validate-compare d ds commitments x secret h =
      bind-ok (compare_key (g2_multiple c secret)) (key_loop-interpolate d ds commitments x h)

  -- At dealers whose first commitments are to `x`, the check passes if and only if the interpolation
  -- of `x` is the secret of the expected key. Otherwise the error says that the keys differ.
  pub validate_reshare_master_public_key_lem :
      (d : Address) (ds : List Address) (commitments : Address → Option (List G2Point))
      (x : Address → F) (secret : F)
      → CommitTo commitments x (d ∷ ds)
      → let r =
          validate_reshare_master_public_key l c
            (d ∷ ds)
            commitments
            (some (g2_multiple c secret)) in
        ((r ≡ ok tt) ↔ (interpolate l (d ∷ ds) x ≡ secret))
        × ((interpolate l (d ∷ ds) x ≢ secret) → r ≡ err key_mismatch)
  validate_reshare_master_public_key_lem d ds commitments x secret h =
      let s = interpolate l (d ∷ ds) x in
      let t = is_equal_g2_iff c s secret in
      rw (validate-compare d ds commitments x secret h)
        (guard_iff (is_equal_g2 (g2_multiple c s) (g2_multiple c secret)) key_mismatch t)
