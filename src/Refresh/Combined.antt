-- ===== src/Refresh/Combined.antt =====
-- The combination that an operator of pkg/reshare/reshare.go makes of the shares dealt to it: the
-- interpolation, at zero, of the dealers' shares.
use eigenx_kms_go.Prelude.{
  ◌≡◌, sym, ap, ◌∙◌, some, List, [], ◌∷◌, All, ok, bind-ok, with_error, nat_eq,
}
use eigenx_kms_go.Prelude.Maps.{lookup}
use eigenx_kms_go.Types.{Address, G2Point, KeyShareVersion}
use eigenx_kms_go.Field.{Field, ◌⊕◌, ◌⊗◌, add-zero}
use eigenx_kms_go.Field.Sums.{sum}
use eigenx_kms_go.Polynomial.{Library, compute_lagrange_coefficient}
use eigenx_kms_go.Polynomial.Interpolation.{interpolate}
use eigenx_kms_go.Curve.{Curve}
use eigenx_kms_go.Curve.Multiples.{g2_multiple, scalar_mul_g2-generator, scalar_mul_g2-multiple}
use eigenx_kms_go.Refresh.{
  Reshare, new_share_loop, compute_new_key_share, add_term, commitment_failed, scale_failed,
}

module _ {κ} {F : Type 0} ⦃f : Field F⦄ (l : Library F f) {P : Type κ} (c : Curve F f P) where
  new_share_loop_lem :
      (dealers ds : List Address) (shares : List (Address × F)) (acc : F) (g : Address → F)
      → All (λ d. lookup d shares ≡ some (g d)) ds
      → new_share_loop l c dealers ds shares acc
        ≡ acc ⊕ sum ds (λ d. compute_lagrange_coefficient l d dealers ⊗ g d)
  unfolding new_share_loop sum
  new_share_loop_lem dealers [] shares acc g h = sym (add-zero acc)
  new_share_loop_lem dealers (d ∷ ds) shares acc g h =
      let term = compute_lagrange_coefficient l d dealers ⊗ g d in
      ap (λ s. new_share_loop l c dealers ds shares (add_term l c dealers d s acc)) h.0
      ∙ (new_share_loop_lem dealers ds shares (acc ⊕ term) g h.1
          ∙ f.add_assoc acc term (sum ds (λ d'. compute_lagrange_coefficient l d' dealers ⊗ g d')))

  new_share_loop-interpolate :
      (dealers : List Address) (shares : List (Address × F)) (g : Address → F)
      → All (λ d. lookup d shares ≡ some (g d)) dealers
      → new_share_loop l c dealers dealers shares f.zero ≡ interpolate l dealers g
  new_share_loop-interpolate dealers shares g h =
      new_share_loop_lem dealers dealers shares f.zero g h ∙ f.zero-add _

  -- If a share of every dealer has arrived, then there is a new key share and it is the
  -- interpolation of the shares; it is published as its multiple by the operator's own coefficient.
  pub compute_new_key_share-interpolate :
      (r : Reshare F) (d : Address) (ds : List Address) (shares : List (Address × F))
      (all_commitments : List (List G2Point)) (g : Address → F)
      → All (λ d'. lookup d' shares ≡ some (g d')) (d ∷ ds)
      → (k : KeyShareVersion F) × (compute_new_key_share l c r (d ∷ ds) shares all_commitments
          ≡ ok k)
        × (k.private_share ≡ some (interpolate l (d ∷ ds) g))
        × (k.commitments
            ≡ g2_multiple c
                (interpolate l (d ∷ ds) g ⊗ compute_lagrange_coefficient l r.node_address (d ∷ ds))
              ∷ [])
  unfolding compute_new_key_share
  compute_new_key_share-interpolate r d ds shares all g h =
      let s = new_share_loop l c (d ∷ ds) (d ∷ ds) shares f.zero in
      let e : s ≡ interpolate l (d ∷ ds) g = new_share_loop-interpolate (d ∷ ds) shares g h in
      let k = compute_lagrange_coefficient l r.node_address (d ∷ ds) in
      (
        _,
        bind-ok _ (ap (with_error commitment_failed) (scalar_mul_g2-generator c s))
            ∙ bind-ok _ (ap (with_error scale_failed) (scalar_mul_g2-multiple c s k)),
        ap (λ x. some x) e,
        ap (λ x. g2_multiple c (x ⊗ k) ∷ []) e,
      )
