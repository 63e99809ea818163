-- ===== src/Refresh/Secret.antt =====
-- The check of the master public key and the master secret: a reshare of pkg/reshare/reshare.go that
-- passes the check keeps the secret, and one where every dealer deals from its share passes it.
use eigenx_kms_go.Prelude.{
  ℕ, ◌<◌, ◌≤◌, ◌≡◌, ◌≢◌, ap, ◌∙◌, Option, some, List, [], ◌∷◌, All, All-map_of, map, length, ok,
  err, if◌then◌else◌, arith, nat_eq, subst,
}
use mathlib.Core.List.{Permᴰ}
use eigenx_kms_go.Prelude.Maps.{keys}
use eigenx_kms_go.Types.{Address, G2Point}
use eigenx_kms_go.Field.{Field, ◌⊗◌}
use eigenx_kms_go.Field.Sums.{sum_congr}
use eigenx_kms_go.Polynomial.{
  Library, address_to_fr, evaluate_polynomial, compute_lagrange_coefficient, recover_secret,
  secret_is_zero,
}
use eigenx_kms_go.Polynomial.Interpolation.{
  value, constant_of, IsSeparated, interpolate, interpolate-value,
}
use eigenx_kms_go.Polynomial.Recovered.{evaluate-value_lem}
use eigenx_kms_go.Curve.{Curve}
use eigenx_kms_go.Curve.Multiples.{g2_multiple}
use eigenx_kms_go.Refresh.{validate_reshare_master_public_key}
use eigenx_kms_go.Refresh.Validated.{CommitTo, validate_reshare_master_public_key_lem}
use eigenx_kms_go.Refresh.Preserved.{Refreshes, compute_new_key_share-recover_secret}

module _ {κ} {F : Type 0} ⦃f : Field F⦄ (l : Library F f) {P : Type κ} (c : Curve F f P) where
  -- Each dealer publishes commitments to its polynomial.
  abbrev pub Publish :
      (Address → Option (List G2Point)) → (Address → List F) → List Address → Type 0
  Publish commitments poly ds = All (λ e. commitments e ≡ some (map (g2_multiple c) (poly e))) ds

  first_of :
      (g : List F) (t : ℕ) (published : Option (List G2Point))
      → 0 < t
      → length g ≡ t
      → published ≡ some (map (g2_multiple c) g)
      → (rest : List G2Point) × (published ≡ some (g2_multiple c (constant_of g) ∷ rest))
  unfolding constant_of
  first_of [] t published p q k = absurd (omega arith)
  first_of (x ∷ g) t published p q k = (map (g2_multiple c) g, k)

  Publish-CommitTo :
      (t : ℕ) (commitments : Address → Option (List G2Point)) (poly : Address → List F)
      (ds : List Address)
      → 0 < t
      → All (λ e. length (poly e) ≡ t) ds
      → Publish commitments poly ds
      → CommitTo l c commitments (λ e. constant_of (poly e)) ds
  Publish-CommitTo t commitments poly [] p h k = tt
  Publish-CommitTo t commitments poly (e ∷ ds) p h k = (
    first_of (poly e) t (commitments e) p h.0 k.0,
    Publish-CommitTo t commitments poly ds p h.1 k.1,
  )

  -- If the check of the master public key passes, the new shares recover the secret of that key,
  -- whatever the dealers dealt from, or are refused if it is zero. Every dealer publishes commitments
  -- to its polynomial with `t` coefficients, for a positive `t`; there are `t` or more new shares, of
  -- operators with pairwise different identifiers; each is computed from the shares of all dealers.
  pub validate_reshare_master_public_key-recover_secret :
      (t : ℕ) (d : Address) (ds : List Address) (poly : Address → List F)
      (commitments : Address → Option (List G2Point)) (secret : F)
      (first second : List (Address × F) → List (Address × F)) (finals : List (Address × F))
      → f.one ≢ f.zero
      → 0 < t
      → All (λ e. length (poly e) ≡ t) (d ∷ ds)
      → Publish commitments poly (d ∷ ds)
      → All (λ e. Refreshes l c d ds poly e.0 e.1) finals
      → IsSeparated l (keys finals)
      → t ≤ length (keys finals)
      → Permᴰ (first finals) finals
      → Permᴰ (second finals) finals
      → validate_reshare_master_public_key l c (d ∷ ds) commitments (some (g2_multiple c secret))
        ≡ ok tt
      → recover_secret l first second finals
        ≡ (if f.is_zero secret then err secret_is_zero else ok secret)
  validate_reshare_master_public_key-recover_secret t d ds poly commitments secret first second
        finals o p h k r s n q q' v =
      let x : Address → F = λ e. constant_of (poly e) in
      let e : interpolate l (d ∷ ds) x ≡ secret =
        (validate_reshare_master_public_key_lem l c d ds commitments x secret
            (Publish-CommitTo t commitments poly (d ∷ ds) p h k)).0.0
          v in
      subst
        (λ z.
          recover_secret l first second finals ≡ (if f.is_zero z then err secret_is_zero else ok z))
        e
        (compute_new_key_share-recover_secret l c t d ds poly first second finals o p h r s n q q')

  -- The dealers' constants are shares of the polynomial `old`.
  abbrev pub DealFrom : List F → (Address → List F) → List Address → Type 0
  DealFrom old poly ds = All (λ e. constant_of (poly e) ≡ evaluate_polynomial l old e) ds

  interpolate-DealFrom :
      (old : List F) (poly : Address → List F) (dealers : List Address)
      → f.one ≢ f.zero
      → 0 < length old
      → IsSeparated l dealers
      → length old ≤ length dealers
      → DealFrom old poly dealers
      → interpolate l dealers (λ e. constant_of (poly e)) ≡ constant_of old
  interpolate-DealFrom old poly dealers o p s n h =
      sum_congr dealers _ _ (
        All-map_of (λ e. constant_of (poly e) ≡ evaluate_polynomial l old e)
          (λ e.
            compute_lagrange_coefficient l e dealers ⊗ constant_of (poly e)
            ≡ compute_lagrange_coefficient l e dealers ⊗ value old (address_to_fr l e))
          (λ e q.
            ap (λ v. compute_lagrange_coefficient l e dealers ⊗ v)
              (q ∙ evaluate-value_lem l old e p))
          dealers h)
      ∙ interpolate-value l old dealers o s n

  -- A reshare from shares of one polynomial `old` keeps its secret and passes the check. There are at
  -- least as many dealers as `old` has coefficients, with pairwise different identifiers; each deals,
  -- and commits to, a polynomial with `t` coefficients whose constant is its share; the new shares are
  -- as above. Then the check against the key of the old secret passes, and the new shares recover the
  -- old secret, or are refused if it is zero.
  pub reshare-DealFrom :
      (t : ℕ) (d : Address) (ds : List Address) (old : List F) (poly : Address → List F)
      (commitments : Address → Option (List G2Point))
      (first second : List (Address × F) → List (Address × F)) (finals : List (Address × F))
      → f.one ≢ f.zero
      → 0 < t
      → 0 < length old
      → length old ≤ length (d ∷ ds)
      → IsSeparated l (d ∷ ds)
      → DealFrom old poly (d ∷ ds)
      → All (λ e. length (poly e) ≡ t) (d ∷ ds)
      → Publish commitments poly (d ∷ ds)
      → All (λ e. Refreshes l c d ds poly e.0 e.1) finals
      → IsSeparated l (keys finals)
      → t ≤ length (keys finals)
      → Permᴰ (first finals) finals
      → Permᴰ (second finals) finals
      → (validate_reshare_master_public_key l c
            (d ∷ ds)
            commitments
            (some (g2_multiple c (constant_of old)))
          ≡ ok tt)
        × (recover_secret l first second finals
            ≡ (if f.is_zero (constant_of old) then err secret_is_zero else ok (constant_of old)))
  reshare-DealFrom t d ds old poly commitments first second finals o p p' n' s' g h k r s n q q' =
      let v =
        (validate_reshare_master_public_key_lem l c d ds commitments (λ e. constant_of (poly e))
            (constant_of old) (Publish-CommitTo t commitments poly (d ∷ ds) p h k)).0.1
          (interpolate-DealFrom old poly (d ∷ ds) o p' s' n' g) in
      (
        v,
        validate_reshare_master_public_key-recover_secret t d ds poly commitments (constant_of old)
            first second finals o p h k r s n q q' v,
      )
