-- ===== src/Refresh/Preserved.antt =====
-- A reshare of pkg/reshare/reshare.go and the master secret: what the new shares recover.
use eigenx_kms_go.Prelude.{
  ℕ, ◌<◌, ◌≤◌, ◌≡◌, ◌≢◌, refl, sym, ap, ◌∙◌, some, List, ◌∷◌, All, All-map_of, length, ok, err,
  if◌then◌else◌, arith, nat_eq, ok-injective,
}
use mathlib.Core.List.{Permᴰ}
use mathlib.Core.Option.{some-injective}
use eigenx_kms_go.Prelude.Maps.{lookup, keys}
use eigenx_kms_go.Types.{Address, G2Point, KeyShareVersion}
use eigenx_kms_go.Field.{Field, ◌⊗◌}
use eigenx_kms_go.Field.Sums.{sum, sum_congr}
use eigenx_kms_go.Polynomial.{
  Library, address_to_fr, evaluate_polynomial, compute_lagrange_coefficient, recover_secret,
  recover_loop, secret_is_zero,
}
use eigenx_kms_go.Polynomial.Interpolation.{
  value, constant_of, IsSeparated, interpolate, interpolate-value, interpolate-sum,
}
use eigenx_kms_go.Polynomial.Recovered.{recover_loop-interpolate, evaluate-value_lem}
use eigenx_kms_go.Curve.{Curve}
use eigenx_kms_go.Refresh.{Reshare, compute_new_key_share}
use eigenx_kms_go.Refresh.Combined.{compute_new_key_share-interpolate}

module _ {κ} {F : Type 0} ⦃f : Field F⦄ (l : Library F f) {P : Type κ} (c : Curve F f P) where
  -- The operator `a` computes the share `s` from what the dealers `d ∷ ds` send it, where each dealer
  -- sends the value of its polynomial.
  pub record Refreshes (d : Address) (ds : List Address) (poly : Address → List F) (a : Address)
      (s : F) : Type 0 where
    pub operator : Reshare F
    pub received : List (Address × F)
    pub all_commitments : List (List G2Point)
    pub key_share : KeyShareVersion F
    pub received_all :
        All (λ e. lookup e received ≡ some (evaluate_polynomial l (poly e) a)) (d ∷ ds)
    pub computed :
        compute_new_key_share l c operator (d ∷ ds) received all_commitments ≡ ok key_share
    pub private_share : key_share.private_share ≡ some s

  -- The combination that every operator makes.
  abbrev pub refreshed : List Address → (Address → List F) → Address → F
  refreshed dealers poly a =
      sum dealers
        (λ e. compute_lagrange_coefficient l e dealers ⊗ value (poly e) (address_to_fr l a))

  Refreshes-refreshed :
      (t : ℕ) (d : Address) (ds : List Address) (poly : Address → List F) (a : Address) (s : F)
      → 0 < t
      → All (λ e. length (poly e) ≡ t) (d ∷ ds)
      → Refreshes d ds poly a s
      → s ≡ refreshed (d ∷ ds) poly a
  Refreshes-refreshed t d ds poly a s p h r =
      let i =
        compute_new_key_share-interpolate l c r.operator d ds r.received r.all_commitments
          (λ e. evaluate_polynomial l (poly e) a) r.received_all in
      let same : i.0 ≡ r.key_share = ok-injective (sym i.1 ∙ r.computed) in
      let k : s ≡ interpolate l (d ∷ ds) (λ e. evaluate_polynomial l (poly e) a) =
        some-injective _ _ (sym r.private_share ∙ (sym (ap (λ v. v.private_share) same) ∙ i.2)) in
      k
      ∙ sum_congr (d ∷ ds) _ _ (
          All-map_of (λ e. length (poly e) ≡ t)
            (λ e.
              compute_lagrange_coefficient l e (d ∷ ds) ⊗ evaluate_polynomial l (poly e) a
              ≡ compute_lagrange_coefficient l e (d ∷ ds) ⊗ value (poly e) (address_to_fr l a))
            (λ e q.
              ap (λ v. compute_lagrange_coefficient l e (d ∷ ds) ⊗ v)
                (evaluate-value_lem l (poly e) a (omega (arith, q))))
            (d ∷ ds) h)

  interpolate-refreshed :
      (t : ℕ) (dealers qs : List Address) (poly : Address → List F)
      → f.one ≢ f.zero
      → IsSeparated l qs
      → t ≤ length qs
      → All (λ e. length (poly e) ≡ t) dealers
      → interpolate l qs (refreshed dealers poly)
        ≡ interpolate l dealers (λ e. constant_of (poly e))
  interpolate-refreshed t dealers qs poly o s n h =
      interpolate-sum l qs dealers (λ e. compute_lagrange_coefficient l e dealers)
        (λ e a. value (poly e) (address_to_fr l a))
      ∙ sum_congr dealers _ _ (
          All-map_of (λ e. length (poly e) ≡ t)
            (λ e.
              compute_lagrange_coefficient l e dealers
                ⊗ interpolate l qs (λ a. value (poly e) (address_to_fr l a))
              ≡ compute_lagrange_coefficient l e dealers ⊗ constant_of (poly e))
            (λ e q.
              ap (λ v. compute_lagrange_coefficient l e dealers ⊗ v)
                (interpolate-value l (poly e) qs o s (omega (arith, q))))
            dealers h)

  -- What the new shares recover, whatever the dealers dealt from: the interpolation of the dealers'
  -- constants. Every dealer deals a polynomial with `t` coefficients, for a positive `t`; there are
  -- `t` or more new shares, of operators with pairwise different identifiers; and each of them is
  -- computed from the shares of all dealers. Zero is refused.
  pub compute_new_key_share-recover_secret :
      (t : ℕ) (d : Address) (ds : List Address) (poly : Address → List F)
      (first second : List (Address × F) → List (Address × F)) (finals : List (Address × F))
      → f.one ≢ f.zero
      → 0 < t
      → All (λ e. length (poly e) ≡ t) (d ∷ ds)
      → All (λ e. Refreshes d ds poly e.0 e.1) finals
      → IsSeparated l (keys finals)
      → t ≤ length (keys finals)
      → Permᴰ (first finals) finals
      → Permᴰ (second finals) finals
      → let secret = interpolate l (d ∷ ds) (λ e. constant_of (poly e)) in
        recover_secret l first second finals
        ≡ (if f.is_zero secret then err secret_is_zero else ok secret)
  unfolding recover_secret
  compute_new_key_share-recover_secret t d ds poly first second finals o p h r s n q q' =
      let e : recover_loop l (keys (first finals)) (second finals) f.zero
          ≡ interpolate l (d ∷ ds) (λ e. constant_of (poly e)) =
        recover_loop-interpolate l (first finals) (second finals) finals (refreshed (d ∷ ds) poly) q
          q'
          (All-map_of (λ e. Refreshes d ds poly e.0 e.1) (λ e. e.1 ≡ refreshed (d ∷ ds) poly e.0)
            (λ e. Refreshes-refreshed t d ds poly e.0 e.1 p h) finals r)
        ∙ interpolate-refreshed t (d ∷ ds) (keys finals) poly o s n h in
      rw e refl
