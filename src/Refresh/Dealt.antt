-- ===== src/Refresh/Dealt.antt =====
-- What a dealer of pkg/reshare/reshare.go hands out: shares of a polynomial whose constant is its
-- current share, and commitments to it.
use eigenx_kms_go.Prelude.{
  ℕ, zero, suc, ◌<◌, ◌≡◌, ◌↔◌, refl, sym, ap, ◌∙◌, true, Option, some, List, [], ◌∷◌, Result, ok,
  err, map, length, WhenOk, arith, subst, nat_eq,
}
use eigenx_kms_go.Prelude.Maps.{lookup}
use eigenx_kms_go.Types.{Address, G2Point}
use eigenx_kms_go.Peering.{addresses}
use eigenx_kms_go.Field.{Field}
use eigenx_kms_go.Polynomial.{Library, SecretError, draw, evaluate_polynomial}
use eigenx_kms_go.Polynomial
use eigenx_kms_go.Polynomial.Interpolation.{constant_of}
use eigenx_kms_go.Polynomial.Recovered.{share_of_lookup}
use eigenx_kms_go.Curve.{Curve}
use eigenx_kms_go.Curve.Multiples.{g2_multiple}
use eigenx_kms_go.Dkg.Checked.{commit_loop-multiples, sides_equal_iff}
use eigenx_kms_go.Dkg.Dealt.{length-draw, deal_loop-shares_loop}
use eigenx_kms_go.Refresh.{Reshare, ReshareError, deal_new, generate_new_shares, verify_new_share}

module _ {κ} {F : Type 0} ⦃f : Field F⦄ (l : Library F f) {P : Type κ} (c : Curve F f P) where
  -- The polynomial of a deal that succeeded.
  abbrev pub IsDealOf :
      Reshare F
      → F
      → ℕ
      → Reshare F × Result ReshareError (List (Address × F) × List G2Point)
      → Type 0
  IsDealOf r current t (r', o) =
      WhenOk
        (λ v.
          (length r'.poly ≡ t)
          × (constant_of r'.poly ≡ current)
          × (v.0 ≡ Polynomial.generate_shares l r'.poly (addresses r.operators))
          × (v.1 ≡ map (g2_multiple c) r'.poly))
        o

  deal_new-IsDealOf :
      (r : Reshare F) (current : F) (n : ℕ) (cs : Result SecretError (List F))
      → WhenOk (λ rest. length rest ≡ n) cs
      → IsDealOf r current (suc n) (deal_new l c r current cs)
  unfolding deal_new Polynomial.generate_shares constant_of
  deal_new-IsDealOf r current n (err e) h = tt
  deal_new-IsDealOf r current n (ok rest) h =
      rw (commit_loop-multiples c (current ∷ rest))
        (ap suc h, refl, deal_loop-shares_loop l (current ∷ rest) r.operators [], refl)

  generate_new_shares-IsDealOf :
      (random : ℕ → Option F) (r : Reshare F) (current : F) (t : ℕ)
      → IsDealOf r current t (generate_new_shares l c random r (some current) t)
  unfolding generate_new_shares
  generate_new_shares-IsDealOf random r current zero = tt
  generate_new_shares-IsDealOf random r current (suc n) =
      deal_new-IsDealOf r current n (draw random 1 n) (length-draw random 1 n)

  verify_new_share-multiples :
      (r : Reshare F) (share : F) (poly : List F)
      → 0 < length poly
      → (verify_new_share l c r (some share) (map (g2_multiple c) poly) ≡ true)
        ↔ (share ≡ evaluate_polynomial l poly r.node_address)
  unfolding verify_new_share
  verify_new_share-multiples r share [] h = absurd (omega arith)
  verify_new_share-multiples r share (k ∷ poly) h = sides_equal_iff c l r.node_address share k poly

  -- If a dealer reshares its current share with a positive threshold and without an error, then the
  -- constant of its polynomial is that share, the polynomial has as many coefficients as the
  -- threshold, and an operator that is dealt `s` accepts exactly `s` against the commitments.
  pub generate_new_shares-verify_new_share :
      (random : ℕ → Option F) (r r' n : Reshare F) (current : F) (t : ℕ)
      (shares : List (Address × F)) (commitments : List G2Point) (s share : F)
      → 0 < t
      → generate_new_shares l c random r (some current) t ≡ (r', ok (shares, commitments))
      → lookup n.node_address shares ≡ some s
      → (constant_of r'.poly ≡ current)
        × (length r'.poly ≡ t)
        × ((verify_new_share l c n (some share) commitments ≡ true) ↔ (share ≡ s))
  generate_new_shares-verify_new_share random r r' n current t shares commitments s share p e h =
      let i : IsDealOf r current t (r', ok (shares, commitments)) =
        subst (IsDealOf r current t) e (generate_new_shares-IsDealOf random r current t) in
      let v = verify_new_share-multiples n share r'.poly (omega (arith, i.0)) in
      let q : s ≡ evaluate_polynomial l r'.poly n.node_address =
        share_of_lookup l r'.poly (addresses r.operators) n.node_address s
          (ap (lookup n.node_address) (sym i.2) ∙ h) in
      (i.1, i.0, rw (i.3, q) v)
