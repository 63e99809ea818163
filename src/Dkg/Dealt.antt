-- ===== src/Dkg/Dealt.antt =====
-- What a dealer of pkg/dkg/dkg.go hands out: shares of one polynomial, and commitments to it.
use eigenx_kms_go.Prelude.{
  ℕ, zero, suc, ◌<◌, ◌≡◌, ◌↔◌, refl, sym, ap, ◌∙◌, true, Option, some, List, [], ◌∷◌, Result, ok,
  err, map, length, ok-injective, WhenOk, bind-WhenOk, WhenOk-any, or_error, subst, arith, nat_eq,
}
use eigenx_kms_go.Prelude.Maps.{lookup}
use eigenx_kms_go.Types.{Address, G2Point}
use eigenx_kms_go.Peering.{OperatorSetPeer, addresses}
use eigenx_kms_go.Field.{Field}
use eigenx_kms_go.Polynomial.{
  Library, SecretError, no_randomness, draw, evaluate_polynomial, shares_loop,
}
use eigenx_kms_go.Polynomial
use eigenx_kms_go.Polynomial.Recovered.{share_of_lookup}
use eigenx_kms_go.Curve.{Curve}
use eigenx_kms_go.Curve.Multiples.{g2_multiple}
use eigenx_kms_go.Commitments
use eigenx_kms_go.Commitments.Verified.{verify_share-create_commitments}
use eigenx_kms_go.Dkg.{Dkg, DealError, commit_loop, deal_loop, deal, generate_shares, verify_share}
use eigenx_kms_go.Dkg.Checked.{commit_loop-multiples, sides_equal_iff}

module _ {F : Type 0} ⦃f : Field F⦄ where
  pub length-draw :
      (random : ℕ → Option F) (i n : ℕ) → WhenOk (λ cs. length cs ≡ n) (draw random i n)
  unfolding draw
  length-draw random i zero = refl
  length-draw random i (suc n) =
      bind-WhenOk {P = λ _. Unit {0}} _ (or_error no_randomness (random i)) _
        (WhenOk-any (or_error no_randomness (random i)))
        (λ c _.
          bind-WhenOk _ (draw random (suc i) n) _ (length-draw random (suc i) n) (λ cs h. ap suc h))

  pub deal_loop-shares_loop :
      (l : Library F f) (poly : List F) (ops : List OperatorSetPeer) (m : List (Address × F))
      → deal_loop l poly ops m ≡ shares_loop l poly (addresses ops) m
  unfolding deal_loop shares_loop
  deal_loop-shares_loop l poly [] m = refl
  deal_loop-shares_loop l poly (op ∷ ops) m = deal_loop-shares_loop l poly ops _

module _ {κ} {F : Type 0} ⦃f : Field F⦄ (l : Library F f) {P : Type κ} (c : Curve F f P) where
  -- The polynomial of a deal that succeeded.
  abbrev pub IsDealOf :
      Dkg F → Dkg F × Result DealError (List (Address × F) × List G2Point) → Type 0
  IsDealOf d (d', r) =
      WhenOk
        (λ o.
          (length d'.poly ≡ d.threshold)
          × (o.0 ≡ Polynomial.generate_shares l d'.poly (addresses d.operators))
          × (o.1 ≡ map (g2_multiple c) d'.poly))
        r

  deal-IsDealOf :
      (d : Dkg F) (r : Result SecretError (List F))
      → WhenOk (λ cs. length cs ≡ d.threshold) r
      → IsDealOf d (deal l c d r)
  unfolding deal Polynomial.generate_shares
  deal-IsDealOf d (err e) h = tt
  deal-IsDealOf d (ok coeffs) h =
      rw (commit_loop-multiples c coeffs) (h, deal_loop-shares_loop l coeffs d.operators [], refl)

  pub generate_shares-IsDealOf :
      (random : ℕ → Option F) (d : Dkg F) → IsDealOf d (generate_shares l c random d)
  unfolding generate_shares
  generate_shares-IsDealOf random d =
      deal-IsDealOf d (draw random 0 d.threshold) (length-draw random 0 d.threshold)

  -- The check at commitments to a polynomial with at least one coefficient.
  pub verify_share-multiples :
      (n : Dkg F) (share : F) (poly : List F)
      → 0 < length poly
      → (verify_share l c n (some share) (map (g2_multiple c) poly) ≡ true)
        ↔ (share ≡ evaluate_polynomial l poly n.node_address)
  unfolding verify_share
  verify_share-multiples n share [] h = absurd (omega arith)
  verify_share-multiples n share (k ∷ poly) h = sides_equal_iff c l n.node_address share k poly

  -- An operator accepts exactly the share that it was dealt: if a dealer with a positive threshold
  -- deals without error, and `s` is the share for the node's address, then the node's check of a
  -- share against the dealer's commitments accepts it if and only if it is `s`.
  pub generate_shares-verify_share :
      (random : ℕ → Option F) (d d' n : Dkg F) (shares : List (Address × F))
      (commitments : List G2Point) (s share : F)
      → 0 < d.threshold
      → generate_shares l c random d ≡ (d', ok (shares, commitments))
      → lookup n.node_address shares ≡ some s
      → (verify_share l c n (some share) commitments ≡ true) ↔ (share ≡ s)
  generate_shares-verify_share random d d' n shares commitments s share t e h =
      let i : IsDealOf d (d', ok (shares, commitments)) =
        subst (IsDealOf d) e (generate_shares-IsDealOf random d) in
      let v = verify_share-multiples n share d'.poly (omega (arith, i.0)) in
      let q : s ≡ evaluate_polynomial l d'.poly n.node_address =
        share_of_lookup l d'.poly (addresses d.operators) n.node_address s
          (ap (lookup n.node_address) (sym i.1) ∙ h) in
      rw (i.2, q) v

  -- The check of a share by the loop of pkg/dkg and the one by multi-exponentiation of pkg/bls agree:
  -- for the commitments that either package makes of one polynomial with at least one coefficient,
  -- they accept the same shares.
  pub verify_share_agree :
      (n : Dkg F) (share : F) (poly : List F) (commitments : List G2Point) (points : List P)
      → 0 < length poly
      → commit_loop c poly ≡ ok commitments
      → Commitments.create_commitments c poly ≡ ok points
      → (verify_share l c n (some share) commitments ≡ true) ↔ (
          Commitments.verify_share c l n.node_address (some share) (map (λ p. some p) points)
          ≡ ok true)
  verify_share_agree n share [] commitments points h e o = absurd (omega arith)
  verify_share_agree n share (k ∷ poly) commitments points h e o =
      let b = verify_share-create_commitments c l n.node_address share k poly points o in
      let v = verify_share-multiples n share (k ∷ poly) h in
      let same : commitments ≡ map (g2_multiple c) (k ∷ poly) =
        ok-injective (sym e ∙ commit_loop-multiples c (k ∷ poly)) in
      rw same (
        (λ y. b.1 ∙ ap (λ x. ok x) (b.2.1 (v.0 y))),
        (λ y. v.1 (b.2.0 (ok-injective (sym b.1 ∙ y)))),
      )
