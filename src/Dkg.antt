-- ===== src/Dkg.antt =====
-- pkg/dkg/dkg.go: the distributed key generation as one node runs it. A node deals shares of a random
-- polynomial, checks the shares that it is dealt and adds them up.
pub mod Checked
pub mod Dealt
pub mod Finalized
use eigenx_kms_go.Prelude.{
  ℕ, zero, suc, Bool, true, false, Option, none, some, List, [], ◌∷◌, Result, ok, err, ◌>>=◌,
  length, ◌==◌, replicate, if◌then◌else◌, map, nat_eq, list_beq, with_error,
}
use eigenx_kms_go.Prelude.Int.{pos}
use eigenx_kms_go.Prelude.Maps.{insert}
use eigenx_kms_go.Types.{Address, G2Point, KeyShareVersion}
use eigenx_kms_go.Peering.{OperatorSetPeer, addresses}
use eigenx_kms_go.Field.{Field, ◌⊕◌, ◌⊗◌}
use eigenx_kms_go.Field
use eigenx_kms_go.Polynomial.{Library, SecretError, address_to_fr, draw, evaluate_polynomial}
use eigenx_kms_go.Curve.{
  Curve, CurveError, scalar_mul_g2, add_g2, g2_generator, zero_g2_point, is_equal_g2,
}

pub record Dkg (F : Type 0) : Type 0 where
  pub node_address : Address
  pub threshold : ℕ
  pub operators : List OperatorSetPeer
  pub poly : List F

abbrev pub new_dkg : {F : Type 0} → Address → ℕ → List OperatorSetPeer → Dkg F
new_dkg node_address threshold operators = record {
  node_address = node_address;
  threshold = threshold;
  operators = operators;
  poly = [];
}

pub data DealError : Type 0 where
  no_randomness : SecretError → DealError
  commitment_failed : CurveError → DealError

module _ {F : Type 0} ⦃f : Field F⦄ (l : Library F f) where
  -- `shares[op.OperatorAddress] = EvaluatePolynomial(poly, op.OperatorAddress)` for each operator.
  unfoldable pub deal_loop : List F → List OperatorSetPeer → List (Address × F) → List (Address × F)
  unfolding evaluate_polynomial
  deal_loop poly [] shares = shares
  deal_loop poly (op ∷ ops) shares =
      deal_loop poly ops
        (insert op.operator_address (evaluate_polynomial l poly op.operator_address) shares)

module _ {κ} {F : Type 0} ⦃f : Field F⦄ {P : Type κ} (c : Curve F f P) where
  -- `commitments[k] = coeffs[k] * G2` for each `k`.
  unfoldable pub commit_loop : List F → Result CurveError (List G2Point)
  unfolding scalar_mul_g2
  commit_loop [] = ok []
  commit_loop (k ∷ coeffs) =
      scalar_mul_g2 c (g2_generator c) k >>= λ p. commit_loop coeffs >>= λ ps. ok (p ∷ ps)

  -- `Σ commitments[k] * x^k` from the second commitment on.
  unfoldable pub right_side : F → F → G2Point → List G2Point → Result CurveError G2Point
  unfolding scalar_mul_g2 add_g2
  right_side x power right [] = ok right
  right_side x power right (p ∷ ps) =
      let power' = power ⊗ x in
      scalar_mul_g2 c p power' >>= λ term.
      add_g2 c right term >>= λ right'. right_side x power' right' ps

  -- `leftSide.IsEqual(&rightSide)`; an error on either side is `false`.
  abbrev pub sides_equal : Result CurveError G2Point → Result CurveError G2Point → Bool
  sides_equal (ok left) (ok right) = is_equal_g2 left right
  sides_equal (ok left) (err e) = false
  sides_equal (err e) right = false

  -- `combinedCommitments[idx] += commitment` for each `idx`; an addition that fails is left out.
  abbrev pub or_keep : G2Point → Result CurveError G2Point → G2Point
  or_keep p (ok r) = r
  or_keep p (err e) = p

  unfoldable pub add_each : List G2Point → List G2Point → List G2Point
  unfolding add_g2
  add_each [] ds = []
  add_each (p ∷ ps) [] = p ∷ ps
  add_each (p ∷ ps) (d ∷ ds) = or_keep p (add_g2 c p d) ∷ add_each ps ds

  unfoldable pub combine_loop : ℕ → List (List G2Point) → List G2Point → List G2Point
  unfolding add_each
  combine_loop expected [] combined = combined
  combine_loop expected (ds ∷ all) combined =
      combine_loop expected all (if length ds == expected then add_each combined ds else combined)

  unfoldable pub combine_commitments : ℕ → List (List G2Point) → List G2Point
  unfolding combine_loop
  combine_commitments expected [] = []
  combine_commitments expected (ds ∷ all) =
      combine_loop expected (ds ∷ all) (replicate expected (zero_g2_point c))

module _ {F : Type 0} ⦃f : Field F⦄ where
  unfoldable pub add_shares : List (Address × F) → F → F
  add_shares [] total = total
  add_shares ((a, share) ∷ m) total = add_shares m (total ⊕ share)

module _ {κ} {F : Type 0} ⦃f : Field F⦄ (l : Library F f) {P : Type κ} (c : Curve F f P) where
  -- The polynomial is kept once all its coefficients are drawn, also if a commitment then fails.
  unfoldable pub deal :
      Dkg F
      → Result SecretError (List F)
      → Dkg F × Result DealError (List (Address × F) × List G2Point)
  unfolding deal_loop commit_loop
  deal d (err e) = (d, err (no_randomness e))
  deal d (ok coeffs) = (
    record d { poly = coeffs },
    with_error commitment_failed (commit_loop c coeffs) >>= λ commitments.
        ok (deal_loop l coeffs d.operators [], commitments),
  )

  unfoldable pub generate_shares :
      (ℕ → Option F) → Dkg F → Dkg F × Result DealError (List (Address × F) × List G2Point)
  unfolding draw deal
  generate_shares random d = deal d (draw random 0 d.threshold)

  unfoldable pub verify_share : Dkg F → Option F → List G2Point → Bool
  unfolding scalar_mul_g2 right_side address_to_fr
  verify_share d share [] = false
  verify_share d none (p ∷ ps) = false
  verify_share d (some share) (p ∷ ps) =
      sides_equal c (scalar_mul_g2 c (g2_generator c) share)
        (right_side c (address_to_fr l d.node_address) f.one p ps)

  unfoldable pub finalize_key_share :
      Dkg F → List (Address × F) → List (List G2Point) → List Address → KeyShareVersion F
  unfolding add_shares combine_commitments
  finalize_key_share d shares all_commitments participant_ids = record {
    version = pos 0;
    private_share = some (add_shares shares f.zero);
    commitments = combine_commitments c d.threshold all_commitments;
    master_public_key = none;
    is_active = true;
    participant_ids = participant_ids;
  }
