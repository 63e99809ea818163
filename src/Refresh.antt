-- ===== src/Refresh.antt =====
-- pkg/reshare/reshare.go: the protocol that moves the master secret to a new sharing. A dealer shares
-- its share anew, an operator combines what the dealers sent it, and the dealers' commitments are
-- checked against the master public key before the result is used.
pub mod Dealt
pub mod Combined
pub mod Validated
pub mod Preserved
pub mod Secret
pub mod Foreign
use eigenx_kms_go.Prelude.{
  ℕ, zero, suc, Bool, true, false, Option, none, some, List, [], ◌∷◌, Result, ok, err, ◌>>=◌,
  with_error, nat_eq, guard,
}
use eigenx_kms_go.Prelude.Int.{pos}
use eigenx_kms_go.Prelude.Maps.{lookup}
use eigenx_kms_go.Types.{Address, G2Point, KeyShareVersion}
use eigenx_kms_go.Peering.{OperatorSetPeer}
use eigenx_kms_go.Field.{Field, ◌⊕◌, ◌⊗◌}
use eigenx_kms_go.Polynomial.{
  Library, SecretError, address_to_fr, draw, compute_lagrange_coefficient,
}
use eigenx_kms_go.Curve.{Curve, CurveError, scalar_mul_g2, add_g2, g2_generator, is_equal_g2}
use eigenx_kms_go.Dkg.{deal_loop, commit_loop, right_side, sides_equal}

pub record Reshare (F : Type 0) : Type 0 where
  pub node_address : Address
  pub operators : List OperatorSetPeer
  pub poly : List F

abbrev pub new_reshare : {F : Type 0} → Address → List OperatorSetPeer → Reshare F
new_reshare node_address operators = record {
  node_address = node_address;
  operators = operators;
  poly = [];
}

-- `no_coefficients` is the panic of `coeffs[0]` at a threshold of zero.
pub data ReshareError : Type 0 where
  no_current_share : ReshareError
  no_coefficients : ReshareError
  no_randomness : SecretError → ReshareError
  commitment_failed : CurveError → ReshareError
  no_dealers : ReshareError
  no_expected_key : ReshareError
  missing_commitments : Address → ReshareError
  scale_failed : CurveError → ReshareError
  accumulate_failed : CurveError → ReshareError
  sum_is_nil : ReshareError
  key_mismatch : ReshareError

-- `commitments, ok := commitmentsByDealer[dealer]`
abbrev pub first_commitment : Address → Option (List G2Point) → Result ReshareError G2Point
first_commitment d none = err (missing_commitments d)
first_commitment d (some []) = err (missing_commitments d)
first_commitment d (some (p ∷ ps)) = ok p

abbrev pub compare_key : G2Point → Option G2Point → Result ReshareError (Unit {0})
compare_key expected none = err sum_is_nil
compare_key expected (some sum) = guard (is_equal_g2 sum expected) key_mismatch

module _ {κ} {F : Type 0} ⦃f : Field F⦄ (l : Library F f) {P : Type κ} (c : Curve F f P) where
  unfoldable pub deal_new :
      Reshare F
      → F
      → Result SecretError (List F)
      → Reshare F × Result ReshareError (List (Address × F) × List G2Point)
  unfolding deal_loop commit_loop
  deal_new r current_share (err e) = (r, err (no_randomness e))
  deal_new r current_share (ok rest) =
      let coeffs = current_share ∷ rest in
      (
        record r { poly = coeffs },
        with_error commitment_failed (commit_loop c coeffs) >>= λ commitments.
            ok (deal_loop l coeffs r.operators [], commitments),
      )

  unfoldable pub generate_new_shares :
      (ℕ → Option F)
      → Reshare F
      → Option F
      → ℕ
      → Reshare F × Result ReshareError (List (Address × F) × List G2Point)
  unfolding draw deal_new
  generate_new_shares random r none new_threshold = (r, err no_current_share)
  generate_new_shares random r (some current_share) zero = (r, err no_coefficients)
  generate_new_shares random r (some current_share) (suc n) =
      deal_new r current_share (draw random 1 n)

  -- The same check as in pkg/dkg, whose loop it repeats.
  unfoldable pub verify_new_share : Reshare F → Option F → List G2Point → Bool
  unfolding scalar_mul_g2 right_side address_to_fr
  verify_new_share r share [] = false
  verify_new_share r none (p ∷ ps) = false
  verify_new_share r (some share) (p ∷ ps) =
      sides_equal c (scalar_mul_g2 c (g2_generator c) share)
        (right_side c (address_to_fr l r.node_address) f.one p ps)

  -- A dealer whose share is missing or nil adds nothing.
  abbrev pub add_term : List Address → Address → Option F → F → F
  add_term dealers d none new_share = new_share
  add_term dealers d (some share) new_share =
      new_share ⊕ compute_lagrange_coefficient l d dealers ⊗ share

  unfoldable pub new_share_loop : List Address → List Address → List (Address × F) → F → F
  unfolding compute_lagrange_coefficient lookup
  new_share_loop dealers [] shares new_share = new_share
  new_share_loop dealers (d ∷ ds) shares new_share =
      new_share_loop dealers ds shares (add_term dealers d (lookup d shares) new_share)

  unfoldable pub compute_new_key_share :
      Reshare F
      → List Address
      → List (Address × F)
      → List (List G2Point)
      → Result ReshareError (KeyShareVersion F)
  unfolding new_share_loop scalar_mul_g2 compute_lagrange_coefficient
  compute_new_key_share r [] shares all_commitments = err no_dealers
  compute_new_key_share r (d ∷ ds) shares all_commitments =
      let dealers = d ∷ ds in
      let new_share = new_share_loop dealers dealers shares f.zero in
      with_error commitment_failed (scalar_mul_g2 c (g2_generator c) new_share) >>= λ commitment.
      with_error scale_failed
        (scalar_mul_g2 c commitment (compute_lagrange_coefficient l r.node_address dealers))
      >>= λ scaled. ok (record {
        version = pos 0;
        private_share = some new_share;
        commitments = scaled ∷ [];
        master_public_key = none;
        is_active = false;
        participant_ids = dealers;
      })

  -- `sum`, which is nil before the first dealer.
  unfoldable pub accumulate : Option G2Point → G2Point → Result ReshareError G2Point
  unfolding add_g2
  accumulate none term = ok term
  accumulate (some sum) term = with_error accumulate_failed (add_g2 c sum term)

  unfoldable pub key_loop :
      List Address
      → List Address
      → (Address → Option (List G2Point))
      → Option G2Point
      → Result ReshareError (Option G2Point)
  unfolding scalar_mul_g2 compute_lagrange_coefficient accumulate
  key_loop dealers [] commitments_by_dealer sum = ok sum
  key_loop dealers (d ∷ ds) commitments_by_dealer sum =
      first_commitment d (commitments_by_dealer d) >>= λ p.
      with_error scale_failed (scalar_mul_g2 c p (compute_lagrange_coefficient l d dealers))
      >>= λ term.
          accumulate sum term >>= λ sum'. key_loop dealers ds commitments_by_dealer (some sum')

  unfoldable pub validate_reshare_master_public_key :
      List Address
      → (Address → Option (List G2Point))
      → Option G2Point
      → Result ReshareError (Unit {0})
  unfolding key_loop
  validate_reshare_master_public_key [] commitments_by_dealer expected = err no_dealers
  validate_reshare_master_public_key (d ∷ ds) commitments_by_dealer none = err no_expected_key
  validate_reshare_master_public_key (d ∷ ds) commitments_by_dealer (some expected) =
      key_loop (d ∷ ds) (d ∷ ds) commitments_by_dealer none >>= compare_key expected
