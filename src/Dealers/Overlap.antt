-- ===== src/Dealers/Overlap.antt =====
-- node.go: the overlap of an operator set with the previous one, and the dealers it leaves.
use eigenx_kms_go.Prelude.{
  ℕ, ◌+◌, ◌≤◌, ◌≡◌, refl, Bool, true, false, some, List, [], ◌∷◌, map, ok, arith, contains, nat_eq,
  All, ◌<◌, ◌*◌, ◌↔◌, ==_iff, ◌&&◌,
}
use eigenx_kms_go.Types.{Address}
use eigenx_kms_go.Peering.{OperatorSetPeer, addresses}
use eigenx_kms_go.Reshare.{calculate_threshold}
use eigenx_kms_go.Dealers.{
  check_operators, validate_operator_set_no_duplicates, those_in, expected_reshare_dealers,
  session_participant_ids,
}

-- No address stands twice.
abbrev pub IsSetOf : List Address → Type 0
IsSetOf [] = Unit
IsSetOf (x ∷ xs) = (contains xs x ≡ false) × IsSetOf xs

-- 1 if the address stands in the list, else 0.
abbrev indicator : Bool → ℕ
indicator true = 1
indicator false = 0

seen_not_later :
    (seen : List Address) (ops : List OperatorSetPeer) (a : Address)
    → contains seen a ≡ true
    → check_operators seen (map some ops) ≡ ok tt
    → contains (addresses ops) a ≡ false
unfolding check_operators contains
seen_not_later seen [] a h e = refl
seen_not_later seen (op ∷ ops) a h e =
    ground (arith, seen_not_later (op.operator_address ∷ seen) ops a)

check_operators-IsSetOf :
    (seen : List Address) (ops : List OperatorSetPeer)
    → check_operators seen (map some ops) ≡ ok tt
    → IsSetOf (addresses ops)
unfolding check_operators contains
check_operators-IsSetOf seen [] e = tt
check_operators-IsSetOf seen (op ∷ ops) e =
    let rest : check_operators (op.operator_address ∷ seen) (map some ops) ≡ ok tt = ground arith in
    (
      seen_not_later (op.operator_address ∷ seen) ops op.operator_address (ground arith) rest,
      check_operators-IsSetOf (op.operator_address ∷ seen) ops rest,
    )

-- None of the addresses has been seen.
abbrev IsNew : List Address → List Address → Type 0
IsNew seen xs = All (λ a. contains seen a ≡ false) xs

IsNew-cons :
    (x : Address) (seen xs : List Address)
    → contains xs x ≡ false
    → IsNew seen xs
    → IsNew (x ∷ seen) xs
unfolding contains
IsNew-cons x seen [] n h = tt
IsNew-cons x seen (y ∷ ys) n h = (ground arith, IsNew-cons x seen ys (ground arith) h.1)

check_operators-ok :
    (seen : List Address) (ops : List OperatorSetPeer)
    → IsSetOf (addresses ops)
    → IsNew seen (addresses ops)
    → check_operators seen (map some ops) ≡ ok tt
unfolding check_operators
check_operators-ok seen [] s h = refl
check_operators-ok seen (op ∷ ops) s h = rw h.0 (
    check_operators-ok (op.operator_address ∷ seen) ops s.1
      (IsNew-cons op.operator_address seen (addresses ops) s.0 h.1))

nothing_seen : (xs : List Address) → IsNew [] xs
nothing_seen [] = tt
nothing_seen (x ∷ xs) = (unfold contains in refl, nothing_seen xs)

-- An operator set with no nil operator is accepted exactly if no address stands twice in it.
pub validate_operator_set_no_duplicates-IsSetOf :
    (ops : List OperatorSetPeer)
    → (validate_operator_set_no_duplicates (map some ops) ≡ ok tt) ↔ IsSetOf (addresses ops)
unfolding validate_operator_set_no_duplicates
validate_operator_set_no_duplicates-IsSetOf ops = (
  check_operators-IsSetOf [] ops,
  λ s. check_operators-ok [] ops s (nothing_seen (addresses ops)),
)

-- The threshold of n operators is two thirds of n rounded up. For a positive n it is at most n,
-- and more than half of n, so that two sets of that size share an operator.
pub calculate_threshold_bounds :
    (n : ℕ)
    → 0 < n
    → (2 * n ≤ 3 * calculate_threshold n)
      × (3 * calculate_threshold n ≤ 2 * n + 2)
      × (calculate_threshold n ≤ n)
      × (n < 2 * calculate_threshold n)
unfolding calculate_threshold
calculate_threshold_bounds n h = omega arith

contains-those_in :
    (set : List Address) (ops : List OperatorSetPeer) (d : Address)
    → contains (those_in set ops) d ≡ (contains set d && contains (addresses ops) d)
unfolding those_in contains
contains-those_in set [] d = ground arith
contains-those_in set (op ∷ ops) d =
    ground (arith, contains-those_in set ops d, ==_iff op.operator_address d)

-- A round that is finalized with every operator of a session that is not empty as a participant
-- does not shrink the next one: the dealers expected next are exactly the next operators that
-- took part in the round.
pub expected_reshare_dealers-session :
    (op : OperatorSetPeer) (ops ops' : List OperatorSetPeer) (d : Address)
    → contains (expected_reshare_dealers (some (session_participant_ids (op ∷ ops))) ops') d
      ≡ (contains (addresses (op ∷ ops)) d && contains (addresses ops') d)
unfolding expected_reshare_dealers session_participant_ids
expected_reshare_dealers-session op ops ops' d = contains-those_in (addresses (op ∷ ops)) ops' d
