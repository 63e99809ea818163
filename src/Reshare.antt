-- ===== src/Reshare.antt =====
-- pkg/reshare/reshare.go and the dealer sets of pkg/node/node.go: which dealers a reshare finalizes
-- on. A Go map from dealers to values is a function into options; `counts` is an association list,
-- whose order is that of an iteration of the Go map.
pub mod Majority
pub mod Tally
pub mod Count
use eigenx_kms_go.Prelude.{
  ℕ, suc, ◌+◌, ◌*◌, ◌/◌, Bool, true, false, ◌&&◌, ◌||◌, not, Option, none, some, List, [], ◌∷◌,
  Result, ok, err, ltb, ◌==◌, if◌then◌else◌, length, contains, nat_eq, int_eq, list_beq,
}
use eigenx_kms_go.Prelude.Int.{ℤ, ltb_ℤ, eqb_ℤ, pos}
use eigenx_kms_go.Prelude.Maps.{lookup, insert}
use eigenx_kms_go.Types.{Address, G2Point, Hash}

-- pkg/dkg: ⌈2n/3⌉.
unfoldable pub calculate_threshold : ℕ → ℕ
calculate_threshold n = (2 * n + 2) / 3

-- `sourceVersions[d]`, with the zero value for an absent dealer.
abbrev pub version_of : (Address → Option ℤ) → Address → ℤ
version_of versions d = elim (versions d) [ none ↦ pos 0 | some v ↦ v ]

-- `counts[v]++`
unfoldable pub bump : ℤ → List (ℤ × ℕ) → List (ℤ × ℕ)
bump v [] = (v, 1) ∷ []
bump v ((w, c) ∷ m) = if eqb_ℤ w v then (w, suc c) ∷ m else (w, c) ∷ bump v m

unfoldable pub tally : (Address → Option ℤ) → List Address → List (ℤ × ℕ) → List (ℤ × ℕ)
unfolding bump
tally versions [] counts = counts
tally versions (d ∷ ds) counts =
    let v = version_of versions d in
    tally versions ds (if eqb_ℤ v (pos 0) then counts else bump v counts)

-- The best version and its count, after the entries of `counts`.
unfoldable pub best_of : List (ℤ × ℕ) → ℤ × ℕ → ℤ × ℕ
best_of [] best = best
best_of ((v, c) ∷ m) (w, b) =
    best_of m (if ltb b c || (c == b && ltb_ℤ w v) then (v, c) else (w, b))

unfoldable pub on_version : (Address → Option ℤ) → ℤ → List Address → List Address
on_version versions v [] = []
on_version versions v (d ∷ ds) =
    if eqb_ℤ (version_of versions d) v
    then d ∷ on_version versions v ds
    else on_version versions v ds

pub data SelectError : Type 0 where
  no_dealers : SelectError
  too_few : ℕ → ℕ → SelectError

abbrev pub keep_if_enough :
    (Address → Option ℤ) → List Address → ℕ → ℤ × ℕ → Result SelectError (List Address × ℤ)
keep_if_enough versions dealers threshold (v, c) =
    if ltb c threshold then err (too_few c threshold) else ok (on_version versions v dealers, v)

-- The iteration over `counts` may be in any order: `shuffle` is the one of this run.
unfoldable pub select_majority_source_version :
    (List (ℤ × ℕ) → List (ℤ × ℕ))
    → List Address
    → (Address → Option ℤ)
    → ℕ
    → Result SelectError (List Address × ℤ)
unfolding tally best_of on_version
select_majority_source_version shuffle [] versions threshold = err no_dealers
select_majority_source_version shuffle (d ∷ ds) versions threshold =
    keep_if_enough versions (d ∷ ds) threshold
      (best_of (shuffle (tally versions (d ∷ ds) [])) (pos 0, 0))
