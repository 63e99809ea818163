-- ===== src/Recovery.antt =====
-- pkg/crypto/bls.go: the private key of an application, recovered from the partial signatures that
-- the operators give, and the master public key. A map of signatures is an association list in the
-- order of its iteration; the code sorts the addresses.
pub mod Keys
pub mod Combinations
pub mod Retried
pub mod Counted
pub mod Answers
pub mod Master
use eigenx_kms_go.Prelude.{
  ℕ, zero, suc, ◌+◌, ◌-◌, ◌*◌, ◌/◌, ◌%◌, Bool, true, false, ◌||◌, Option, none, some, List, [], ◌∷◌,
  map, Result, ok, err, ◌>>=◌, ◌>>◌, guard, with_error, length, take, get_elem?, ltb, leb, ◌==◌,
  if◌then◌else◌, not, nat_eq,
}
use eigenx_kms_go.Prelude.Maps.{lookup, keys}
use eigenx_kms_go.Prelude.Sorting.{sort}
use eigenx_kms_go.Types.{Address, G1Point, G2Point}
use eigenx_kms_go.Field.{Field}
use eigenx_kms_go.Polynomial.{Library, compute_lagrange_coefficient}
use eigenx_kms_go.Curve.{
  Curve, CurveError, scalar_mul_g1, add_g1, add_g2, zero_g1_point, zero_g2_point, is_zero_g1,
  is_zero_g2,
}

-- `insufficient got need`; `exhausted attempts got need`; `capped max attempts total got need`.
pub data RecoveryError : Type 0 where
  insufficient : ℕ → ℕ → RecoveryError
  curve_failed : CurveError → RecoveryError
  key_is_zero : RecoveryError
  exhausted : ℕ → ℕ → ℕ → RecoveryError
  capped : ℕ → ℕ → ℕ → ℕ → ℕ → RecoveryError

abbrev pub Sigs : Type 0
Sigs = List (Address × G1Point)

-- `partialSigs[addr]`, with the zero value for a missing address.
abbrev pub sig_of : Sigs → Address → G1Point
sig_of sigs a = elim (lookup a sigs) [ none ↦ record { compressed_bytes = [] } | some p ↦ p ]

-- `participants[:threshold]` of the sorted addresses, if there are more.
abbrev pub chosen : ℕ → Sigs → List Address
chosen threshold sigs = take threshold (sort ltb (keys sigs))

abbrev pub subset_sigs : Sigs → List Address → Sigs
subset_sigs sigs [] = []
subset_sigs sigs (a ∷ subset) = (a, sig_of sigs a) ∷ subset_sigs sigs subset

abbrev pub accepted : (G1Point → Bool) → Result RecoveryError G1Point → Option G1Point
accepted validate (ok key) = if validate key then some key else none
accepted validate (err e) = none

module _ {κ} {F : Type 0} ⦃f : Field F⦄ (l : Library F f) {P : Type κ} (c : Curve F f P) where
  unfoldable pub add_scaled :
      List Address → List Address → (Address → G1Point) → G1Point → Result CurveError G1Point
  unfolding compute_lagrange_coefficient scalar_mul_g1 add_g1
  add_scaled participants [] sig result = ok result
  add_scaled participants (a ∷ rest) sig result =
      scalar_mul_g1 c (sig a) (compute_lagrange_coefficient l a participants) >>= λ scaled.
      add_g1 c result scaled >>= λ result'. add_scaled participants rest sig result'

  unfoldable pub recover_app_private_key : Sigs → ℕ → Result RecoveryError G1Point
  unfolding add_scaled is_zero_g1 lookup keys sort
  recover_app_private_key sigs threshold =
      guard (not (ltb (length sigs) threshold)) (insufficient (length sigs) threshold)
      >> (with_error curve_failed (
            add_scaled (chosen threshold sigs) (chosen threshold sigs) (sig_of sigs)
              (zero_g1_point c))
          >>= λ result. with_error curve_failed (is_zero_g1 c result) >>= λ z.
              guard (not z) key_is_zero >> ok result)

module _ {κ} {F : Type 0} ⦃f : Field F⦄ {P : Type κ} (c : Curve F f P) where
  unfoldable pub add_first_commitments : List (List G2Point) → G2Point → Result CurveError G2Point
  unfolding add_g2
  add_first_commitments [] key = ok key
  add_first_commitments ([] ∷ all) key = add_first_commitments all key
  add_first_commitments ((p ∷ ps) ∷ all) key =
      add_g2 c key p >>= λ sum. add_first_commitments all sum

  unfoldable pub compute_master_public_key : List (List G2Point) → Result RecoveryError G2Point
  unfolding add_first_commitments is_zero_g2
  compute_master_public_key all_commitments =
      with_error curve_failed (add_first_commitments all_commitments (zero_g2_point c)) >>= λ key.
      with_error curve_failed (is_zero_g2 c key) >>= λ z. guard (not z) key_is_zero >> ok key

-- The next combination of positions below `n`. `movable` looks, from position `i` down, for one that
-- can be raised; `raise` raises it and lets the ones behind follow it.
abbrev pub is_last : ℕ → Option ℕ → Bool
is_last v none = true
is_last v (some x) = x == v

unfoldable pub movable : ℕ → ℕ → List ℕ → ℕ → Option ℕ
movable n threshold indices zero = none
movable n threshold indices (suc i) =
    let lower = movable n threshold indices i in
    if is_last ((n - threshold) + i) (get_elem? indices i) then lower else some i

abbrev pub follow : ℕ → List ℕ → List ℕ
follow prev [] = []
follow prev (x ∷ xs) = suc prev ∷ follow (suc prev) xs

abbrev pub raise : ℕ → List ℕ → List ℕ
raise i [] = []
raise zero (x ∷ xs) = suc x ∷ follow (suc x) xs
raise (suc i) (x ∷ xs) = x ∷ raise i xs

abbrev pub raised : List ℕ → Option ℕ → Option (List ℕ)
raised indices none = none
raised indices (some i) = some (raise i indices)

unfoldable pub next_combination : ℕ → ℕ → List ℕ → Option (List ℕ)
unfolding movable
next_combination n threshold indices = raised indices (movable n threshold indices threshold)

abbrev pub count_from : ℕ → ℕ → List ℕ
count_from i zero = []
count_from i (suc n) = i ∷ count_from (suc i) n

-- `allParticipants[idx]` for each index; all indices are in range.
abbrev pub at_indices : List Address → List ℕ → List Address
at_indices participants [] = []
at_indices participants (i ∷ is) = elim (get_elem? participants i) [
  | none ↦ at_indices participants is
  | some a ↦ a ∷ at_indices participants is
]

module _ {κ} {F : Type 0} ⦃f : Field F⦄ (l : Library F f) {P : Type κ} (c : Curve F f P) where
  unfoldable pub try_subset : Sigs → ℕ → (G1Point → Bool) → List Address → Option G1Point
  unfolding recover_app_private_key
  try_subset sigs threshold validate subset =
      accepted validate (recover_app_private_key l c (subset_sigs sigs subset) threshold)

-- `attempts` have failed before this one; `left` may follow it.
module _ (attempt : List Address → Option G1Point) (participants : List Address) (threshold : ℕ)
    (max_attempts total : ℕ) where
  abbrev pub or_else : Option G1Point → Result RecoveryError G1Point → Result RecoveryError G1Point
  or_else (some key) rest = ok key
  or_else none rest = rest

  -- `indices`, or nothing where the combination before was the last.
  unfoldable pub retry_loop : ℕ → Option (List ℕ) → ℕ → Result RecoveryError G1Point
  unfolding next_combination
  retry_loop left none attempts = err (exhausted attempts (length participants) threshold)
  retry_loop zero (some indices) attempts =
      or_else (attempt (at_indices participants indices))
        (err (capped max_attempts (suc attempts) total (length participants) threshold))
  retry_loop (suc left) (some indices) attempts =
      or_else (attempt (at_indices participants indices))
        (retry_loop left (next_combination (length participants) threshold indices) (suc attempts))

-- `gcd` and `binomial`; the loop of `gcd` runs on fuel.
unfoldable pub gcd_loop : ℕ → ℕ → ℕ → ℕ
gcd_loop zero a b = a
gcd_loop (suc fuel) a zero = a
gcd_loop (suc fuel) a (suc b) = gcd_loop fuel (suc b) (a % suc b)

unfoldable pub gcd : ℕ → ℕ → ℕ
unfolding gcd_loop
gcd a b = gcd_loop (suc b) a b

-- `left` more factors, the next of them number `i`.
unfoldable pub binomial_loop : ℕ → ℕ → ℕ → ℕ → ℕ
unfolding gcd
binomial_loop n zero i result = result
binomial_loop n (suc left) i result =
    let g = gcd result (suc i) in
    let product = (result / g) * ((n - i) / (suc i / g)) in
    let rest = binomial_loop n left (suc i) product in
    if ltb 1000000000 product then 1000000000 else rest

unfoldable pub binomial : ℕ → ℕ → ℕ
unfolding binomial_loop
binomial n k =
    if ltb n k
    then 0
    else (if (k == 0) || (k == n)
        then 1
        else binomial_loop n (if ltb (n - k) k then n - k else k) 0 1)

abbrev pub default_max_recovery_attempts : ℕ
default_max_recovery_attempts = 1000

module _ {κ} {F : Type 0} ⦃f : Field F⦄ (l : Library F f) {P : Type κ} (c : Curve F f P) where
  unfoldable pub recover_app_private_key_capped :
      Sigs → ℕ → (G1Point → Bool) → ℕ → Result RecoveryError G1Point
  unfolding try_subset retry_loop binomial keys sort
  recover_app_private_key_capped sigs threshold validate max_attempts =
      guard (not (ltb (length sigs) threshold)) (insufficient (length sigs) threshold)
      >> (let participants = sort ltb (keys sigs) in
          retry_loop (try_subset l c sigs threshold validate) participants threshold max_attempts
            (binomial (length participants) threshold) (max_attempts - 1)
            (some (count_from 0 threshold)) 0)

  unfoldable pub recover_app_private_key_with_retry :
      Sigs → ℕ → (G1Point → Bool) → Result RecoveryError G1Point
  unfolding recover_app_private_key_capped
  recover_app_private_key_with_retry sigs threshold validate =
      recover_app_private_key_capped sigs threshold validate default_max_recovery_attempts
