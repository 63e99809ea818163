-- ===== src/Recovery/Answers.antt =====
-- What RecoverAppPrivateKeyWithRetry of pkg/crypto/bls.go answers.
use eigenx_kms_go.Prelude.{
  ℕ, ◌+◌, ◌-◌, ◌≤◌, ◌<◌, ◌≡◌, refl, sym, ap, ◌∙◌, inl, inr, Bool, true, Option, none, some, List,
  length, Result, ok, err, ltb, Bool-cases, ok_or_err, arith, subst, nat_eq, zero, suc,
}
use eigenx_kms_go.Prelude.Maps.{keys, length-keys}
use eigenx_kms_go.Prelude.Sorting.{sort, length-sort}
use eigenx_kms_go.Types.{Address, G1Point}
use eigenx_kms_go.Field.{Field}
use eigenx_kms_go.Polynomial.{Library}
use eigenx_kms_go.Curve.{Curve}
use eigenx_kms_go.Recovery.{
  RecoveryError, exhausted, insufficient, curve_failed, key_is_zero, capped, or_else, retry_loop,
  next_combination, Sigs, count_from, try_subset, accepted, subset_sigs, at_indices,
  recover_app_private_key, recover_app_private_key_capped,
}
use mathlib.Core.Option.{some-injective}
use eigenx_kms_go.Recovery.Combinations.{IsFrom, Earlier, count_from-IsFrom, count_from_first}
use eigenx_kms_go.Recovery.Retried.{
  IsCombination, IsCombination-IsFrom, retry_loop-exhausted, retry_loop-ok,
}

length-count_from : (i t : ℕ) → length (count_from i t) ≡ t
length-count_from i zero = refl
length-count_from i (suc t) = ap suc (length-count_from (suc i) t)

insufficient_exhausted :
    {a b x y z : ℕ}
    → ◌≡◌ {A = Result RecoveryError G1Point} (err (insufficient a b)) (err (exhausted x y z))
    → ⊥
insufficient_exhausted h = ground arith

accepted-some :
    (validate : G1Point → Bool) (r : Result RecoveryError G1Point) (key : G1Point)
    → accepted validate r ≡ some key
    → (validate key ≡ true) × (r ≡ ok key)
accepted-some validate (err e) key h = absurd (ground arith)
accepted-some validate (ok k) key h = elim (Bool-cases (validate k)) [
  | inl y ↦
      let same : k ≡ key = some-injective k key (rw y at h) in
      (ap validate (sym same) ∙ y, ap (λ x. ok x) same)
  | inr y ↦ let h' : none ≡ some key = rw y at h in absurd (ground arith)
]

-- How many attempts the error names.
abbrev pub EndsBy : ℕ → Result RecoveryError G1Point → Type 0
EndsBy max_attempts (ok key) = Unit
EndsBy max_attempts (err (insufficient a b)) = Unit
EndsBy max_attempts (err (curve_failed e)) = ⊥
EndsBy max_attempts (err key_is_zero) = ⊥
EndsBy max_attempts (err (exhausted attempts a b)) = attempts ≤ max_attempts
EndsBy max_attempts (err (capped cap attempts total a b)) =
    (cap ≡ max_attempts) × (attempts ≡ max_attempts)

or_else-EndsBy :
    (attempt : List Address → Option G1Point) (ps : List Address) (t m total : ℕ)
    (o : Option G1Point) (r : Result RecoveryError G1Point)
    → EndsBy m r
    → EndsBy m (or_else attempt ps t m total o r)
or_else-EndsBy attempt ps t m total none r h = h
or_else-EndsBy attempt ps t m total (some k) r h = tt

retry_loop-EndsBy :
    (attempt : List Address → Option G1Point) (ps : List Address) (t m total : ℕ) (left : ℕ)
    (o : Option (List ℕ)) (attempts : ℕ)
    → attempts + suc left ≡ m
    → EndsBy m (retry_loop attempt ps t m total left o attempts)
unfolding retry_loop
retry_loop-EndsBy attempt ps t m total left none attempts h = omega arith
retry_loop-EndsBy attempt ps t m total zero (some indices) attempts h =
    or_else-EndsBy attempt ps t m total (attempt (at_indices ps indices)) _ (refl, omega arith)
retry_loop-EndsBy attempt ps t m total (suc left) (some indices) attempts h =
    or_else-EndsBy attempt ps t m total (attempt (at_indices ps indices)) _ (
      retry_loop-EndsBy attempt ps t m total left (next_combination (length ps) t indices)
        (suc attempts) (omega arith))

module _ {κ} {F : Type 0} ⦃f : Field F⦄ (l : Library F f) {P : Type κ} (c : Curve F f P) where
  length-participants : (sigs : Sigs) → length (sort ltb (keys sigs)) ≡ length sigs
  length-participants sigs = length-sort ltb (keys sigs) ∙ length-keys sigs

  -- If the error says that all combinations are exhausted, then no combination of `threshold`
  -- signatures, of operators in the order of their addresses, recovers a key that is accepted.
  pub recover_app_private_key_capped-exhausted :
      (sigs : Sigs) (threshold : ℕ) (validate : G1Point → Bool) (max_attempts a b d : ℕ)
      (indices : List ℕ)
      → recover_app_private_key_capped l c sigs threshold validate max_attempts
        ≡ err (exhausted a b d)
      → IsCombination (length sigs) 0 indices
      → length indices ≡ threshold
      → try_subset l c sigs threshold validate (at_indices (sort ltb (keys sigs)) indices) ≡ none
  unfolding recover_app_private_key_capped
  recover_app_private_key_capped-exhausted sigs threshold validate max_attempts a b d indices e i
        n =
      elim (Bool-cases (ltb (length sigs) threshold)) [
        | inl y ↦ absurd (insufficient_exhausted (rw y at e))
        | inr y ↦
            let ps = sort ltb (keys sigs) in
            let m : length ps ≡ length sigs = length-participants sigs in
            let enough : threshold ≤ length ps = ground (arith, m) in
            let i' =
              subst (λ k. IsFrom 0 (length ps - k) indices) n
                (IsCombination-IsFrom (length ps) 0 indices
                  (subst (λ k. IsCombination k 0 indices) (sym m) i)) in
            retry_loop-exhausted (try_subset l c sigs threshold validate) ps threshold max_attempts
              _ (max_attempts - 1) (count_from 0 threshold) 0 a b d enough
              (length-count_from 0 threshold)
              (count_from-IsFrom 0 (length ps - threshold) threshold (omega arith))
              (λ c' ci cn r. absurd (
                count_from_first 0 (length ps - threshold) c' ci
                  (subst (λ k. Earlier c' (count_from 0 k)) (sym cn) r)))
              (rw y at e) indices i' n
      ]

  -- A key that is returned is one that `validate` accepts, and it is recovered from a subset of the
  -- signatures.
  pub recover_app_private_key_capped-ok :
      (sigs : Sigs) (threshold : ℕ) (validate : G1Point → Bool) (max_attempts : ℕ) (key : G1Point)
      → recover_app_private_key_capped l c sigs threshold validate max_attempts ≡ ok key
      → (validate key ≡ true)
        × ((indices : List ℕ) × (recover_app_private_key l c
                (subset_sigs sigs (at_indices (sort ltb (keys sigs)) indices))
                threshold
              ≡ ok key))
  unfolding recover_app_private_key_capped try_subset
  recover_app_private_key_capped-ok sigs threshold validate max_attempts key e =
      elim (Bool-cases (ltb (length sigs) threshold)) [
        | inl y ↦ ok_or_err (sym (rw y at e))
        | inr y ↦
            let r =
              retry_loop-ok (try_subset l c sigs threshold validate) (sort ltb (keys sigs))
                threshold max_attempts _ (max_attempts - 1) (some (count_from 0 threshold)) 0 key
                (rw y at e) in
            let a = accepted-some validate _ key r.1 in (a.0, (r.0, a.1))
      ]

  -- The search ends by the cap, for a cap of at least one attempt: it returns a key, or an error for
  -- too few signatures, or one for exhausted combinations after at most that many attempts, or the
  -- one that names the cap, after exactly that many; no other error is returned.
  pub recover_app_private_key_capped-EndsBy :
      (sigs : Sigs) (threshold : ℕ) (validate : G1Point → Bool) (max_attempts : ℕ)
      → 0 < max_attempts
      → EndsBy max_attempts
          (recover_app_private_key_capped l c sigs threshold validate max_attempts)
  unfolding recover_app_private_key_capped
  recover_app_private_key_capped-EndsBy sigs threshold validate max_attempts h =
      elim (Bool-cases (ltb (length sigs) threshold)) [
        | inl y ↦ rw y tt
        | inr y ↦ rw y (
            retry_loop-EndsBy (try_subset l c sigs threshold validate) (sort ltb (keys sigs))
              threshold max_attempts _ (max_attempts - 1) (some (count_from 0 threshold)) 0
              (omega arith))
      ]
