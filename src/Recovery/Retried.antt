-- ===== src/Recovery/Retried.antt =====
-- The retries of pkg/crypto/bls.go: what each outcome of the enumeration says.
use eigenx_kms_go.Prelude.{
  ℕ, zero, suc, ◌+◌, ◌-◌, ◌≤◌, ◌<◌, ◌≡◌, refl, sym, ap, ◌∙◌, inl, inr, Option, none, some, List, [],
  ◌∷◌, length, Result, ok, err, Option-cases, ok-injective, ok_or_err, arith, subst, nat_eq,
}
use eigenx_kms_go.Types.{Address, G1Point}
use eigenx_kms_go.Recovery.{
  RecoveryError, exhausted, capped, retry_loop, or_else, at_indices, next_combination,
}
use eigenx_kms_go.Recovery.Combinations.{
  IsFrom, Earlier, after, next_combination-after, after-none, after-some, after-IsFrom,
}

-- `t` positions below `n`, in ascending order from `lo` on.
abbrev pub IsCombination : ℕ → ℕ → List ℕ → Type 0
IsCombination n lo [] = Unit
IsCombination n lo (x ∷ xs) = (lo ≤ x) × (x < n) × IsCombination n (suc x) xs

IsCombination-room :
    (n lo x : ℕ) (xs : List ℕ) → IsCombination n lo (x ∷ xs) → x + length (x ∷ xs) ≤ n
IsCombination-room n lo x [] h = omega (arith, h.1)
IsCombination-room n lo x (y ∷ xs) h = omega (arith, IsCombination-room n (suc x) y xs h.2, h.2.0)

pub IsCombination-IsFrom :
    (n lo : ℕ) (xs : List ℕ) → IsCombination n lo xs → IsFrom lo (n - length xs) xs
IsCombination-IsFrom n lo [] h = tt
IsCombination-IsFrom n lo (x ∷ xs) h =
    let room = IsCombination-room n lo x xs h in
    let e : n - length xs ≡ suc (n - suc (length xs)) = omega arith in
    (h.0, omega arith, subst (λ v. IsFrom (suc x) v xs) e (IsCombination-IsFrom n (suc x) xs h.2))

capped_exhausted :
    {a b c d e x y z : ℕ} → ◌≡◌ {A = RecoveryError} (capped a b c d e) (exhausted x y z) → ⊥
capped_exhausted h = ground arith

err_injective :
    {A : Type 0} {x y : RecoveryError} → ◌≡◌ {A = Result RecoveryError A} (err x) (err y) → x ≡ y
err_injective h = cc

module _ (attempt : List Address → Option G1Point) (participants : List Address) (t : ℕ)
    (max_attempts total : ℕ) where
  abbrev Fails : List ℕ → Type 0
  Fails c = attempt (at_indices participants c) ≡ none

  -- All combinations that are earlier have failed.
  abbrev Tried : List ℕ → Type 0
  Tried indices =
      (c : List ℕ)
      → IsFrom 0 (length participants - t) c
      → length c ≡ t
      → Earlier c indices
      → Fails c

  or_else-err :
      (m : Option G1Point) (r : Result RecoveryError G1Point) (x : RecoveryError)
      → or_else attempt participants t max_attempts total m r ≡ err x
      → (m ≡ none) × (r ≡ err x)
  or_else-err none r x e = (refl, e)
  or_else-err (some k) r x e = ok_or_err e

  Tried-next :
      (indices ys : List ℕ)
      → length indices ≡ t
      → IsFrom 0 (length participants - t) indices
      → Tried indices
      → Fails indices
      → after (length participants - t) indices ≡ some ys
      → Tried ys
  Tried-next indices ys n i tried f y c ci cn r =
      elim (after-some 0 (length participants - t) c indices ys ci i (cn ∙ sym n) y r) [
        | inl s ↦ tried c ci cn s
        | inr s ↦ subst Fails (sym s) f
      ]

  next-after :
      (indices : List ℕ)
      → t ≤ length participants
      → length indices ≡ t
      → next_combination (length participants) t indices ≡ after (length participants - t) indices
  next-after indices h n =
      subst
        (λ m.
          next_combination (length participants) m indices
          ≡ after (length participants - m) indices)
        n (next_combination-after (length participants) indices (omega arith))

  -- The enumeration ends as exhausted only after every combination has failed.
  pub retry_loop-exhausted :
      (left : ℕ) (indices : List ℕ) (attempts a b d : ℕ)
      → t ≤ length participants
      → length indices ≡ t
      → IsFrom 0 (length participants - t) indices
      → Tried indices
      → retry_loop attempt participants t max_attempts total left (some indices) attempts
        ≡ err (exhausted a b d)
      → (c : List ℕ) → IsFrom 0 (length participants - t) c
      → length c ≡ t
      → Fails c
  unfolding retry_loop
  retry_loop-exhausted zero indices attempts a b d h n i tried e c ci cn =
      let q = or_else-err (attempt (at_indices participants indices)) _ (exhausted a b d) e in
      absurd (capped_exhausted (err_injective q.1))
  retry_loop-exhausted (suc left) indices attempts a b d h n i tried e c ci cn =
      let v = length participants - t in
      let q = or_else-err (attempt (at_indices participants indices)) _ (exhausted a b d) e in
      let e' : retry_loop attempt participants t max_attempts total left (after v indices)
            (suc attempts)
          ≡ err (exhausted a b d) =
        ap (λ o. retry_loop attempt participants t max_attempts total left o (suc attempts))
          (sym (next-after indices h n))
        ∙ q.1 in
      elim (Option-cases (after v indices)) [
        | inl y ↦ elim (after-none 0 v c indices ci i (cn ∙ sym n) y) [
          | inl s ↦ tried c ci cn s
          | inr s ↦ subst Fails (sym s) q.0
        ]
        | inr (ys, y) ↦
            let r = after-IsFrom 0 v indices ys i y in
            retry_loop-exhausted left ys (suc attempts) a b d h (r.1 ∙ n) r.0
              (Tried-next indices ys n i tried q.0 y)
              (ap (λ o. retry_loop attempt participants t max_attempts total left o (suc attempts))
                  (sym y)
                ∙ e')
              c ci cn
      ]

  -- What a success is: the result of an attempt at some positions.
  pub retry_loop-ok :
      (left : ℕ) (o : Option (List ℕ)) (attempts : ℕ) (key : G1Point)
      → retry_loop attempt participants t max_attempts total left o attempts ≡ ok key
      → (indices : List ℕ) × (attempt (at_indices participants indices) ≡ some key)
  unfolding retry_loop
  retry_loop-ok left none attempts key e = ok_or_err (sym e)
  retry_loop-ok zero (some indices) attempts key e =
      elim (Option-cases (attempt (at_indices participants indices))) [
        | inl q ↦ ok_or_err (sym (rw q at e))
        | inr (k, q) ↦
            let e' : ok k ≡ ok key = rw q at e in (indices, q ∙ ap (λ x. some x) (ok-injective e'))
      ]
  retry_loop-ok (suc left) (some indices) attempts key e =
      elim (Option-cases (attempt (at_indices participants indices))) [
        | inl q ↦
            retry_loop-ok left (next_combination (length participants) t indices) (suc attempts) key
              (rw q at e)
        | inr (k, q) ↦
            let e' : ok k ≡ ok key = rw q at e in (indices, q ∙ ap (λ x. some x) (ok-injective e'))
      ]
