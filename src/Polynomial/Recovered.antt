-- ===== src/Polynomial/Recovered.antt =====
-- The shares of pkg/bls/polynomial.go recover the secret that was shared.
use eigenx_kms_go.Prelude.{
  ◌≤◌, ◌<◌, ◌≡◌, ◌≢◌, refl, sym, ap, ◌∙◌, inl, inr, List, [], ◌∷◌, All, length, none, some, ok, err,
  if◌then◌else◌, Bool-cases, ==_iff, arith, nat_eq, ◌==◌, contains, All-map_of, All-perm,
}
use mathlib.Core.List.{Permᴰ}
use mathlib.Core.List.Permᴰ
use mathlib.Core.Option.{some-injective}
use eigenx_kms_go.Prelude.Maps.{lookup, insert, keys, lookup-insert, keys_perm}
use eigenx_kms_go.Types.{Address}
use eigenx_kms_go.Field.{Field, ◌⊕◌, ◌⊗◌, add-zero, mul-zero}
use eigenx_kms_go.Field.Sums.{sum, sum_perm}
use eigenx_kms_go.Polynomial.{
  Library, address_to_fr, evaluate_polynomial, compute_lagrange_coefficient, recover_loop,
  recover_secret, shares_loop, generate_shares, secret_is_zero,
}
use eigenx_kms_go.Polynomial.Interpolation.{
  value, constant_of, IsSeparated, interpolate, interpolate-value, interpolate_perm,
}

module _ {ℓ} {F : Type ℓ} ⦃f : Field F⦄ (l : Library F f) where
  pub eval-value : (c : F) (cs : List F) (x : F) → l.eval (c ∷ cs) x ≡ value (c ∷ cs) x
  unfolding value
  eval-value c [] x = l.eval_constant c x ∙ sym (ap (λ s. c ⊕ s) (mul-zero x) ∙ add-zero c)
  eval-value c (d ∷ cs) x = l.eval_step c d cs x ∙ ap (λ s. c ⊕ x ⊗ s) (eval-value d cs x)

  pub evaluate-value :
      (c : F) (cs : List F) (a : Address)
      → evaluate_polynomial l (c ∷ cs) a ≡ value (c ∷ cs) (address_to_fr l a)
  unfolding evaluate_polynomial
  evaluate-value c cs a = eval-value c cs (address_to_fr l a)

  pub evaluate-value_lem :
      (poly : List F) (a : Address)
      → 0 < length poly
      → evaluate_polynomial l poly a ≡ value poly (address_to_fr l a)
  evaluate-value_lem [] a h = absurd (omega arith)
  evaluate-value_lem (c ∷ cs) a h = evaluate-value c cs a

  pub shares_loop-lookup :
      (poly : List F) (ps : List Address) (m : List (Address × F)) (a : Address)
      → lookup a (shares_loop l poly ps m)
        ≡ (if contains ps a then some (evaluate_polynomial l poly a) else lookup a m)
  unfolding shares_loop contains
  shares_loop-lookup poly [] m a = refl
  shares_loop-lookup poly (b ∷ ps) m a =
      shares_loop-lookup poly ps (insert b (evaluate_polynomial l poly b) m) a
      ∙ rw (lookup-insert b a (evaluate_polynomial l poly b) m) (elim (Bool-cases (b == a)) [
        | inl q ↦
            let b_a : b ≡ a = ground (arith, ==_iff b a) in
            rw (q, ap (evaluate_polynomial l poly) b_a)
              (elim (Bool-cases (contains ps a)) [ inl y ↦ rw y refl | inr n ↦ rw n refl ])
        | inr q ↦ rw q refl
      ])

  -- Only the shares of participants are made, and each is the value at its participant.
  pub generate_shares-lookup :
      (poly : List F) (ps : List Address) (a : Address)
      → lookup a (generate_shares l poly ps)
        ≡ (if contains ps a then some (evaluate_polynomial l poly a) else none)
  unfolding generate_shares lookup
  generate_shares-lookup poly ps a = shares_loop-lookup poly ps [] a

  pub share_of_lookup :
      (poly : List F) (ps : List Address) (a : Address) (s : F)
      → lookup a (generate_shares l poly ps) ≡ some s
      → s ≡ evaluate_polynomial l poly a
  share_of_lookup poly ps a s e = elim (Bool-cases (contains ps a)) [
    | inl y ↦
        some-injective s (evaluate_polynomial l poly a)
          (sym e ∙ (generate_shares-lookup poly ps a ∙ rw y refl))
    | inr n ↦
        let h : none ≡ some s = sym (generate_shares-lookup poly ps a ∙ rw n refl) ∙ e in absurd cc
  ]

  -- Every share of `shares` is one that the dealer made.
  abbrev pub AreShares : List F → List Address → List (Address × F) → Type ℓ
  AreShares poly ps shares = All (λ e. lookup e.0 (generate_shares l poly ps) ≡ some e.1) shares

  recover_loop_lem :
      (ps : List Address) (m : List (Address × F)) (acc : F) (g : Address → F)
      → All (λ e. e.1 ≡ g e.0) m
      → recover_loop l ps m acc
        ≡ acc ⊕ sum (keys m) (λ i. compute_lagrange_coefficient l i ps ⊗ g i)
  unfolding recover_loop keys sum
  recover_loop_lem ps [] acc g h = sym (add-zero acc)
  recover_loop_lem ps ((a, s) ∷ m) acc g h =
      rw (h.0, recover_loop_lem ps m (acc ⊕ compute_lagrange_coefficient l a ps ⊗ g a) g h.1)
        (f.add_assoc _ _ _)

  -- The share map that a run of the dealer's polynomial fills, in whatever orders it is visited,
  -- sums to the interpolation of the polynomial.
  pub recover_loop-interpolate :
      (first second shares : List (Address × F)) (g : Address → F)
      → Permᴰ first shares
      → Permᴰ second shares
      → All (λ e. e.1 ≡ g e.0) shares
      → recover_loop l (keys first) second f.zero ≡ interpolate l (keys shares) g
  recover_loop-interpolate first second shares g p q h =
      recover_loop_lem (keys first) second f.zero g (All-perm _ (Permᴰ.symm q) h)
      ∙ (f.zero-add _
          ∙ (sum_perm (λ i. compute_lagrange_coefficient l i (keys first) ⊗ g i)
                (Permᴰ.trans (keys_perm q) (Permᴰ.symm (keys_perm p)))
              ∙ interpolate_perm l g (keys_perm p)))

  -- Values of a polynomial at enough participants recover its constant.
  pub recover_secret-value :
      (first second : List (Address × F) → List (Address × F)) (shares : List (Address × F))
      (poly : List F)
      → f.one ≢ f.zero
      → Permᴰ (first shares) shares
      → Permᴰ (second shares) shares
      → All (λ e. e.1 ≡ value poly (address_to_fr l e.0)) shares
      → IsSeparated l (keys shares)
      → length poly ≤ length (keys shares)
      → recover_secret l first second shares
        ≡ (if f.is_zero (constant_of poly) then err secret_is_zero else ok (constant_of poly))
  unfolding recover_secret
  recover_secret-value first second shares poly o p q h s n =
      let g : Address → F = λ a. value poly (address_to_fr l a) in
      rw
        (recover_loop-interpolate (first shares) (second shares) shares g p q h
          ∙ interpolate-value l poly (keys shares) o s n)
        refl

  -- Shares that a dealer made for `participants` recover the dealer's secret, if there are at least
  -- as many of them as the polynomial has coefficients, their participants have pairwise different
  -- identifiers and the secret is not zero: whichever shares they are, and in whatever orders the
  -- map of shares is visited. A secret that is zero is refused.
  pub recover_secret-generate_shares :
      (first second : List (Address × F) → List (Address × F)) (shares : List (Address × F))
      (secret : F) (cs : List F) (participants : List Address)
      → f.one ≢ f.zero
      → Permᴰ (first shares) shares
      → Permᴰ (second shares) shares
      → AreShares (secret ∷ cs) participants shares
      → IsSeparated l (keys shares)
      → length (secret ∷ cs) ≤ length (keys shares)
      → recover_secret l first second shares
        ≡ (if f.is_zero secret then err secret_is_zero else ok secret)
  unfolding constant_of
  recover_secret-generate_shares first second shares secret cs participants o p q h s n =
      let poly = secret ∷ cs in
      recover_secret-value first second shares poly o p q
        (All-map_of (λ e. lookup e.0 (generate_shares l poly participants) ≡ some e.1)
          (λ e. e.1 ≡ value poly (address_to_fr l e.0))
          (λ e k. share_of_lookup poly participants e.0 e.1 k ∙ evaluate-value secret cs e.0) shares
          h)
        s n
