-- ===== src/Polynomial/Coefficients.antt =====
-- The Lagrange coefficients of pkg/bls/polynomial.go as a numerator over a denominator, which do not
-- depend on the order of the participants.
use eigenx_kms_go.Prelude.{
  ◌≡◌, ◌≢◌, refl, sym, ap, ◌∙◌, inl, inr, Bool, true, false, ◌==◌, List, [], ◌∷◌, All, All-map_of,
  if◌then◌else◌, Bool-cases, ==_iff, arith,
}
use mathlib.Core.List.{Permᴰ}
use eigenx_kms_go.Types.{Address}
use eigenx_kms_go.Field.{
  Field, ◌⊗◌, ◌⊖◌, mul-one, mul_left_comm, mul_cancel, sub_ne_zero, neg_ne_zero, mul-zero,
}
use eigenx_kms_go.Field.Sums.{product, product_perm, product_ne_zero}
use eigenx_kms_go.Polynomial.{Library, address_to_fr, lagrange_loop, compute_lagrange_coefficient}

module _ {ℓ} {F : Type ℓ} ⦃f : Field F⦄ (l : Library F f) where
  -- What participant `j` brings to the numerator and the denominator of participant `i`.
  abbrev above : Address → Address → F
  above i j = if i == j then f.one else f.neg (address_to_fr l j)

  abbrev below : Address → Address → F
  below i j = if i == j then f.one else (address_to_fr l i ⊖ address_to_fr l j)

  unfoldable pub numerator : Address → List Address → F
  unfolding product
  numerator i ps = product ps (above i)

  unfoldable pub denominator : Address → List Address → F
  unfolding product
  denominator i ps = product ps (below i)

  step : (b : Bool) (n c : F) → (if b then n else n ⊗ c) ≡ n ⊗ (if b then f.one else c)
  step true n c = sym (mul-one n)
  step false n c = refl

  lagrange_loop_lem :
      (i : Address) (js : List Address) (n d : F)
      → lagrange_loop l i js n d ≡ f.inv (d ⊗ denominator i js) ⊗ (n ⊗ numerator i js)
  unfolding lagrange_loop numerator denominator product
  lagrange_loop_lem i [] n d = rw (mul-one n, mul-one d) refl
  lagrange_loop_lem i (j ∷ js) n d =
      rw
        (
          step (i == j) n (f.neg (address_to_fr l j)),
          step (i == j) d (address_to_fr l i ⊖ address_to_fr l j),
          lagrange_loop_lem i js (n ⊗ above i j) (d ⊗ below i j),
          f.mul_assoc n (above i j) (numerator i js),
          f.mul_assoc d (below i j) (denominator i js),
        )
        refl

  pub compute_lagrange_coefficient_lem :
      (i : Address) (ps : List Address)
      → compute_lagrange_coefficient l i ps ≡ f.inv (denominator i ps) ⊗ numerator i ps
  unfolding compute_lagrange_coefficient
  compute_lagrange_coefficient_lem i ps =
      lagrange_loop_lem i ps f.one f.one
      ∙ rw (f.one-mul (denominator i ps), f.one-mul (numerator i ps)) refl

  pub coefficient_perm :
      (i : Address) {ps qs : List Address}
      → Permᴰ ps qs
      → compute_lagrange_coefficient l i ps ≡ compute_lagrange_coefficient l i qs
  unfolding numerator denominator
  coefficient_perm i {ps} {qs} p =
      rw
        (
          compute_lagrange_coefficient_lem i ps,
          compute_lagrange_coefficient_lem i qs,
          product_perm (above i) p,
          product_perm (below i) p,
        )
        refl

  -- Other participants of the list have other identifiers.
  abbrev pub IsApart : Address → List Address → Type ℓ
  IsApart i ps = All (λ j. i ≢ j → address_to_fr l i ≢ address_to_fr l j) ps

  below_ne_zero :
      (i j : Address)
      → f.one ≢ f.zero
      → (i ≢ j → address_to_fr l i ≢ address_to_fr l j)
      → below i j ≢ f.zero
  below_ne_zero i j o h = elim (Bool-cases (i == j)) [
    | inl e ↦ rw e o
    | inr n ↦
        rw n (
          sub_ne_zero (address_to_fr l i) (address_to_fr l j) (h (λ e. ground (arith, ==_iff i j))))
  ]

  denominator_ne_zero :
      (i : Address) (ps : List Address) → f.one ≢ f.zero → IsApart i ps → denominator i ps ≢ f.zero
  unfolding denominator
  denominator_ne_zero i ps o h = product_ne_zero ps (below i) o (
      All-map_of (λ j. i ≢ j → address_to_fr l i ≢ address_to_fr l j) (λ j. below i j ≢ f.zero)
        (λ j. below_ne_zero i j o) ps h)

  -- The coefficient is the quotient.
  coefficient_quotient :
      (i : Address) (ps : List Address)
      → f.one ≢ f.zero
      → IsApart i ps
      → denominator i ps ⊗ compute_lagrange_coefficient l i ps ≡ numerator i ps
  coefficient_quotient i ps o h =
      rw
        (
          compute_lagrange_coefficient_lem i ps,
          sym (f.mul_assoc (denominator i ps) (f.inv (denominator i ps)) (numerator i ps)),
          f.mul-inv (denominator i ps) (denominator_ne_zero i ps o h),
          f.one-mul (numerator i ps),
        )
        refl

  -- How the coefficient changes with one more participant.
  pub coefficient-cons :
      (i a : Address) (ps : List Address)
      → f.one ≢ f.zero
      → address_to_fr l i ≢ address_to_fr l a
      → IsApart i ps
      → (address_to_fr l i ⊖ address_to_fr l a) ⊗ compute_lagrange_coefficient l i (a ∷ ps)
        ≡ f.neg (address_to_fr l a) ⊗ compute_lagrange_coefficient l i ps
  unfolding numerator denominator product
  coefficient-cons i a ps o n h =
      let other : i == a ≡ false = elim (Bool-cases (i == a)) [
        | inl e ↦ absurd (n (ap (address_to_fr l) (ground (arith, ==_iff i a))))
        | inr e ↦ e
      ] in
      let d = denominator i ps in
      let c = compute_lagrange_coefficient l i (a ∷ ps) in
      let e = coefficient_quotient i (a ∷ ps) o ((λ _. n), h) in
      let q : d ⊗ ((address_to_fr l i ⊖ address_to_fr l a) ⊗ c)
          ≡ f.neg (address_to_fr l a) ⊗ numerator i ps =
        mul_left_comm d (address_to_fr l i ⊖ address_to_fr l a) c
        ∙ (sym (f.mul_assoc (address_to_fr l i ⊖ address_to_fr l a) d c) ∙ (rw other at e)) in
      mul_cancel d ((address_to_fr l i ⊖ address_to_fr l a) ⊗ c)
        (f.neg (address_to_fr l a) ⊗ compute_lagrange_coefficient l i ps)
        (denominator_ne_zero i ps o h)
        (q
          ∙ sym (
              mul_left_comm d (f.neg (address_to_fr l a)) (compute_lagrange_coefficient l i ps)
              ∙ ap (λ s. f.neg (address_to_fr l a) ⊗ s) (coefficient_quotient i ps o h)))

  above_ne_zero : (i j : Address) → f.one ≢ f.zero → address_to_fr l j ≢ f.zero → above i j ≢ f.zero
  above_ne_zero i j o h = elim (Bool-cases (i == j)) [
    | inl e ↦ rw e o
    | inr n ↦ rw n (neg_ne_zero (address_to_fr l j) h)
  ]

  -- No participant's share is without weight, if no identifier is zero.
  pub coefficient_ne_zero :
      (i : Address) (ps : List Address)
      → f.one ≢ f.zero
      → IsApart i ps
      → All (λ j. address_to_fr l j ≢ f.zero) ps
      → compute_lagrange_coefficient l i ps ≢ f.zero
  unfolding numerator
  coefficient_ne_zero i ps o h z e =
      product_ne_zero ps (above i) o
        (All-map_of (λ j. address_to_fr l j ≢ f.zero) (λ j. above i j ≢ f.zero)
          (λ j. above_ne_zero i j o) ps z)
        (sym (coefficient_quotient i ps o h)
          ∙ (ap (λ s. denominator i ps ⊗ s) e ∙ mul-zero (denominator i ps)))
