-- ===== src/Polynomial/Interpolation.antt =====
-- Lagrange interpolation at zero with the coefficients of pkg/bls/polynomial.go.
use eigenx_kms_go.Prelude.{
  ◌≤◌, ◌≡◌, ◌≢◌, refl, sym, ap, ◌∙◌, List, [], ◌∷◌, All, All-map_of, length, arith,
}
use mathlib.Core.Path.{fun_ext}
use mathlib.Core.List.{Permᴰ}
use eigenx_kms_go.Prelude.{true, ◌==◌}
use eigenx_kms_go.Types.{Address}
use eigenx_kms_go.Field.{
  Field, ◌⊕◌, ◌⊗◌, ◌⊖◌, add-zero, mul-one, mul-zero, zero-mul, mul_left_comm, mul_cancel,
  add_cancel, add-mul, sub_ne_zero, sub-add, neg-mul_add, sub_self, neg-sub, sub_split, inv-one,
}
use eigenx_kms_go.Field.Sums.{sum, sum_congr, sum-add, mul-sum, sum_perm}
use eigenx_kms_go.Polynomial.{Library, address_to_fr, compute_lagrange_coefficient, lagrange_loop}
use eigenx_kms_go.Polynomial.Coefficients.{IsApart, coefficient_perm, coefficient-cons}

-- The value of a polynomial by its coefficients, the constant first.
module _ {ℓ} {F : Type ℓ} ⦃f : Field F⦄ where
  unfoldable pub value : List F → F → F
  value [] x = f.zero
  value (c ∷ cs) x = c ⊕ x ⊗ value cs x

  -- Only the value at zero of the first coefficient is left.
  unfoldable pub constant_of : List F → F
  constant_of [] = f.zero
  constant_of (c ∷ cs) = c

module _ {ℓ} {F : Type ℓ} ⦃f : Field F⦄ (l : Library F f) where
  -- The participants have pairwise different identifiers.
  unfoldable pub IsSeparated : List Address → Type ℓ
  IsSeparated [] = Unit
  IsSeparated (a ∷ rest) = All (λ b. address_to_fr l b ≢ address_to_fr l a) rest × IsSeparated rest

  -- The interpolation of `g` at zero.
  abbrev pub interpolate : List Address → (Address → F) → F
  interpolate ps g = sum ps (λ i. compute_lagrange_coefficient l i ps ⊗ g i)

  All-IsApart :
      (a : Address) (ps qs : List Address)
      → All (λ b. address_to_fr l b ≢ address_to_fr l a) ps
      → All (λ i. IsApart l i qs) ps
      → All (λ i. IsApart l i (a ∷ qs)) ps
  All-IsApart a [] qs h k = tt
  All-IsApart a (b ∷ ps) qs h k = (((λ _. h.0), k.0), All-IsApart a ps qs h.1 k.1)

  pub IsSeparated-IsApart : (ps : List Address) → IsSeparated ps → All (λ i. IsApart l i ps) ps
  unfolding IsSeparated
  IsSeparated-IsApart [] h = tt
  IsSeparated-IsApart (a ∷ ps) h = (
    (
      (λ n. absurd (n refl)),
      All-map_of (λ b. address_to_fr l b ≢ address_to_fr l a)
          (λ j. a ≢ j → address_to_fr l a ≢ address_to_fr l j) (λ j n _ e. n (sym e)) ps h.0,
    ),
    All-IsApart a ps ps h.0 (IsSeparated-IsApart ps h.1),
  )

  pub interpolate_perm :
      {ps qs : List Address} (g : Address → F) → Permᴰ ps qs → interpolate ps g ≡ interpolate qs g
  interpolate_perm {ps} {qs} g p =
      sum_perm (λ i. compute_lagrange_coefficient l i ps ⊗ g i) p
      ∙ ap (sum qs) (fun_ext (λ i. ap (λ c. c ⊗ g i) (coefficient_perm l i p)))

  pub interpolate-add :
      (ps : List Address) (g h : Address → F)
      → interpolate ps (λ i. g i ⊕ h i) ≡ interpolate ps g ⊕ interpolate ps h
  interpolate-add ps g h =
      ap (sum ps) (fun_ext (λ i. f.mul-add (compute_lagrange_coefficient l i ps) (g i) (h i)))
      ∙ sum-add ps _ _

  pub interpolate-scale :
      (ps : List Address) (c : F) (g : Address → F)
      → interpolate ps (λ i. c ⊗ g i) ≡ c ⊗ interpolate ps g
  interpolate-scale ps c g =
      ap (sum ps) (fun_ext (λ i. mul_left_comm (compute_lagrange_coefficient l i ps) c (g i)))
      ∙ sym (mul-sum ps c _)

  regroup : {s c n d : F} (y : F) → s ⊗ c ≡ n ⊗ d → c ⊗ (s ⊗ y) ≡ n ⊗ (d ⊗ y)
  regroup {s} {c} {n} {d} y e =
      mul_left_comm c s y ∙ (sym (f.mul_assoc s c y) ∙ (ap (λ x. x ⊗ y) e ∙ f.mul_assoc n d y))

  root_terms :
      (a : Address) (ps qs : List Address) (g : Address → F)
      → f.one ≢ f.zero
      → All (λ b. address_to_fr l b ≢ address_to_fr l a) qs
      → All (λ i. IsApart l i ps) qs
      → All
          (λ i.
            compute_lagrange_coefficient l i (a ∷ ps)
              ⊗ ((address_to_fr l i ⊖ address_to_fr l a) ⊗ g i)
            ≡ f.neg (address_to_fr l a) ⊗ (compute_lagrange_coefficient l i ps ⊗ g i))
          qs
  root_terms a ps [] g o h k = tt
  root_terms a ps (i ∷ qs) g o h k =
      (regroup (g i) (coefficient-cons l i a ps o h.0 k.0), root_terms a ps qs g o h.1 k.1)

  -- A participant where the function is zero can be left out.
  pub interpolate-root :
      (a : Address) (ps : List Address) (g : Address → F)
      → f.one ≢ f.zero
      → IsSeparated (a ∷ ps)
      → interpolate (a ∷ ps) (λ i. (address_to_fr l i ⊖ address_to_fr l a) ⊗ g i)
        ≡ f.neg (address_to_fr l a) ⊗ interpolate ps g
  unfolding IsSeparated sum
  interpolate-root a ps g o h =
      let c = compute_lagrange_coefficient l a (a ∷ ps) in
      let head : c ⊗ ((address_to_fr l a ⊖ address_to_fr l a) ⊗ g a) ≡ f.zero =
        rw (sub_self (address_to_fr l a), zero-mul (g a)) (mul-zero c) in
      rw head (
        f.zero-add _
        ∙ (sum_congr ps _ _ (root_terms a ps ps g o h.0 (IsSeparated-IsApart ps h.1))
            ∙ sym (
                mul-sum ps (f.neg (address_to_fr l a))
                  (λ i. compute_lagrange_coefficient l i ps ⊗ g i))))

  lone_participant :
      (a : Address) → f.one ≢ f.zero → compute_lagrange_coefficient l a (a ∷ []) ≡ f.one
  unfolding compute_lagrange_coefficient lagrange_loop
  lone_participant a o = let e : a == a ≡ true = ground arith in rw (e, inv-one o) (f.one-mul f.one)

  -- The coefficients add up to one.
  pub interpolate-one :
      (a : Address) (ps : List Address)
      → f.one ≢ f.zero
      → IsSeparated (a ∷ ps)
      → interpolate (a ∷ ps) (λ i. f.one) ≡ f.one
  unfolding IsSeparated sum
  interpolate-one a [] o h = add-zero _ ∙ (mul-one _ ∙ lone_participant a o)
  interpolate-one a (b ∷ ps) o h =
      let u = address_to_fr l a in
      let v = address_to_fr l b in
      let total = interpolate (a ∷ b ∷ ps) (λ i. f.one) in
      let without_a : interpolate (a ∷ b ∷ ps) (λ i. (address_to_fr l i ⊖ u) ⊗ f.one) ≡ f.neg u =
        interpolate-root a (b ∷ ps) (λ i. f.one) o h
        ∙ (ap (λ s. f.neg u ⊗ s) (interpolate-one b ps o h.1) ∙ mul-one (f.neg u)) in
      let without_b : interpolate (a ∷ b ∷ ps) (λ i. (address_to_fr l i ⊖ v) ⊗ f.one) ≡ f.neg v =
        interpolate_perm (λ i. (address_to_fr l i ⊖ v) ⊗ f.one) (Permᴰ.swap refl refl)
        ∙ (interpolate-root b (a ∷ ps) (λ i. f.one) o
              ((((λ e. h.0.0 (sym e)), h.1.0)), (h.0.1, h.1.1))
            ∙ (ap (λ s. f.neg v ⊗ s) (interpolate-one a ps o (h.0.1, h.1.1))
                ∙ mul-one (f.neg v))) in
      let split : f.neg u ≡ f.neg v ⊕ (v ⊖ u) ⊗ total =
        sym without_a
        ∙ (ap (interpolate (a ∷ b ∷ ps)) (
              fun_ext (λ i.
                ap (λ s. s ⊗ f.one) (sub_split (address_to_fr l i) u v)
                ∙ add-mul (address_to_fr l i ⊖ v) (v ⊖ u) f.one))
            ∙ (interpolate-add (a ∷ b ∷ ps) (λ i. (address_to_fr l i ⊖ v) ⊗ f.one)
                  (λ i. (v ⊖ u) ⊗ f.one)
                ∙ rw (without_b, interpolate-scale (a ∷ b ∷ ps) (v ⊖ u) (λ i. f.one)) refl)) in
      mul_cancel (v ⊖ u) total f.one (sub_ne_zero v u h.0.0) (
        add_cancel (f.neg v) ((v ⊖ u) ⊗ total) ((v ⊖ u) ⊗ f.one)
          (sym split ∙ (sym (neg-sub v u) ∙ ap (λ s. f.neg v ⊕ s) (sym (mul-one (v ⊖ u))))))

  interpolate-constant :
      (ps : List Address) (c : F) → interpolate ps (λ i. c) ≡ c ⊗ interpolate ps (λ i. f.one)
  interpolate-constant ps c =
      ap (λ d. interpolate ps (λ i. d)) (sym (mul-one c)) ∙ interpolate-scale ps c (λ i. f.one)

  pub interpolate-zero : (ps : List Address) → interpolate ps (λ i. f.zero) ≡ f.zero
  interpolate-zero ps = interpolate-constant ps f.zero ∙ zero-mul _

  split_root : (x a v : F) → x ⊗ v ≡ (x ⊖ a) ⊗ v ⊕ a ⊗ v
  split_root x a v = ap (λ s. s ⊗ v) (sym (sub-add x a)) ∙ add-mul (x ⊖ a) a v

  -- The interpolation of a polynomial with at most as many coefficients as there are participants.
  pub interpolate-value :
      (cs : List F) (ps : List Address)
      → f.one ≢ f.zero
      → IsSeparated ps
      → length cs ≤ length ps
      → interpolate ps (λ i. value cs (address_to_fr l i)) ≡ constant_of cs
  unfolding value constant_of IsSeparated
  interpolate-value [] ps o h n = interpolate-zero ps
  interpolate-value (c ∷ cs) [] o h n = absurd (omega arith)
  interpolate-value (c ∷ cs) (a ∷ ps) o h n =
      let u = address_to_fr l a in
      let v : Address → F = λ i. value cs (address_to_fr l i) in
      let at_zero = interpolate-value cs ps o h.1 (omega arith) in
      let at_zero' = interpolate-value cs (a ∷ ps) o h (omega arith) in
      ap (interpolate (a ∷ ps))
        (fun_ext (λ i. ap (λ s. c ⊕ s) (split_root (address_to_fr l i) u (v i))))
      ∙ (interpolate-add (a ∷ ps) (λ i. c) (λ i. (address_to_fr l i ⊖ u) ⊗ v i ⊕ u ⊗ v i)
          ∙ rw
              (
                interpolate-constant (a ∷ ps) c,
                interpolate-one a ps o h,
                mul-one c,
                interpolate-add (a ∷ ps) (λ i. (address_to_fr l i ⊖ u) ⊗ v i) (λ i. u ⊗ v i),
                interpolate-root a ps v o h,
                interpolate-scale (a ∷ ps) u v,
                at_zero,
                at_zero',
                neg-mul_add u (constant_of cs),
              )
              (add-zero c))

  -- Two sums may be exchanged.
  pub interpolate-sum :
      (ps ds : List Address) (k : Address → F) (h : Address → Address → F)
      → interpolate ps (λ i. sum ds (λ d. k d ⊗ h d i)) ≡ sum ds (λ d. k d ⊗ interpolate ps (h d))
  unfolding sum
  interpolate-sum ps [] k h = interpolate-zero ps
  interpolate-sum ps (d ∷ ds) k h =
      interpolate-add ps (λ i. k d ⊗ h d i) (λ i. sum ds (λ e. k e ⊗ h e i))
      ∙ rw (interpolate-scale ps (k d) (h d), interpolate-sum ps ds k h) refl
