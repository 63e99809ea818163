-- ===== src/Field/Sums.antt =====
-- Sums and products of field elements over a list, as the loops over participants accumulate them.
use eigenx_kms_go.Prelude.{◌≡◌, refl, sym, ap, ◌∙◌, ◌≢◌, List, [], ◌∷◌, All}
use mathlib.Core.List.{Permᴰ}
use eigenx_kms_go.Field.{Field, ◌⊕◌, ◌⊗◌, mul-zero, add_left_comm, mul_left_comm, mul_ne_zero}

module _ {ℓ κ} {A : Type κ} {F : Type ℓ} ⦃f : Field F⦄ where
  unfoldable pub sum : List A → (A → F) → F
  sum [] g = f.zero
  sum (x ∷ xs) g = g x ⊕ sum xs g

  pub sum_congr : (xs : List A) (g h : A → F) → All (λ x. g x ≡ h x) xs → sum xs g ≡ sum xs h
  unfolding sum
  sum_congr [] g h e = refl
  sum_congr (x ∷ xs) g h e = rw (e.0, sum_congr xs g h e.1) refl

  pub sum-add : (xs : List A) (g h : A → F) → sum xs (λ x. g x ⊕ h x) ≡ sum xs g ⊕ sum xs h
  unfolding sum
  sum-add [] g h = sym (f.zero-add f.zero)
  sum-add (x ∷ xs) g h = rw (sum-add xs g h) (simp (f.add_assoc, f.add_comm))

  pub mul-sum : (xs : List A) (a : F) (g : A → F) → a ⊗ sum xs g ≡ sum xs (λ x. a ⊗ g x)
  unfolding sum
  mul-sum [] a g = mul-zero a
  mul-sum (x ∷ xs) a g = f.mul-add a (g x) (sum xs g) ∙ ap (λ s. a ⊗ g x ⊕ s) (mul-sum xs a g)

  pub sum_perm : (g : A → F) {xs ys : List A} → Permᴰ xs ys → sum xs g ≡ sum ys g
  unfolding sum
  sum_perm g Permᴰ.nil = refl
  sum_perm g (Permᴰ.cons {b = b} {l₁ = xs} e p) =
      ap (λ a. g a ⊕ sum xs g) e ∙ ap (λ s. g b ⊕ s) (sum_perm g p)
  sum_perm g (Permᴰ.swap {a = a} {b = b} {l = xs} e d) =
      add_left_comm (g a) (g b) (sum xs g) ∙ rw (e, d) refl
  sum_perm g (Permᴰ.trans p q) = sum_perm g p ∙ sum_perm g q

  unfoldable pub product : List A → (A → F) → F
  product [] g = f.one
  product (x ∷ xs) g = g x ⊗ product xs g

  pub product_perm : (g : A → F) {xs ys : List A} → Permᴰ xs ys → product xs g ≡ product ys g
  unfolding product
  product_perm g Permᴰ.nil = refl
  product_perm g (Permᴰ.cons {b = b} {l₁ = xs} e p) =
      ap (λ a. g a ⊗ product xs g) e ∙ ap (λ s. g b ⊗ s) (product_perm g p)
  product_perm g (Permᴰ.swap {a = a} {b = b} {l = xs} e d) =
      mul_left_comm (g a) (g b) (product xs g) ∙ rw (e, d) refl
  product_perm g (Permᴰ.trans p q) = product_perm g p ∙ product_perm g q

  pub product_ne_zero :
      (xs : List A) (g : A → F)
      → f.one ≢ f.zero
      → All (λ x. g x ≢ f.zero) xs
      → product xs g ≢ f.zero
  unfolding product
  product_ne_zero [] g o h = o
  product_ne_zero (x ∷ xs) g o h = mul_ne_zero (g x) (product xs g) h.0 (product_ne_zero xs g o h.1)
