-- ===== src/Polynomial/Total.antt =====
-- The sum of polynomials, coefficient by coefficient.
use eigenx_kms_go.Prelude.{
  ℕ, zero, suc, ◌≡◌, refl, sym, ap, ◌∙◌, List, [], ◌∷◌, All, length, replicate, length-replicate,
  arith, subst,
}
use mathlib.Core.Path.{fun_ext}
use eigenx_kms_go.Field.{Field, ◌⊕◌, ◌⊗◌, add-zero, mul-zero, zero-mul}
use eigenx_kms_go.Field.Sums.{sum}
use eigenx_kms_go.Polynomial.Interpolation.{value, constant_of}

module _ {ℓ} {F : Type ℓ} ⦃f : Field F⦄ where
  unfoldable pub plus : List F → List F → List F
  plus [] ds = []
  plus (p ∷ ps) [] = p ∷ ps
  plus (p ∷ ps) (d ∷ ds) = (p ⊕ d) ∷ plus ps ds

  unfoldable pub total : List F → List (List F) → List F
  total acc [] = acc
  total acc (g ∷ gs) = total (plus acc g) gs

  length-plus : (ps ds : List F) → length (plus ps ds) ≡ length ps
  unfolding plus
  length-plus [] ds = refl
  length-plus (p ∷ ps) [] = refl
  length-plus (p ∷ ps) (d ∷ ds) = ap suc (length-plus ps ds)

  pub length-total : (acc : List F) (gs : List (List F)) → length (total acc gs) ≡ length acc
  unfolding total
  length-total acc [] = refl
  length-total acc (g ∷ gs) = length-total (plus acc g) gs ∙ length-plus acc g

  value-plus :
      (ps ds : List F) (x : F)
      → length ds ≡ length ps
      → value (plus ps ds) x ≡ value ps x ⊕ value ds x
  unfolding value plus
  value-plus [] [] x e = sym (f.zero-add f.zero)
  value-plus [] (d ∷ ds) x e = absurd (omega arith)
  value-plus (p ∷ ps) [] x e = absurd (omega arith)
  value-plus (p ∷ ps) (d ∷ ds) x e =
      rw (value-plus ps ds x (omega arith), f.mul-add x (value ps x) (value ds x))
        (simp (f.add_assoc, f.add_comm))

  pub value-total :
      (acc : List F) (gs : List (List F)) (x : F)
      → All (λ g. length g ≡ length acc) gs
      → value (total acc gs) x ≡ value acc x ⊕ sum gs (λ g. value g x)
  unfolding total sum
  value-total acc [] x h = sym (add-zero (value acc x))
  value-total acc (g ∷ gs) x h =
      value-total (plus acc g) gs x
        (subst (λ n. All (λ g'. length g' ≡ n) gs) (sym (length-plus acc g)) h.1)
      ∙ (ap (λ v. v ⊕ sum gs (λ g'. value g' x)) (value-plus acc g x h.0)
          ∙ f.add_assoc (value acc x) (value g x) (sum gs (λ g'. value g' x)))

  pub value-replicate : (n : ℕ) (x : F) → value (replicate n f.zero) x ≡ f.zero
  unfolding value
  value-replicate zero x = refl
  value-replicate (suc n) x = f.zero-add _ ∙ (ap (λ v. x ⊗ v) (value-replicate n x) ∙ mul-zero x)

  pub constant_of-value : (cs : List F) → constant_of cs ≡ value cs f.zero
  unfolding value constant_of
  constant_of-value [] = refl
  constant_of-value (c ∷ cs) = sym (ap (λ s. c ⊕ s) (zero-mul (value cs f.zero)) ∙ add-zero c)

  -- The sum of polynomials with `n` coefficients each.
  abbrev pub total_of : ℕ → List (List F) → List F
  total_of n gs = total (replicate n f.zero) gs

  pub length-total_of : (n : ℕ) (gs : List (List F)) → length (total_of n gs) ≡ n
  length-total_of n gs = length-total (replicate n f.zero) gs ∙ length-replicate n f.zero

  pub value-total_of :
      (n : ℕ) (gs : List (List F)) (x : F)
      → All (λ g. length g ≡ n) gs
      → value (total_of n gs) x ≡ sum gs (λ g. value g x)
  value-total_of n gs x h =
      value-total (replicate n f.zero) gs x
        (subst (λ m. All (λ g. length g ≡ m) gs) (sym (length-replicate n f.zero)) h)
      ∙ (ap (λ v. v ⊕ sum gs (λ g. value g x)) (value-replicate n x) ∙ f.zero-add _)

  pub constant_of-total_of :
      (n : ℕ) (gs : List (List F))
      → All (λ g. length g ≡ n) gs
      → constant_of (total_of n gs) ≡ sum gs constant_of
  constant_of-total_of n gs h =
      constant_of-value (total_of n gs)
      ∙ (value-total_of n gs f.zero h ∙ ap (sum gs) (fun_ext (λ g. sym (constant_of-value g))))
