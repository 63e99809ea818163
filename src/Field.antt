-- ===== src/Field.antt =====
-- The field of scalars: `fr.Element` of gnark-crypto, which every share and coefficient is. The
-- record holds the operations that pkg/bls/polynomial.go calls and the laws of a field that the
-- library documents; `inv` of zero is left open. The lemmas are those that interpolation needs.
pub mod Sums
use eigenx_kms_go.Prelude.{Bool, true, ◌≡◌, ◌≢◌, ◌↔◌, refl, sym, ap, ◌∙◌}

pub record Field {ℓ} (F : Type ℓ) : Type ℓ where
  pub zero : F
  pub one : F
  pub add : F → F → F
  pub mul : F → F → F
  pub neg : F → F
  pub sub : F → F → F
  pub inv : F → F
  pub is_zero : F → Bool
  pub add_assoc : (a b c : F) → add (add a b) c ≡ add a (add b c)
  pub add_comm : (a b : F) → add a b ≡ add b a
  pub zero-add : (a : F) → add zero a ≡ a
  pub add-neg : (a : F) → add a (neg a) ≡ zero
  pub sub_lem : (a b : F) → sub a b ≡ add a (neg b)
  pub mul_assoc : (a b c : F) → mul (mul a b) c ≡ mul a (mul b c)
  pub mul_comm : (a b : F) → mul a b ≡ mul b a
  pub one-mul : (a : F) → mul one a ≡ a
  pub mul-add : (a b c : F) → mul a (add b c) ≡ add (mul a b) (mul a c)
  pub mul-inv : (a : F) → a ≢ zero → mul a (inv a) ≡ one
  pub is_zero_iff : (a : F) → (is_zero a ≡ true) ↔ (a ≡ zero)

module _ {ℓ} {F : Type ℓ} ⦃f : Field F⦄ where
  infixl 65 ◌⊕◌ ◌⊖◌
  infixl 70 ◌⊗◌
  abbrev pub ◌⊕◌ : F → F → F
  a ⊕ b = f.add a b

  abbrev pub ◌⊗◌ : F → F → F
  a ⊗ b = f.mul a b

  abbrev pub ◌⊖◌ : F → F → F
  a ⊖ b = f.sub a b

  pub add-zero : (a : F) → a ⊕ f.zero ≡ a
  add-zero a = f.add_comm a f.zero ∙ f.zero-add a

  pub add_left_comm : (a b c : F) → a ⊕ (b ⊕ c) ≡ b ⊕ (a ⊕ c)
  add_left_comm a b c =
      sym (f.add_assoc a b c) ∙ ap (λ s. s ⊕ c) (f.add_comm a b) ∙ f.add_assoc b a c

  pub mul_left_comm : (a b c : F) → a ⊗ (b ⊗ c) ≡ b ⊗ (a ⊗ c)
  mul_left_comm a b c =
      sym (f.mul_assoc a b c) ∙ ap (λ s. s ⊗ c) (f.mul_comm a b) ∙ f.mul_assoc b a c

  pub mul-one : (a : F) → a ⊗ f.one ≡ a
  mul-one a = f.mul_comm a f.one ∙ f.one-mul a

  pub add-mul : (a b c : F) → (a ⊕ b) ⊗ c ≡ a ⊗ c ⊕ b ⊗ c
  add-mul a b c = rw (f.mul_comm (a ⊕ b) c, f.mul_comm a c, f.mul_comm b c) (f.mul-add c a b)

  neg-add : (a b : F) → f.neg a ⊕ (a ⊕ b) ≡ b
  neg-add a b =
      sym (f.add_assoc (f.neg a) a b)
      ∙ (ap (λ s. s ⊕ b) (f.add_comm (f.neg a) a ∙ f.add-neg a) ∙ f.zero-add b)

  pub add_cancel : (a b c : F) → a ⊕ b ≡ a ⊕ c → b ≡ c
  add_cancel a b c e = sym (neg-add a b) ∙ (ap (λ s. f.neg a ⊕ s) e ∙ neg-add a c)

  pub mul-zero : (a : F) → a ⊗ f.zero ≡ f.zero
  mul-zero a = add_cancel (a ⊗ f.zero) (a ⊗ f.zero) f.zero (
      sym (f.mul-add a f.zero f.zero)
      ∙ (ap (λ s. a ⊗ s) (f.zero-add f.zero) ∙ sym (add-zero (a ⊗ f.zero))))

  pub zero-mul : (a : F) → f.zero ⊗ a ≡ f.zero
  zero-mul a = f.mul_comm f.zero a ∙ mul-zero a

  pub neg_unique : (a b : F) → a ⊕ b ≡ f.zero → b ≡ f.neg a
  neg_unique a b e = add_cancel a b (f.neg a) (e ∙ sym (f.add-neg a))

  pub mul-neg : (a b : F) → a ⊗ f.neg b ≡ f.neg (a ⊗ b)
  mul-neg a b =
      neg_unique (a ⊗ b) (a ⊗ f.neg b)
        (sym (f.mul-add a b (f.neg b)) ∙ (ap (λ s. a ⊗ s) (f.add-neg b) ∙ mul-zero a))

  pub neg-mul : (a b : F) → f.neg a ⊗ b ≡ f.neg (a ⊗ b)
  neg-mul a b = f.mul_comm (f.neg a) b ∙ (mul-neg b a ∙ ap f.neg (f.mul_comm b a))

  -- A product with a factor that is not zero can be cancelled.
  pub mul_cancel : (a b c : F) → a ≢ f.zero → a ⊗ b ≡ a ⊗ c → b ≡ c
  mul_cancel a b c n e = sym (undo b) ∙ ap (λ s. f.inv a ⊗ s) e ∙ undo c
    where
      undo : (x : F) → f.inv a ⊗ (a ⊗ x) ≡ x
      undo x =
          sym (f.mul_assoc (f.inv a) a x)
          ∙ (ap (λ s. s ⊗ x) (f.mul_comm (f.inv a) a ∙ f.mul-inv a n) ∙ f.one-mul x)

  pub mul_ne_zero : (a b : F) → a ≢ f.zero → b ≢ f.zero → a ⊗ b ≢ f.zero
  mul_ne_zero a b n m e = m (mul_cancel a b f.zero n (e ∙ sym (mul-zero a)))

  pub sub_ne_zero : (a b : F) → a ≢ b → a ⊖ b ≢ f.zero
  sub_ne_zero a b n e = n (
      add_cancel (f.neg b) a b (
        f.add_comm (f.neg b) a
        ∙ (sym (f.sub_lem a b) ∙ (e ∙ (sym (f.add-neg b) ∙ f.add_comm b (f.neg b))))))

  pub neg_ne_zero : (a : F) → a ≢ f.zero → f.neg a ≢ f.zero
  neg_ne_zero a n e = n (sym (add-zero a) ∙ (ap (λ s. a ⊕ s) (sym e) ∙ f.add-neg a))

  pub sub_self : (a : F) → a ⊖ a ≡ f.zero
  sub_self a = f.sub_lem a a ∙ f.add-neg a

  pub neg-sub : (a b : F) → f.neg a ⊕ (a ⊖ b) ≡ f.neg b
  neg-sub a b = ap (λ s. f.neg a ⊕ s) (f.sub_lem a b) ∙ neg-add a (f.neg b)

  pub sub_split : (x a b : F) → x ⊖ a ≡ (x ⊖ b) ⊕ (b ⊖ a)
  sub_split x a b =
      f.sub_lem x a
      ∙ sym (
          ap (λ s. s ⊕ (b ⊖ a)) (f.sub_lem x b)
          ∙ (f.add_assoc x (f.neg b) (b ⊖ a) ∙ ap (λ s. x ⊕ s) (neg-sub b a)))

  pub inv-one : f.one ≢ f.zero → f.inv f.one ≡ f.one
  inv-one o = sym (f.one-mul (f.inv f.one)) ∙ f.mul-inv f.one o

  pub sub-add : (x a : F) → (x ⊖ a) ⊕ a ≡ x
  sub-add x a =
      ap (λ s. s ⊕ a) (f.sub_lem x a)
      ∙ (f.add_assoc x (f.neg a) a
          ∙ (ap (λ s. x ⊕ s) (f.add_comm (f.neg a) a ∙ f.add-neg a) ∙ add-zero x))

  pub neg-mul_add : (a b : F) → f.neg a ⊗ b ⊕ a ⊗ b ≡ f.zero
  neg-mul_add a b =
      sym (add-mul (f.neg a) a b)
      ∙ (ap (λ s. s ⊗ b) (f.add_comm (f.neg a) a ∙ f.add-neg a) ∙ zero-mul b)
