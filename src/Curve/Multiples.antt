-- ===== src/Curve/Multiples.antt =====
-- The operations on points at multiples of the generator, which all points of the subgroup are.
use eigenx_kms_go.Prelude.{
  ℕ, true, some, List, ok, ◌≡◌, ◌↔◌, refl, sym, ap, ◌∙◌, nat_eq, list_beq_iff,
}
use mathlib.Core.Option.{some-injective}
use eigenx_kms_go.Types.{G2Point}
use eigenx_kms_go.Field.{Field, ◌⊕◌, ◌⊗◌}
use eigenx_kms_go.Curve.{
  Curve, or_invalid, point_from_compressed_bytes, scalar_mul, scalar_mul_g2, add_points, add_g2,
  g2_generator, zero_g2_point, is_equal_g2,
}

module _ {ℓ κ} {F : Type ℓ} ⦃f : Field F⦄ {P : Type κ} (c : Curve F f P) where
  abbrev pub multiple : F → P
  multiple k = c.scalar_multiplication c.generator k

  abbrev pub multiple_bytes : F → List ℕ
  multiple_bytes k = c.bytes (multiple k)

  -- The point of G2 that commits to a scalar.
  abbrev pub g2_multiple : F → G2Point
  g2_multiple k = record { compressed_bytes = multiple_bytes k }

  pub in_sub_group : (k : F) → c.is_in_sub_group (multiple k) ≡ true
  in_sub_group k = c.multiple_in c.generator k c.generator_in

  pub decode-multiple : (k : F) → c.set_bytes (multiple_bytes k) ≡ some (multiple k)
  decode-multiple k = c.set_bytes-bytes (multiple k) (in_sub_group k)

  pub multiple_bytes_injective : (k m : F) → multiple_bytes k ≡ multiple_bytes m → k ≡ m
  multiple_bytes_injective k m e =
      c.multiple_injective k m
        (some-injective _ _ (sym (decode-multiple k) ∙ (ap c.set_bytes e ∙ decode-multiple m)))

  pub decode_point :
      {p : P} → c.is_in_sub_group p ≡ true → point_from_compressed_bytes c (c.bytes p) ≡ ok p
  unfolding point_from_compressed_bytes
  decode_point {p} i = ap or_invalid (c.set_bytes-bytes p i)

  pub scalar_mul_in :
      {p : P} (k : F)
      → c.is_in_sub_group p ≡ true
      → scalar_mul c p k ≡ ok (c.scalar_multiplication p k)
  unfolding scalar_mul
  scalar_mul_in k i = rw i refl

  pub add_in :
      {p q : P}
      → c.is_in_sub_group p ≡ true
      → c.is_in_sub_group q ≡ true
      → add_points c p q ≡ ok (c.add p q)
  unfolding add_points
  add_in i j = rw (i, j) refl

  pub scalar_mul_g2-generator : (k : F) → scalar_mul_g2 c (g2_generator c) k ≡ ok (g2_multiple k)
  unfolding scalar_mul_g2
  scalar_mul_g2-generator k =
      rw (scalar_mul_g2, decode_point c.generator_in, scalar_mul_in k c.generator_in) refl

  pub scalar_mul_g2-multiple :
      (k m : F) → scalar_mul_g2 c (g2_multiple k) m ≡ ok (g2_multiple (k ⊗ m))
  unfolding scalar_mul_g2
  scalar_mul_g2-multiple k m =
      rw
        (
          scalar_mul_g2,
          decode_point (in_sub_group k),
          scalar_mul_in m (in_sub_group k),
          c.multiple-multiple c.generator k m c.generator_in,
        )
        refl

  pub add_g2-multiples :
      (k m : F) → add_g2 c (g2_multiple k) (g2_multiple m) ≡ ok (g2_multiple (k ⊕ m))
  unfolding add_g2
  add_g2-multiples k m =
      rw
        (
          add_g2,
          decode_point (in_sub_group k),
          decode_point (in_sub_group m),
          add_in (in_sub_group k) (in_sub_group m),
          c.add-multiples c.generator k m c.generator_in,
        )
        refl

  infinity_in : c.is_in_sub_group c.infinity ≡ true
  infinity_in = ap c.is_in_sub_group (sym c.multiple-zero) ∙ in_sub_group f.zero

  pub decode_zero : point_from_compressed_bytes c (c.marshal c.infinity) ≡ ok c.infinity
  unfolding point_from_compressed_bytes
  decode_zero = ap or_invalid (c.set_bytes-marshal c.infinity infinity_in)

  pub add_g2-zero :
      (k : F) → add_g2 c (zero_g2_point c) (g2_multiple k) ≡ ok (g2_multiple (f.zero ⊕ k))
  unfolding add_g2
  add_g2-zero k =
      rw (add_g2, decode_zero, decode_point (in_sub_group k), add_in infinity_in (in_sub_group k))
        (ap (λ p. ok (record { compressed_bytes = c.bytes p }))
          (ap (λ z. c.add z (multiple k)) (sym c.multiple-zero)
            ∙ c.add-multiples c.generator f.zero k c.generator_in))

  pub is_equal_g2_iff : (k m : F) → (is_equal_g2 (g2_multiple k) (g2_multiple m) ≡ true) ↔ (k ≡ m)
  is_equal_g2_iff k m =
      let d = list_beq_iff (multiple_bytes k) (multiple_bytes m) in
      ((λ h. multiple_bytes_injective k m (d.0 h)), (λ e. d.1 (ap multiple_bytes e)))
