-- ===== src/Curve.antt =====
-- The groups of BLS12-381: pkg/bls/operations.go, and the functions of pkg/crypto/bls.go that do the
-- same on compressed bytes. `Curve` is one of the two groups as gnark-crypto gives it; `P` is its
-- affine points.
pub mod Multiples
use eigenx_kms_go.Prelude.{
  ℕ, Bool, true, false, not, Option, none, some, List, [], ◌∷◌, Result, ok, err, ◌>>=◌, ◌>>◌, guard,
  length, ◌≡◌, ◌↔◌, nat_eq, list_beq,
}
use eigenx_kms_go.Types.{G1Point, G2Point}
use eigenx_kms_go.Field.{Field}

-- The sum that `MultiExp` documents.
unfoldable pub combination {ℓ κ} :
    {F : Type ℓ} {P : Type κ} → (P → P → P) → (P → F → P) → P → List P → List F → P
combination add mul infinity [] ks = infinity
combination add mul infinity (p ∷ ps) [] = infinity
combination add mul infinity (p ∷ ps) (k ∷ ks) = add (mul p k) (combination add mul infinity ps ks)

-- `Bytes` is the compressed form, `Marshal` the uncompressed one, and `SetBytes` reads both;
-- `is_in_sub_group` tells the points of the
-- subgroup of prime order, over which the scalars act; `generator` generates it.
pub record Curve {ℓ κ} (F : Type ℓ) (f : Field F) (P : Type κ) : Type (ℓ ⊔ κ) where
  pub generator : P
  pub infinity : P
  pub set_bytes : List ℕ → Option P
  pub bytes : P → List ℕ
  pub marshal : P → List ℕ
  pub is_in_sub_group : P → Bool
  pub is_infinity : P → Bool
  pub point_equal : P → P → Bool
  pub add : P → P → P
  pub scalar_multiplication : P → F → P
  pub multi_exp : List P → List F → Option P
  pub generator_in : is_in_sub_group generator ≡ true
  pub multiple_in :
      (p : P) (k : F)
      → is_in_sub_group p ≡ true
      → is_in_sub_group (scalar_multiplication p k) ≡ true
  pub set_bytes-bytes : (p : P) → is_in_sub_group p ≡ true → set_bytes (bytes p) ≡ some p
  pub set_bytes-marshal : (p : P) → is_in_sub_group p ≡ true → set_bytes (marshal p) ≡ some p
  pub add-multiples :
      (p : P) (k m : F)
      → is_in_sub_group p ≡ true
      → add (scalar_multiplication p k) (scalar_multiplication p m)
        ≡ scalar_multiplication p (f.add k m)
  pub multiple-multiple :
      (p : P) (k m : F)
      → is_in_sub_group p ≡ true
      → scalar_multiplication (scalar_multiplication p k) m ≡ scalar_multiplication p (f.mul k m)
  pub multiple-zero : scalar_multiplication generator f.zero ≡ infinity
  pub multiple_injective :
      (k m : F) → scalar_multiplication generator k ≡ scalar_multiplication generator m → k ≡ m
  pub multi_exp_lem :
      (ps : List P) (ks : List F)
      → length ps ≡ length ks
      → multi_exp ps ks ≡ some (combination add scalar_multiplication infinity ps ks)
  pub is_infinity_iff : (p : P) → (is_infinity p ≡ true) ↔ (p ≡ infinity)
  pub point_equal_iff : (p q : P) → (point_equal p q ≡ true) ↔ (p ≡ q)

pub data CurveError : Type 0 where
  invalid_encoding : CurveError
  not_in_sub_group : CurveError

abbrev pub or_invalid {ℓ} : {P : Type ℓ} → Option P → Result CurveError P
or_invalid none = err invalid_encoding
or_invalid (some p) = ok p

module _ {ℓ κ} {F : Type ℓ} ⦃f : Field F⦄ {P : Type κ} (c : Curve F f P) where
  -- `ScalarMulG1` and `ScalarMulG2` of pkg/bls, at a point and a scalar that are not nil.
  unfoldable pub scalar_mul : P → F → Result CurveError P
  scalar_mul p k = guard (c.is_in_sub_group p) not_in_sub_group >> ok (c.scalar_multiplication p k)

  -- `AddG1` and `AddG2` of pkg/bls.
  unfoldable pub add_points : P → P → Result CurveError P
  add_points a b =
      guard (c.is_in_sub_group a) not_in_sub_group
      >> (guard (c.is_in_sub_group b) not_in_sub_group >> ok (c.add a b))

  -- `G1PointFromCompressedBytes` and `G2PointFromCompressedBytes`.
  unfoldable pub point_from_compressed_bytes : List ℕ → Result CurveError P
  point_from_compressed_bytes bytes = or_invalid (c.set_bytes bytes)

  unfoldable pub scalar_mul_g1 : G1Point → F → Result CurveError G1Point
  unfolding scalar_mul point_from_compressed_bytes
  scalar_mul_g1 point scalar = point_from_compressed_bytes point.compressed_bytes >>= λ p.
      scalar_mul p scalar >>= λ r. ok (record { compressed_bytes = c.bytes r })

  unfoldable pub scalar_mul_g2 : G2Point → F → Result CurveError G2Point
  unfolding scalar_mul point_from_compressed_bytes
  scalar_mul_g2 point scalar = point_from_compressed_bytes point.compressed_bytes >>= λ p.
      scalar_mul p scalar >>= λ r. ok (record { compressed_bytes = c.bytes r })

  unfoldable pub add_g1 : G1Point → G1Point → Result CurveError G1Point
  unfolding add_points point_from_compressed_bytes
  add_g1 a b = point_from_compressed_bytes a.compressed_bytes >>= λ p.
      point_from_compressed_bytes b.compressed_bytes >>= λ q.
      add_points p q >>= λ r. ok (record { compressed_bytes = c.bytes r })

  unfoldable pub add_g2 : G2Point → G2Point → Result CurveError G2Point
  unfolding add_points point_from_compressed_bytes
  add_g2 a b = point_from_compressed_bytes a.compressed_bytes >>= λ p.
      point_from_compressed_bytes b.compressed_bytes >>= λ q.
      add_points p q >>= λ r. ok (record { compressed_bytes = c.bytes r })

  abbrev pub g1_generator : G1Point
  g1_generator = record { compressed_bytes = c.bytes c.generator }

  abbrev pub g2_generator : G2Point
  g2_generator = record { compressed_bytes = c.bytes c.generator }

  -- The points at infinity are made by `Marshal`, not `Bytes`.
  abbrev pub zero_g1_point : G1Point
  zero_g1_point = record { compressed_bytes = c.marshal c.infinity }

  abbrev pub zero_g2_point : G2Point
  zero_g2_point = record { compressed_bytes = c.marshal c.infinity }

  unfoldable pub is_zero_g1 : G1Point → Result CurveError Bool
  unfolding point_from_compressed_bytes
  is_zero_g1 point =
      point_from_compressed_bytes point.compressed_bytes >>= λ p. ok (c.is_infinity p)

  unfoldable pub is_zero_g2 : G2Point → Result CurveError Bool
  unfolding point_from_compressed_bytes
  is_zero_g2 point =
      point_from_compressed_bytes point.compressed_bytes >>= λ p. ok (c.is_infinity p)

-- `IsEqual` of the two point types.
abbrev pub is_equal_g1 : G1Point → G1Point → Bool
is_equal_g1 a b = list_beq a.compressed_bytes b.compressed_bytes

abbrev pub is_equal_g2 : G2Point → G2Point → Bool
is_equal_g2 a b = list_beq a.compressed_bytes b.compressed_bytes
