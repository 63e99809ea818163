-- ===== src/Recovery/Keys.antt =====
-- The keys that pkg/crypto/bls.go recovers: the application's private key from enough partial
-- signatures, and the master public key from the dealers' commitments.
use eigenx_kms_go.Prelude.{
  ℕ, ◌<◌, ◌≤◌, ◌≡◌, ◌≢◌, refl, sym, ap, ◌∙◌, Bool, true, false, not, List, [], ◌∷◌, All, ok, err,
  length, if◌then◌else◌, bind-ok, with_error, guard, ltb, ◌>>◌, zero, suc, Bool_ext, length-take,
  arith, nat_eq,
}
use Prim.Native.Nat.{min}
use eigenx_kms_go.Prelude.Maps.{keys, length-keys}
use eigenx_kms_go.Prelude.Sorting.{sort, length-sort}
use eigenx_kms_go.Types.{Address, G1Point}
use eigenx_kms_go.Field.{Field, ◌⊕◌, ◌⊗◌, add-zero}
use eigenx_kms_go.Field.Sums.{sum}
use eigenx_kms_go.Polynomial.{Library, address_to_fr, compute_lagrange_coefficient}
use eigenx_kms_go.Polynomial.Interpolation.{
  value, constant_of, IsSeparated, interpolate, interpolate-value, interpolate-scale,
}
use eigenx_kms_go.Curve.{
  Curve, point_from_compressed_bytes, scalar_mul_g1, add_g1, zero_g1_point, is_zero_g1,
}
use eigenx_kms_go.Curve.Multiples.{
  multiple, decode_point, scalar_mul_in, add_in, in_sub_group, decode_zero,
}
use eigenx_kms_go.Recovery.{
  Sigs, sig_of, add_scaled, chosen, recover_app_private_key, key_is_zero, curve_failed,
  insufficient,
}

module _ {κ} {F : Type 0} ⦃f : Field F⦄ {P : Type κ} (c : Curve F f P) where
  abbrev pub g1_multiple : F → G1Point
  g1_multiple k = record { compressed_bytes = c.bytes (multiple c k) }

  -- The bytes of `p` are those of the multiple by `k`, in either form.
  abbrev pub Spells : G1Point → F → Type κ
  Spells p k = point_from_compressed_bytes c p.compressed_bytes ≡ ok (multiple c k)

  zero-Spells : Spells (zero_g1_point c) f.zero
  zero-Spells = decode_zero c ∙ ap (λ p. ok p) (sym c.multiple-zero)

  pub scalar_mul_g1-multiple :
      (k m : F) → scalar_mul_g1 c (g1_multiple k) m ≡ ok (g1_multiple (k ⊗ m))
  unfolding scalar_mul_g1
  scalar_mul_g1-multiple k m =
      rw
        (
          scalar_mul_g1,
          decode_point c (in_sub_group c k),
          scalar_mul_in c m (in_sub_group c k),
          c.multiple-multiple c.generator k m c.generator_in,
        )
        refl

  add_g1-Spells :
      (p : G1Point) (k m : F) → Spells p k → add_g1 c p (g1_multiple m) ≡ ok (g1_multiple (k ⊕ m))
  unfolding add_g1
  add_g1-Spells p k m h =
      rw
        (
          add_g1,
          h,
          decode_point c (in_sub_group c m),
          add_in c (in_sub_group c k) (in_sub_group c m),
          c.add-multiples c.generator k m c.generator_in,
        )
        refl

module _ {κ} {F : Type 0} ⦃f : Field F⦄ (l : Library F f) {P : Type κ} (c : Curve F f P) where
  weighted : List Address → (Address → F) → List Address → F
  weighted participants g rest = sum rest (λ a. compute_lagrange_coefficient l a participants ⊗ g a)

  -- One step, and then the rest.
  add_scaled-multiples :
      (participants : List Address) (a : Address) (rest : List Address) (sig : Address → G1Point)
      (g : Address → F) (p : G1Point) (k : F)
      → All (λ b. sig b ≡ g1_multiple c (g b)) (a ∷ rest)
      → Spells c p k
      → add_scaled l c participants (a ∷ rest) sig p
        ≡ ok (g1_multiple c (k ⊕ weighted participants g (a ∷ rest)))
  unfolding add_scaled sum weighted
  add_scaled-multiples participants a [] sig g p k h s =
      let w = compute_lagrange_coefficient l a participants in
      bind-ok _ (ap (λ q. scalar_mul_g1 c q w) h.0 ∙ scalar_mul_g1-multiple c (g a) w)
      ∙ (bind-ok _ (add_g1-Spells c p k (g a ⊗ w) s)
          ∙ ap (λ v. ok (g1_multiple c (k ⊕ v))) (f.mul_comm (g a) w ∙ sym (add-zero (w ⊗ g a))))
  add_scaled-multiples participants a (b ∷ rest) sig g p k h s =
      let w = compute_lagrange_coefficient l a participants in
      let m = g a ⊗ w in
      bind-ok _ (ap (λ q. scalar_mul_g1 c q w) h.0 ∙ scalar_mul_g1-multiple c (g a) w)
      ∙ (bind-ok _ (add_g1-Spells c p k m s)
          ∙ (add_scaled-multiples participants b rest sig g (g1_multiple c (k ⊕ m)) (k ⊕ m) h.1
                (decode_point c (in_sub_group c (k ⊕ m)))
              ∙ ap (λ v. ok (g1_multiple c v))
                  (f.add_assoc k m (weighted participants g (b ∷ rest))
                    ∙ ap (λ v. k ⊕ (v ⊕ weighted participants g (b ∷ rest))) (f.mul_comm (g a) w))))

  add_scaled-interpolate :
      (n : ℕ) (participants : List Address) (sig : Address → G1Point) (g : Address → F)
      → length participants ≡ suc n
      → All (λ b. sig b ≡ g1_multiple c (g b)) participants
      → add_scaled l c participants participants sig (zero_g1_point c)
        ≡ ok (g1_multiple c (interpolate l participants g))
  unfolding weighted
  add_scaled-interpolate n [] sig g e h = absurd (omega arith)
  add_scaled-interpolate n (a ∷ rest) sig g e h =
      add_scaled-multiples (a ∷ rest) a rest sig g (zero_g1_point c) f.zero h (zero-Spells c)
      ∙ ap (λ v. ok (g1_multiple c v)) (f.zero-add _)

  is_zero_g1-multiple : (k : F) → is_zero_g1 c (g1_multiple c k) ≡ ok (f.is_zero k)
  unfolding is_zero_g1
  is_zero_g1-multiple k =
      bind-ok _ (decode_point c (in_sub_group c k))
      ∙ ap (λ b. ok b)
          (Bool_ext (c.is_infinity (multiple c k)) (f.is_zero k) (
            (λ h. (f.is_zero_iff k).1 (
                c.multiple_injective k f.zero
                  ((c.is_infinity_iff (multiple c k)).0 h ∙ sym c.multiple-zero))),
            (λ h.
                (c.is_infinity_iff (multiple c k)).1
                  (ap (multiple c) ((f.is_zero_iff k).0 h) ∙ c.multiple-zero)),
          ))

  -- If the signatures of the chosen operators are the multiples of the application's point, the one
  -- of `h`, by their shares of a polynomial, then the recovered key is its multiple by the secret, or
  -- zero is refused. There are `threshold` or more signatures, for a positive threshold that is not
  -- below the number of coefficients, and the chosen operators have pairwise different identifiers.
  pub recover_app_private_key-interpolates :
      (sigs : Sigs) (threshold : ℕ) (poly : List F) (h : F)
      → f.one ≢ f.zero
      → 0 < threshold
      → threshold ≤ length sigs
      → length poly ≤ threshold
      → IsSeparated l (chosen threshold sigs)
      → All
          (λ a. sig_of sigs a ≡ g1_multiple c (h ⊗ value poly (address_to_fr l a)))
          (chosen threshold sigs)
      → recover_app_private_key l c sigs threshold ≡ (
          if f.is_zero (h ⊗ constant_of poly)
          then err key_is_zero
          else ok (g1_multiple c (h ⊗ constant_of poly)))
  unfolding recover_app_private_key
  recover_app_private_key-interpolates sigs zero poly h o p n d s g = absurd (omega arith)
  recover_app_private_key-interpolates sigs (suc t) poly h o p n d s g =
      let ps = chosen (suc t) sigs in
      let k = h ⊗ constant_of poly in
      let len : length ps ≡ suc t =
        length-take (suc t) (sort ltb (keys sigs))
        ∙ ap (min (suc t)) (length-sort ltb (keys sigs) ∙ length-keys sigs)
        ∙ omega arith in
      let sum_k : interpolate l ps (λ a. h ⊗ value poly (address_to_fr l a)) ≡ k =
        interpolate-scale l ps h (λ a. value poly (address_to_fr l a))
        ∙ ap (λ v. h ⊗ v) (interpolate-value l poly ps o s (omega (arith, len))) in
      let enough : ltb (length sigs) (suc t) ≡ false = ground arith in
      let got =
        add_scaled-interpolate t ps (sig_of sigs) (λ a. h ⊗ value poly (address_to_fr l a)) len g in
      bind-ok _ (ap (λ b. guard (not b) (insufficient (length sigs) (suc t))) enough)
      ∙ (bind-ok _ (ap (with_error curve_failed) (got ∙ ap (λ v. ok (g1_multiple c v)) sum_k))
          ∙ (bind-ok _ (ap (with_error curve_failed) (is_zero_g1-multiple k))
              ∙ refuse (f.is_zero k)))
    where
      refuse :
          (b : Bool)
          → (guard (not b) key_is_zero >> ok (g1_multiple c (h ⊗ constant_of poly)))
            ≡ (if b then err key_is_zero else ok (g1_multiple c (h ⊗ constant_of poly)))
      refuse true = refl
      refuse false = refl
