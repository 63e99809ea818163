-- ===== src/Ibe/Decrypted.antt =====
-- What pkg/crypto/bls.go encrypts for an application, the application's private key decrypts.
use eigenx_kms_go.Prelude.{
  ℕ, ◌≤◌, ◌≡◌, ◌≢◌, refl, sym, ap, ◌∙◌, Bool, true, false, not, some, List, [], ◌∷◌, ◌++◌, Result,
  ok, guard, with_error, or_error, bind-ok, length, length-append, take, drop, take-append,
  drop-append, arith, ltb, list_beq,
}
use eigenx_kms_go.Types.{G1Point}
use eigenx_kms_go.Field.{Field, ◌⊗◌, mul_ne_zero}
use eigenx_kms_go.Curve.{Curve}
use eigenx_kms_go.Curve.Multiples.{
  multiple, g2_multiple, decode_point, in_sub_group, scalar_mul_g2-generator,
}
use eigenx_kms_go.Ibe.{
  Ciphers, validate_app_id, validate_ciphertext_format, app_id_is_too_short, hash_to_g1,
  hash_failed, encapsulate, decapsulate, encrypt_for_app, decrypt_for_app, derive_key_material,
  ibe_version, ibe_magic, build_aad, invalid_point, key_is_infinity, c1_is_infinity, pairing_failed,
  pairing_is_identity, g_id_is_identity, no_cipher,
}

guard_not :
    {E : Type 0} {b : Bool} (e : E)
    → b ≡ false
    → ◌≡◌ {A = Result E (Unit {0})} (guard (not b) e) (ok tt)
guard_not e h = rw h refl

pub not_true : (b : Bool) → (b ≡ true → ⊥) → b ≡ false
not_true true h = absurd (h refl)
not_true false h = refl

validate_app_id-long : (app_id : List ℕ) → 5 ≤ length app_id → validate_app_id app_id ≡ ok tt
validate_app_id-long [] h = absurd (omega arith)
validate_app_id-long (x ∷ xs) h = guard_not app_id_is_too_short (ground arith)

module _ {κ λ' μ} {F : Type 0} ⦃f : Field F⦄ {P : Type κ} {Q : Type λ'} {T : Type μ}
    {g1 : Curve F f P} {g2 : Curve F f Q} (s : Ciphers F f P Q T g1 g2) where
  multiple_not_infinity : (k : F) → k ≢ f.zero → g2.is_infinity (multiple g2 k) ≡ false
  multiple_not_infinity k n = not_true (g2.is_infinity (multiple g2 k)) (λ h. n (
      g2.multiple_injective k f.zero
        ((g2.is_infinity_iff (multiple g2 k)).0 h ∙ sym g2.multiple-zero)))

  not_one :
      (p : P) (k : F)
      → g1.is_in_sub_group p ≡ true
      → p ≢ g1.infinity
      → k ≢ f.zero
      → s.is_one (s.exp (s.pairing p g2.generator) k) ≡ false
  not_one p k i n z = not_true _ (λ h. z (s.nondegenerate p k i n h))

  -- The master key `k` and the random `r`, at the application's point `p`.
  abbrev pub shared : P → F → F → T
  shared p k r = s.exp (s.exp (s.pairing p g2.generator) k) r

  shared_not_one :
      (p : P) (k r : F)
      → g1.is_in_sub_group p ≡ true
      → p ≢ g1.infinity
      → k ≢ f.zero
      → r ≢ f.zero
      → s.is_one (shared p k r) ≡ false
  shared_not_one p k r i n z w =
      ap s.is_one (s.exp-exp (s.pairing p g2.generator) k r)
      ∙ not_one p (k ⊗ r) i n (mul_ne_zero k r z w)

  encapsulate-shared :
      (app_id : List ℕ) (p : P) (k r : F)
      → s.hash_to_curve app_id ≡ some p
      → g1.is_in_sub_group p ≡ true
      → p ≢ g1.infinity
      → k ≢ f.zero
      → r ≢ f.zero
      → encapsulate s app_id (g2_multiple g2 k) (some r) ≡ ok (g2_multiple g2 r, shared p k r)
  unfolding encapsulate hash_to_g1
  encapsulate-shared app_id p k r e i n z w =
      let pk = s.pairing_right p g2.generator k g2.generator_in in
      bind-ok _ (bind-ok _ (ap (or_error hash_failed) e))
      ∙ (bind-ok _ (ap (with_error invalid_point) (decode_point g1 i))
          ∙ (bind-ok _ (ap (with_error invalid_point) (decode_point g2 (in_sub_group g2 k)))
              ∙ (bind-ok _ (guard_not key_is_infinity (multiple_not_infinity k z))
                  ∙ (bind-ok _ (ap (with_error invalid_point) (scalar_mul_g2-generator g2 r))
                      ∙ (bind-ok _
                            (ap (with_error invalid_point) (decode_point g2 (in_sub_group g2 r)))
                          ∙ (bind-ok _ (guard_not c1_is_infinity (multiple_not_infinity r w))
                              ∙ (bind-ok _ (
                                    ap (or_error pairing_failed)
                                      (s.pair_one p (multiple g2 k) ∙ ap (λ t. some t) pk))
                                  ∙ (bind-ok _ (guard_not pairing_is_identity (not_one p k i n z))
                                      ∙ bind-ok _ (
                                          guard_not g_id_is_identity
                                            (shared_not_one p k r i n z w))))))))))

  -- The private key of the application: its point times the master key.
  abbrev pub private_key : P → F → G1Point
  private_key p k = record { compressed_bytes = g1.bytes (g1.scalar_multiplication p k) }

  key_not_infinity :
      (p : P) (k : F)
      → g1.is_in_sub_group p ≡ true
      → p ≢ g1.infinity
      → k ≢ f.zero
      → g1.is_infinity (g1.scalar_multiplication p k) ≡ false
  key_not_infinity p k i n z = not_true _ (λ h. z (
      s.nondegenerate p k i n (
        ap s.is_one (
          sym (s.pairing_left p g2.generator k i)
          ∙ ap (λ x. s.pairing x g2.generator) ((g1.is_infinity_iff _).0 h))
        ∙ s.pairing_infinity g2.generator)))

  decapsulate-shared :
      (p : P) (k r : F)
      → g1.is_in_sub_group p ≡ true
      → p ≢ g1.infinity
      → k ≢ f.zero
      → r ≢ f.zero
      → decapsulate s (private_key p k) (g2_multiple g2 r) ≡ ok (shared p k r)
  unfolding decapsulate
  decapsulate-shared p k r i n z w =
      let x = g1.scalar_multiplication p k in
      let same : s.pairing x (multiple g2 r) ≡ shared p k r =
        s.pairing_right x g2.generator r g2.generator_in
        ∙ ap (λ t. s.exp t r) (s.pairing_left p g2.generator k i) in
      bind-ok _ (ap (with_error invalid_point) (decode_point g1 (g1.multiple_in p k i)))
      ∙ (bind-ok _ (guard_not key_is_infinity (key_not_infinity p k i n z))
          ∙ (bind-ok _ (ap (with_error invalid_point) (decode_point g2 (in_sub_group g2 r)))
              ∙ (bind-ok _ (guard_not c1_is_infinity (multiple_not_infinity r w))
                  ∙ (bind-ok _ (
                        ap (or_error pairing_failed)
                          (s.pair_one x (multiple g2 r) ∙ ap (λ t. some t) same))
                      ∙ bind-ok _ (guard_not pairing_is_identity (shared_not_one p k r i n z w))))))

-- The parts of a ciphertext: the point, the nonce and the sealed text.
module _ (c1 nonce sealed : List ℕ) (n : length c1 ≡ 96) (m : length nonce ≡ 12) where
  abbrev ciphertext : List ℕ
  ciphertext = ibe_magic ++ (ibe_version ∷ (c1 ++ (nonce ++ sealed)))

  part_c1 : take 96 (drop 4 ciphertext) ≡ c1
  part_c1 = take-append c1 (nonce ++ sealed) 96 n

  part_nonce : take 12 (drop 100 ciphertext) ≡ nonce
  part_nonce =
      ap (take 12) (drop-append c1 (nonce ++ sealed) 96 0 (omega (arith, n)))
      ∙ take-append nonce sealed 12 m

  part_sealed : drop 112 ciphertext ≡ sealed
  part_sealed =
      drop-append c1 (nonce ++ sealed) 108 12 (omega (arith, n))
      ∙ drop-append nonce sealed 12 0 (omega (arith, m))

  has_format : 16 ≤ length sealed → validate_ciphertext_format ciphertext ≡ ok tt
  unfolding validate_ciphertext_format list_beq
  has_format h =
      let enough : ltb (length ciphertext) 128 ≡ false =
        ground (arith, n, m, length-append c1 (nonce ++ sealed), length-append nonce sealed) in
      rw enough refl

module _ {κ λ' μ} {F : Type 0} ⦃f : Field F⦄ {P : Type κ} {Q : Type λ'} {T : Type μ}
    {g1 : Curve F f P} {g2 : Curve F f Q} (s : Ciphers F f P Q T g1 g2) where
  -- A text that is encrypted for an application under the key of the master secret `k` is decrypted
  -- by the application's private key. The identifier has five bytes or more and hashes to a point of
  -- the subgroup that is not infinity; the secret and the random scalar are not zero; HKDF gives a
  -- key that there is a cipher for; and the nonce has 12 bytes. Then both calls succeed.
  pub decrypt_for_app-encrypt_for_app :
      (app_id plaintext nonce key : List ℕ) (p : P) (k r : F)
      → 5 ≤ length app_id
      → s.hash_to_curve app_id ≡ some p
      → g1.is_in_sub_group p ≡ true
      → p ≢ g1.infinity
      → k ≢ f.zero
      → r ≢ f.zero
      → derive_key_material s (s.gt_bytes (shared s p k r)) ibe_version app_id ≡ ok key
      → s.new_gcm key ≡ true
      → length nonce ≡ 12
      → (ciphertext : List ℕ) × (encrypt_for_app s app_id
            (g2_multiple g2 k)
            plaintext
            (some r)
            (some nonce)
          ≡ ok ciphertext)
        × (decrypt_for_app s app_id (private_key s p k) ciphertext ≡ ok plaintext)
  unfolding encrypt_for_app decrypt_for_app
  decrypt_for_app-encrypt_for_app app_id plaintext nonce key p k r long e i n z w d g m =
      let c1 = g2.bytes (multiple g2 r) in
      let aad = build_aad app_id ibe_version c1 in
      let sealed = s.seal key nonce plaintext aad in
      let valid = validate_app_id-long app_id long in
      let cipher : guard (s.new_gcm key) no_cipher ≡ ok tt = rw g refl in
      let c1_96 = s.length-bytes (multiple g2 r) in
      let text = ciphertext c1 nonce sealed c1_96 m in
      (
        text,
        bind-ok _ valid
            ∙ (bind-ok _ (encapsulate-shared s app_id p k r e i n z w)
                ∙ (bind-ok _ d ∙ bind-ok _ cipher)),
        bind-ok _ valid
            ∙ (bind-ok _ (
                  has_format c1 nonce sealed c1_96 m
                    (omega (arith, s.length-seal key nonce plaintext aad)))
                ∙ (bind-ok _ (
                      ap (λ b. decapsulate s (private_key s p k) (record { compressed_bytes = b }))
                        (part_c1 c1 nonce sealed c1_96 m)
                      ∙ decapsulate-shared s p k r i n z w)
                    ∙ (bind-ok _ d
                        ∙ (bind-ok _ cipher
                            ∙ rw
                                (
                                  part_c1 c1 nonce sealed c1_96 m,
                                  part_nonce c1 nonce sealed c1_96 m,
                                  part_sealed c1 nonce sealed c1_96 m,
                                  s.unseal-seal key nonce plaintext aad g,
                                )
                                refl)))),
      )
