-- ===== src/Signing/Opened.antt =====
-- From the operators' shares to the decrypted text: pkg/node/node.go signs, pkg/crypto/bls.go
-- recovers the key and decrypts.
use eigenx_kms_go.Prelude.{
  ℕ, ◌≤◌, ◌<◌, ◌≡◌, ◌≢◌, refl, sym, ap, ◌∙◌, some, List, All, All-map_of, ok, length, bind-ok,
  ok-injective, with_error, or_error, true, false, nat_eq,
}
use eigenx_kms_go.Types.{Address, G1Point, KeyShareVersion}
use eigenx_kms_go.Field.{Field, ◌⊗◌, mul_ne_zero}
use eigenx_kms_go.Polynomial.{Library, address_to_fr}
use eigenx_kms_go.Polynomial.Interpolation.{value, constant_of, IsSeparated}
use eigenx_kms_go.Curve.{Curve}
use eigenx_kms_go.Curve.Multiples.{multiple, g2_multiple, in_sub_group}
use eigenx_kms_go.Recovery.{Sigs, sig_of, chosen, recover_app_private_key}
use eigenx_kms_go.Recovery.Keys.{
  g1_multiple, scalar_mul_g1-multiple, recover_app_private_key-interpolates,
}
use eigenx_kms_go.Ibe.{
  Ciphers, hash_to_g1, derive_key_material, encrypt_for_app, decrypt_for_app, ibe_version,
}
use eigenx_kms_go.Ibe
use eigenx_kms_go.Ibe.Decrypted.{private_key, shared, not_true, decrypt_for_app-encrypt_for_app}
use eigenx_kms_go.Signing.{
  sign_with_share, sign_app_id_with_version, hash_failed, multiplication_failed,
}

module _ {κ λ' μ} {F : Type 0} ⦃f : Field F⦄ {P : Type κ} {Q : Type λ'} {T : Type μ}
    {g1 : Curve F f P} {g2 : Curve F f Q} (s : Ciphers F f P Q T g1 g2) (l : Library F f) where
  -- The signature of a share at the application's point, the multiple by `h`.
  sign_with_share-multiple :
      (app_id : List ℕ) (h x : F)
      → s.hash_to_curve app_id ≡ some (multiple g1 h)
      → sign_with_share s app_id (some x) ≡ ok (g1_multiple g1 (h ⊗ x))
  unfolding sign_with_share hash_to_g1
  sign_with_share-multiple app_id h x e =
      bind-ok _ (ap (with_error hash_failed) (bind-ok _ (ap (or_error Ibe.hash_failed) e)))
      ∙ ap (with_error multiplication_failed) (scalar_mul_g1-multiple g1 h x)

  -- The operator's answer, for the version of the key that it holds a share of `poly` in.
  abbrev pub Signs : List ℕ → List F → (Address → KeyShareVersion F) → Sigs → Address → Type 0
  Signs app_id poly version sigs a =
      ((version a).private_share ≡ some (value poly (address_to_fr l a)))
      × (sign_app_id_with_version s app_id (some (version a)) ≡ ok (sig_of sigs a))

  Signs-multiple :
      (app_id : List ℕ) (poly : List F) (version : Address → KeyShareVersion F) (sigs : Sigs)
      (h : F) (a : Address)
      → s.hash_to_curve app_id ≡ some (multiple g1 h)
      → Signs app_id poly version sigs a
      → sig_of sigs a ≡ g1_multiple g1 (h ⊗ value poly (address_to_fr l a))
  unfolding sign_app_id_with_version
  Signs-multiple app_id poly version sigs h a e k = ok-injective (
      sym k.1
      ∙ (ap (sign_with_share s app_id) k.0
          ∙ sign_with_share-multiple app_id h (value poly (address_to_fr l a)) e))

  -- Enough partial signatures open what was encrypted under the master public key. The operators that
  -- are chosen sign with shares of one polynomial; there are at least as many as it has coefficients,
  -- and their identifiers differ pairwise. The application's identifier has five bytes or more and
  -- hashes to a multiple of the generator that is not infinity; the secret and the random scalar are
  -- not zero; there is a cipher for the derived key; and the nonce has 12 bytes. Then the key that is
  -- recovered decrypts the text that was encrypted.
  pub recover_app_private_key-decrypt_for_app :
      (app_id plaintext nonce key : List ℕ) (poly : List F) (version : Address → KeyShareVersion F)
      (sigs : Sigs) (threshold : ℕ) (h r : F)
      → f.one ≢ f.zero
      → 0 < threshold
      → threshold ≤ length sigs
      → length poly ≤ threshold
      → IsSeparated l (chosen threshold sigs)
      → All (Signs app_id poly version sigs) (chosen threshold sigs)
      → 5 ≤ length app_id
      → s.hash_to_curve app_id ≡ some (multiple g1 h)
      → multiple g1 h ≢ g1.infinity
      → constant_of poly ≢ f.zero
      → r ≢ f.zero
      → derive_key_material s
          (s.gt_bytes (shared s (multiple g1 h) (constant_of poly) r))
          ibe_version
          app_id
        ≡ ok key
      → s.new_gcm key ≡ true
      → length nonce ≡ 12
      → (ciphertext : List ℕ) × (app_key : G1Point) × (encrypt_for_app s app_id
            (g2_multiple g2 (constant_of poly))
            plaintext
            (some r)
            (some nonce)
          ≡ ok ciphertext)
        × (recover_app_private_key l g1 sigs threshold ≡ ok app_key)
        × (decrypt_for_app s app_id app_key ciphertext ≡ ok plaintext)
  recover_app_private_key-decrypt_for_app app_id plaintext nonce key poly version sigs t h r o p n d
        sep signs long e i z w k g m =
      let secret = constant_of poly in
      let h_ne : h ≢ f.zero = λ q. i (ap (multiple g1) q ∙ g1.multiple-zero) in
      let found = recover_app_private_key-interpolates l g1 sigs t poly h o p n d sep (
        All-map_of (Signs app_id poly version sigs)
          (λ a. sig_of sigs a ≡ g1_multiple g1 (h ⊗ value poly (address_to_fr l a)))
          (λ a. Signs-multiple app_id poly version sigs h a e) (chosen t sigs) signs) in
      let nonzero : f.is_zero (h ⊗ secret) ≡ false =
        not_true (f.is_zero (h ⊗ secret))
          (λ q. mul_ne_zero h secret h_ne z ((f.is_zero_iff _).0 q)) in
      let same : g1_multiple g1 (h ⊗ secret) ≡ private_key s (multiple g1 h) secret =
        ap (λ x. record { compressed_bytes = g1.bytes x })
          (sym (g1.multiple-multiple g1.generator h secret g1.generator_in)) in
      let c =
        decrypt_for_app-encrypt_for_app s app_id plaintext nonce key (multiple g1 h) secret r long e
          (in_sub_group g1 h) i z w k g m in
      (
        c.0,
        private_key s (multiple g1 h) secret,
        c.1,
        found ∙ (rw nonzero refl ∙ ap (λ x. ok x) same),
        c.2,
      )
