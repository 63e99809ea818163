-- ===== src/Ibe.antt =====
-- pkg/crypto/bls.go: the identity-based encryption of an application's secrets. The pairing, HKDF and
-- AES-GCM are parameters, `Ciphers`; a text is the list of its bytes.
pub mod Decrypted
use eigenx_kms_go.Prelude.{
  ℕ, suc, ◌+◌, ◌/◌, ◌%◌, ◌≡◌, ◌≢◌, Bool, true, false, not, ◌||◌, Option, none, some, List, [], ◌∷◌,
  ◌++◌, Result, ok, err, ◌>>=◌, ◌>>◌, guard, with_error, or_error, length, take, drop, ltb, ◌==◌,
  if◌then◌else◌, list_beq, nat_eq,
}
use eigenx_kms_go.Types.{G1Point, G2Point}
use eigenx_kms_go.Field.{Field}
use eigenx_kms_go.Curve.{
  Curve, CurveError, point_from_compressed_bytes, scalar_mul_g2, g2_generator,
}

-- `HashToG1`, `Pair`, which computes the product of pairings, `GT`, HKDF with SHA-256, and AES-256 in
-- GCM: `new_gcm` tells whether there is a cipher for a key. `unseal` is `Open`; `Seal` adds
-- a tag of 16 bytes.
pub record Ciphers {ℓ κ λ' μ} (F : Type ℓ) (f : Field F) (P : Type κ) (Q : Type λ') (T : Type μ)
    (g1 : Curve F f P) (g2 : Curve F f Q) : Type (ℓ ⊔ κ ⊔ λ' ⊔ μ) where
  pub hash_to_curve : List ℕ → Option P
  pub pairing : P → Q → T
  pub pair : List P → List Q → Option T
  pub exp : T → F → T
  pub is_one : T → Bool
  pub gt_bytes : T → List ℕ
  pub hkdf : List ℕ → List ℕ → List ℕ → ℕ → Option (List ℕ)
  pub new_gcm : List ℕ → Bool
  pub seal : List ℕ → List ℕ → List ℕ → List ℕ → List ℕ
  pub unseal : List ℕ → List ℕ → List ℕ → List ℕ → Option (List ℕ)
  pub pair_one : (p : P) (q : Q) → pair (p ∷ []) (q ∷ []) ≡ some (pairing p q)
  pub pairing_left :
      (p : P) (q : Q) (k : F)
      → g1.is_in_sub_group p ≡ true
      → pairing (g1.scalar_multiplication p k) q ≡ exp (pairing p q) k
  pub pairing_right :
      (p : P) (q : Q) (k : F)
      → g2.is_in_sub_group q ≡ true
      → pairing p (g2.scalar_multiplication q k) ≡ exp (pairing p q) k
  pub pairing_infinity : (q : Q) → is_one (pairing g1.infinity q) ≡ true
  pub exp-exp : (t : T) (k m : F) → exp (exp t k) m ≡ exp t (f.mul k m)
  pub nondegenerate :
      (p : P) (k : F)
      → g1.is_in_sub_group p ≡ true
      → p ≢ g1.infinity
      → is_one (exp (pairing p g2.generator) k) ≡ true
      → k ≡ f.zero
  pub length-bytes : (q : Q) → length (g2.bytes q) ≡ 96
  pub unseal-seal :
      (key nonce plaintext aad : List ℕ)
      → new_gcm key ≡ true
      → unseal key nonce (seal key nonce plaintext aad) aad ≡ some plaintext
  pub length-seal :
      (key nonce plaintext aad : List ℕ)
      → length (seal key nonce plaintext aad) ≡ length plaintext + 16

pub data IbeError : Type 0 where
  app_id_is_empty app_id_is_too_short hash_failed : IbeError
  invalid_point : CurveError → IbeError
  key_is_infinity no_randomness c1_is_infinity pairing_failed : IbeError
  pairing_is_identity g_id_is_identity no_key_material no_cipher no_nonce : IbeError
  ciphertext_too_short wrong_magic : IbeError
  unsupported_version : ℕ → IbeError
  decryption_failed : IbeError

abbrev pub ibe_magic : List ℕ
ibe_magic = 73 ∷ 66 ∷ 69 ∷ []

abbrev pub ibe_version : ℕ
ibe_version = 1

abbrev pub hkdf_salt : List ℕ
hkdf_salt =
    101 ∷ 105 ∷ 103 ∷ 101 ∷ 110 ∷ 120 ∷ 45 ∷ 107 ∷ 109 ∷ 115 ∷ 45 ∷ 103 ∷ 111 ∷ 45 ∷ 105 ∷ 98 ∷ 101
    ∷ 45 ∷ 101 ∷ 110 ∷ 99 ∷ 114 ∷ 121 ∷ 112 ∷ 116 ∷ 105 ∷ 111 ∷ 110 ∷ []

-- `IBE-encryption|v`
abbrev info_prefix : List ℕ
info_prefix =
    73 ∷ 66 ∷ 69 ∷ 45 ∷ 101 ∷ 110 ∷ 99 ∷ 114 ∷ 121 ∷ 112 ∷ 116 ∷ 105 ∷ 111 ∷ 110 ∷ 124 ∷ 118 ∷ []

-- `%d` of a byte.
abbrev pub decimal : ℕ → List ℕ
decimal n =
    if ltb n 10
    then (48 + n) ∷ []
    else (if ltb n 100
        then (48 + n / 10) ∷ (48 + n % 10) ∷ []
        else (48 + n / 100) ∷ (48 + (n / 10) % 10) ∷ (48 + n % 10) ∷ [])

-- pkg/util
abbrev pub validate_app_id : List ℕ → Result IbeError (Unit {0})
validate_app_id [] = err app_id_is_empty
validate_app_id (x ∷ xs) = guard (not (ltb (length (x ∷ xs)) 5)) app_id_is_too_short

abbrev pub build_aad : List ℕ → ℕ → List ℕ → List ℕ
build_aad app_id version c1_bytes = app_id ++ (version ∷ c1_bytes)

-- `ciphertext[magicSize]`, of a text that is long enough.
abbrev pub version_of : List ℕ → ℕ
version_of [] = 0
version_of (x ∷ xs) = x

-- 128 is the smallest length: 4 bytes of header, 96 of the point, 12 of the nonce and 16 of the tag.
unfoldable pub validate_ciphertext_format : List ℕ → Result IbeError (Unit {0})
unfolding list_beq
validate_ciphertext_format ciphertext =
    guard (not (ltb (length ciphertext) 128)) ciphertext_too_short
    >> (guard (list_beq (take 3 ciphertext) ibe_magic) wrong_magic
        >> guard (version_of (drop 3 ciphertext) == ibe_version)
            (unsupported_version (version_of (drop 3 ciphertext))))

module _ {κ λ' μ} {F : Type 0} ⦃f : Field F⦄ {P : Type κ} {Q : Type λ'} {T : Type μ}
    {g1 : Curve F f P} {g2 : Curve F f Q} (s : Ciphers F f P Q T g1 g2) where
  -- `HashToG1`, and the point that is read back from its bytes.
  unfoldable pub hash_to_g1 : List ℕ → Result IbeError G1Point
  hash_to_g1 app_id = or_error hash_failed (s.hash_to_curve app_id) >>= λ p.
      ok (record { compressed_bytes = g1.bytes p })

  abbrev pub read_g1 : G1Point → Result IbeError P
  read_g1 point = with_error invalid_point (point_from_compressed_bytes g1 point.compressed_bytes)

  abbrev pub read_g2 : G2Point → Result IbeError Q
  read_g2 point = with_error invalid_point (point_from_compressed_bytes g2 point.compressed_bytes)

  unfoldable pub derive_key_material : List ℕ → ℕ → List ℕ → Result IbeError (List ℕ)
  derive_key_material g_id_bytes version app_id =
      or_error no_key_material
        (s.hkdf g_id_bytes hkdf_salt (info_prefix ++ (decimal version ++ (124 ∷ app_id))) 32)

  -- Steps 1 to 4 of the encryption: the point r*P and g_ID.
  unfoldable pub encapsulate : List ℕ → G2Point → Option F → Result IbeError (G2Point × T)
  unfolding hash_to_g1 point_from_compressed_bytes scalar_mul_g2
  encapsulate app_id master_public_key random = hash_to_g1 app_id >>= λ q_id. read_g1 q_id >>= λ q.
      read_g2 master_public_key >>= λ master.
      guard (not (g2.is_infinity master)) key_is_infinity >>= λ _.
      or_error no_randomness random >>= λ r.
      with_error invalid_point (scalar_mul_g2 g2 (g2_generator g2) r) >>= λ c1.
      read_g2 c1 >>= λ c1_check. guard (not (g2.is_infinity c1_check)) c1_is_infinity >>= λ _.
      or_error pairing_failed (s.pair (q ∷ []) (master ∷ [])) >>= λ paired.
      guard (not (s.is_one paired)) pairing_is_identity >>= λ _.
      guard (not (s.is_one (s.exp paired r))) g_id_is_identity >>= λ _. ok (c1, s.exp paired r)

  unfoldable pub encrypt_for_app :
      List ℕ → G2Point → List ℕ → Option F → Option (List ℕ) → Result IbeError (List ℕ)
  unfolding encapsulate derive_key_material
  encrypt_for_app app_id master_public_key plaintext random random_nonce =
      validate_app_id app_id >>= λ _. encapsulate app_id master_public_key random >>= λ (c1, g_id).
      derive_key_material (s.gt_bytes g_id) ibe_version app_id >>= λ key.
      guard (s.new_gcm key) no_cipher >>= λ _. or_error no_nonce random_nonce >>= λ nonce. ok (
        ibe_magic
        ++ (ibe_version
            ∷ (c1.compressed_bytes
                ++ (nonce
                    ++ s.seal key nonce plaintext
                        (build_aad app_id ibe_version c1.compressed_bytes)))))

  -- g_ID of the decryption.
  unfoldable pub decapsulate : G1Point → G2Point → Result IbeError T
  unfolding point_from_compressed_bytes
  decapsulate app_private_key c1 = read_g1 app_private_key >>= λ p.
      guard (not (g1.is_infinity p)) key_is_infinity >>= λ _. read_g2 c1 >>= λ q.
      guard (not (g2.is_infinity q)) c1_is_infinity >>= λ _.
      or_error pairing_failed (s.pair (p ∷ []) (q ∷ [])) >>= λ g_id.
      guard (not (s.is_one g_id)) pairing_is_identity >>= λ _. ok g_id

  unfoldable pub decrypt_for_app : List ℕ → G1Point → List ℕ → Result IbeError (List ℕ)
  unfolding validate_ciphertext_format decapsulate derive_key_material
  decrypt_for_app app_id app_private_key ciphertext = validate_app_id app_id >>= λ _.
      validate_ciphertext_format ciphertext >>= λ _.
      let version = version_of (drop 3 ciphertext) in
      let c1_bytes = take 96 (drop 4 ciphertext) in
      decapsulate app_private_key (record { compressed_bytes = c1_bytes }) >>= λ g_id.
      derive_key_material (s.gt_bytes g_id) version app_id >>= λ key.
      guard (s.new_gcm key) no_cipher >>= λ _. or_error decryption_failed (
        s.unseal key (take 12 (drop 100 ciphertext)) (drop 112 ciphertext)
          (build_aad app_id version c1_bytes))
