-- ===== src/Tests/Ibe.antt =====
-- pkg/crypto and pkg/node: the operators 1 and 2 sign for an application, and its text is decrypted.
use eigenx_kms_go.Prelude.{
  ℕ, ◌-◌, ◌≡◌, ◌≢◌, refl, sym, ap, true, Option, none, some, List, [], ◌∷◌, ◌++◌, ok, arith, ltb,
  ◌==◌, if◌then◌else◌, length, length-append, take, take-append, replicate, nat_eq,
}
use eigenx_kms_go.Prelude.Bytes.{be_bytes}
use eigenx_kms_go.Prelude.Int.{pos}
use eigenx_kms_go.Prelude.Maps.{lookup, keys}
use eigenx_kms_go.Prelude.Sorting.{sort, insert_sorted}
use eigenx_kms_go.Types.{Address, G1Point, KeyShareVersion}
use eigenx_kms_go.Polynomial.{address_to_fr}
use eigenx_kms_go.Polynomial.Interpolation.{value, constant_of}
use eigenx_kms_go.Curve.{Curve, scalar_mul, scalar_mul_g1, point_from_compressed_bytes}
use eigenx_kms_go.Curve.Multiples.{g2_multiple}
use eigenx_kms_go.Recovery.{Sigs, recover_app_private_key}
use eigenx_kms_go.Recovery.Keys.{g1_multiple}
use eigenx_kms_go.Ibe.{Ciphers, encrypt_for_app, decrypt_for_app, derive_key_material, hash_to_g1}
use eigenx_kms_go.Ibe.Decrypted.{private_key, decrypt_for_app-encrypt_for_app}
use eigenx_kms_go.Signing.{sign_app_id_with_version, sign_with_share}
use eigenx_kms_go.Signing.Opened.{recover_app_private_key-decrypt_for_app}
use eigenx_kms_go.Tests.Scalars.{
  Scalar, nought, unit, twice, library, curve, unit_ne_nought, twice_ne_nought, scalars, times,
  encode, scalar_of, is_nought, times_assoc,
}
use eigenx_kms_go.Tests.Sharing.{dealt, both-IsSeparated}

-- The second group, whose points have 96 bytes.
abbrev encode_long : Scalar → List ℕ
encode_long p = encode p ++ replicate 95 0

abbrev decode_long : List ℕ → Option Scalar
decode_long [] = none
decode_long (b ∷ bs) = if ltb b 3 then some (scalar_of b) else none

pub decode_long-encode_long : (p : Scalar) → decode_long (encode_long p) ≡ some p
decode_long-encode_long nought = refl
decode_long-encode_long unit = refl
decode_long-encode_long twice = refl

pub length-encode_long : (p : Scalar) → length (encode_long p) ≡ 96
length-encode_long nought = refl
length-encode_long unit = refl
length-encode_long twice = refl

abbrev pub long_curve : Curve Scalar scalars Scalar
long_curve = record curve {
  set_bytes = decode_long;
  bytes = encode_long;
  marshal = encode_long;
  set_bytes-bytes = λ p h. decode_long-encode_long p;
  set_bytes-marshal = λ p h. decode_long-encode_long p;
}

abbrev seal_text : List ℕ → List ℕ
seal_text text = text ++ replicate 16 0

abbrev open_text : List ℕ → Option (List ℕ)
open_text sealed = some (take (length sealed - 16) sealed)

pub open_text-seal_text : (text : List ℕ) → open_text (seal_text text) ≡ some text
open_text-seal_text text =
    ap (λ t. some t)
      (take-append text (replicate 16 0) (length (seal_text text) - 16)
        (omega (arith, length-append text (replicate 16 0))))

pub nondegenerate :
    (p k : Scalar) → p ≢ nought → is_nought (times (times p unit) k) ≡ true → k ≡ nought
nondegenerate nought k n e = absurd (n refl)
nondegenerate unit k n e = ground arith
nondegenerate twice k n e = ground arith

pub swap_factors : (p q k : Scalar) → times (times p k) q ≡ times (times p q) k
swap_factors p q k = ground arith

abbrev pair_single : List Scalar → List Scalar → Option Scalar
pair_single (p ∷ []) (q ∷ []) = some (times p q)
pair_single _ _ = none

abbrev pub ciphers : Ciphers Scalar scalars Scalar Scalar Scalar curve long_curve
ciphers = record {
  hash_to_curve = λ app_id. some unit;
  pairing = times;
  pair = pair_single;
  exp = times;
  is_one = is_nought;
  gt_bytes = encode;
  hkdf = λ secret salt info n. some secret;
  new_gcm = λ key. true;
  seal = λ key nonce text aad. seal_text text;
  unseal = λ key nonce sealed aad. open_text sealed;
  pair_one = λ p q. refl;
  pairing_left = λ p q k h. swap_factors p q k;
  pairing_right = λ p q k h. sym (times_assoc p q k);
  pairing_infinity = λ q. refl;
  exp-exp = times_assoc;
  nondegenerate = λ p k h n e. nondegenerate p k n e;
  length-bytes = length-encode_long;
  unseal-seal = λ key nonce text aad h. open_text-seal_text text;
  length-seal = λ key nonce text aad. length-append text (replicate 16 0);
}

abbrev app_id : List ℕ
app_id = 97 ∷ 112 ∷ 112 ∷ 45 ∷ 49 ∷ []

abbrev nonce : List ℕ
nonce = replicate 12 0

decrypt_for_app-encrypt_for_app_example :
    (ciphertext : List ℕ) × (encrypt_for_app ciphers app_id
        (g2_multiple long_curve unit)
        (7 ∷ [])
        (some twice)
        (some nonce)
      ≡ ok ciphertext)
    × (decrypt_for_app ciphers app_id (private_key ciphers unit unit) ciphertext ≡ ok (7 ∷ []))
unfolding derive_key_material
decrypt_for_app-encrypt_for_app_example =
    decrypt_for_app-encrypt_for_app ciphers app_id (7 ∷ []) nonce (2 ∷ []) unit unit twice
      (omega arith) refl refl unit_ne_nought unit_ne_nought twice_ne_nought refl refl refl

abbrev sigs : Sigs
sigs = (2, g1_multiple curve twice) ∷ (1, g1_multiple curve nought) ∷ []

abbrev version : Address → KeyShareVersion Scalar
version a = record {
  version = pos 300;
  private_share = some (if a == 1 then nought else twice);
  commitments = [];
  master_public_key = none;
  is_active = true;
  participant_ids = 1 ∷ 2 ∷ [];
}

recover_app_private_key-decrypt_for_app_example :
    (ciphertext : List ℕ) × (app_key : G1Point) × (encrypt_for_app ciphers app_id
        (g2_multiple long_curve unit)
        (7 ∷ [])
        (some twice)
        (some nonce)
      ≡ ok ciphertext)
    × (recover_app_private_key library curve sigs 2 ≡ ok app_key)
    × (decrypt_for_app ciphers app_id app_key ciphertext ≡ ok (7 ∷ []))
unfolding derive_key_material sort insert_sorted keys lookup value constant_of address_to_fr
    be_bytes sign_app_id_with_version sign_with_share hash_to_g1 scalar_mul_g1 scalar_mul
    point_from_compressed_bytes
recover_app_private_key-decrypt_for_app_example =
    recover_app_private_key-decrypt_for_app ciphers library app_id (7 ∷ []) nonce (2 ∷ []) dealt
      version sigs 2 unit twice unit_ne_nought (omega arith) (omega arith) (omega arith)
      both-IsSeparated ((refl, refl), ((refl, refl), tt)) (omega arith) refl unit_ne_nought
      unit_ne_nought twice_ne_nought refl refl refl
