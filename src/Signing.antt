-- ===== src/Signing.antt =====
-- The partial signatures of pkg/node/node.go, and the way from them to an application's secrets.
pub mod Opened
pub mod Floor
use eigenx_kms_go.Prelude.{
  ℕ, Option, none, some, List, Result, ok, err, ◌>>=◌, with_error, if◌then◌else◌,
}
use eigenx_kms_go.Prelude.Int.{ℤ, ltb_ℤ, pos}
use eigenx_kms_go.Types.{G1Point, KeyShareVersion}
use eigenx_kms_go.KeyStore.{Ptr, KeyStore, get_key_version_at_time, get_active_version}
use eigenx_kms_go.Field.{Field}
use eigenx_kms_go.Curve.{Curve, CurveError, scalar_mul_g1}
use eigenx_kms_go.Ibe.{Ciphers, IbeError, hash_to_g1}

pub data SignError : Type 0 where
  no_private_share : SignError
  hash_failed : IbeError → SignError
  multiplication_failed : CurveError → SignError
  no_version_at : ℤ → SignError

abbrev pub share_of_version : {F : Type 0} → Option (KeyShareVersion F) → Option F
share_of_version none = none
share_of_version (some v) = v.private_share

-- The version that a pointer names, `none` for nil.
abbrev pub version_of : {F : Type 0} → KeyStore F → Option Ptr → Option (KeyShareVersion F)
version_of ks none = none
version_of ks (some p) = some (ks.object p)

module _ {κ λ' μ} {F : Type 0} ⦃f : Field F⦄ {P : Type κ} {Q : Type λ'} {T : Type μ}
    {g1 : Curve F f P} {g2 : Curve F f Q} (s : Ciphers F f P Q T g1 g2) where
  unfoldable pub sign_with_share : List ℕ → Option F → Result SignError G1Point
  unfolding hash_to_g1 scalar_mul_g1
  sign_with_share app_id none = err no_private_share
  sign_with_share app_id (some share) = with_error hash_failed (hash_to_g1 s app_id) >>= λ q_id.
      with_error multiplication_failed (scalar_mul_g1 g1 q_id share)

  unfoldable pub sign_app_id_with_version :
      List ℕ → Option (KeyShareVersion F) → Result SignError G1Point
  unfolding sign_with_share
  sign_app_id_with_version app_id key_version =
      sign_with_share app_id (share_of_version key_version)

  -- Signing with the version of an attestation time; `none` is the nil of GetKeyVersionAtTime.
  sign_at : List ℕ → ℤ → Option (KeyShareVersion F) → Result SignError G1Point
  unfolding sign_app_id_with_version
  sign_at app_id attestation_time none = err (no_version_at attestation_time)
  sign_at app_id attestation_time (some v) = sign_app_id_with_version app_id (some v)

  unfoldable pub sign_app_id : List ℕ → ℤ → KeyStore F → Result SignError G1Point
  unfolding sign_at get_key_version_at_time get_active_version
  sign_app_id app_id attestation_time ks =
      if ltb_ℤ (pos 0) attestation_time
      then sign_at app_id attestation_time
          (version_of ks (get_key_version_at_time attestation_time ks))
      else sign_app_id_with_version app_id (version_of ks (get_active_version ks))
