-- ===== src/Signing/Floor.antt =====
-- SignAppID of pkg/node/node.go after a rollback of autoheal.go that found no version to go to.
use eigenx_kms_go.Prelude.{
  ℕ, ◌≡◌, refl, inr, true, false, Option, none, some, List, ok, err, arith, Memᴰ, All, All-Memᴰ,
  true_and_false, sym, subst,
}
use eigenx_kms_go.Prelude.Int.{ℤ, pos, ◌≤ℤ◌, ◌<ℤ◌}
use eigenx_kms_go.Types.{KeyShareVersion}
use eigenx_kms_go.Field.{Field}
use eigenx_kms_go.Curve.{Curve}
use eigenx_kms_go.Ibe.{Ciphers}
use eigenx_kms_go.KeyStore.{Ptr, KeyStore, mark_poisoned, is_poisoned, get_active_version}
use eigenx_kms_go.KeyStore.Lookup.{Resolves, get_key_version_at_time-Resolves}
use eigenx_kms_go.KeyStore.Poison.{is_poisoned-mark_poisoned_self, mark_poisoned-keeps}
use eigenx_kms_go.Persistence.{NodePersistence}
use eigenx_kms_go.AutoHeal.{Healing, versions_of, perform_rollback}
use eigenx_kms_go.AutoHeal.Rollback.{with_poisoned, HasTarget, may_go_to, perform_rollback_floored}
use eigenx_kms_go.Signing.{sign_app_id, no_version_at}

-- Every object of the keystore has a version that is listed and not above `bad`.
abbrev pub IsListed : {F : Type 0} → ℤ → List ℤ → KeyStore F → Type 0
IsListed bad vs ks =
    All (λ p. Memᴰ (ks.object p).version vs × ((ks.object p).version ≤ℤ bad)) ks.key_versions

module _ {F : Type 0} (N : NodePersistence F) where
  open N use {State, list_key_share_versions}

  no_version_left :
      (bad t : ℤ) (n : Healing F State) (vs : List ℤ) (o : Option Ptr)
      → ¬ HasTarget N bad (with_poisoned N bad n) vs
      → IsListed bad vs n.key_store
      → Resolves t (mark_poisoned bad n.key_store) o
      → o ≡ none
  no_version_left bad t n vs none h l r = refl
  no_version_left bad t n vs (some b) h l r = absurd (h (inr (v, listed.0, candidate)))
    where
      v : ℤ
      v = ((mark_poisoned bad n.key_store).object b).version

      listed : Memᴰ v vs × (v ≤ℤ bad)
      listed =
          All-Memᴰ _ b (mark_poisoned bad n.key_store).key_versions r.0
            (subst (IsListed bad vs) (sym (mark_poisoned-keeps bad n.key_store)) l)

      other : ¬ (v ≡ bad)
      other e =
          true_and_false (is_poisoned-mark_poisoned_self bad n.key_store)
            (subst (λ x. is_poisoned x (mark_poisoned bad n.key_store) ≡ false) e r.1)

      candidate : may_go_to N bad (with_poisoned N bad n) v ≡ true
      candidate = ground (arith, listed.1, other, r.1)

  module _ {κ λ' μ} ⦃f : Field F⦄ {P : Type κ} {Q : Type λ'} {T : Type μ} {g1 : Curve F f P}
      {g2 : Curve F f Q} (s : Ciphers F f P Q T g1 g2) where
    -- If the persisted versions can be listed, a rollback has no version to go to, and every version of the
    -- keystore is among the persisted ones and not later than the poisoned one, then afterwards an
    -- application is signed for as before the rollback when no attestation time is given (zero), and is
    -- refused for want of a version at every attestation time above zero.
    pub perform_rollback-sign_app_id :
        (bad t : ℤ) (n : Healing F State) (versions : List (KeyShareVersion F)) (app_id : List ℕ)
        → list_key_share_versions (with_poisoned N bad n).store ≡ ok versions
        → ¬ HasTarget N bad (with_poisoned N bad n) (versions_of versions)
        → IsListed bad (versions_of versions) n.key_store
        → pos 0 <ℤ t
        → let n' = perform_rollback N bad n in
          (sign_app_id s app_id (pos 0) n'.key_store ≡ sign_app_id s app_id (pos 0) n.key_store)
          × (sign_app_id s app_id t n'.key_store ≡ err (no_version_at t))
    unfolding sign_app_id get_active_version
    perform_rollback-sign_app_id bad t n versions app_id listed h l after =
        rw (perform_rollback_floored N bad n versions listed h) (
          subst (λ ks. sign_app_id s app_id (pos 0) ks ≡ sign_app_id s app_id (pos 0) n.key_store)
              (sym (mark_poisoned-keeps bad n.key_store)) refl,
          rw
              (no_version_left bad t n (versions_of versions) _ h l
                (get_key_version_at_time-Resolves t (mark_poisoned bad n.key_store)))
              (ground arith),
        )
