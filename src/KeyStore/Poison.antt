-- ===== src/KeyStore/Poison.antt =====
-- keystore.go: poisoned versions.
use eigenx_kms_go.Prelude.{
  ◌≡◌, refl, ◌≢◌, true, false, ◌||◌, Option, none, some, ok, err, arith, Bool-cases, Option-cases,
  inl, inr, true_and_false, WhenOk, subst, int_eq,
}
use eigenx_kms_go.Prelude.Int.{ℤ, eqb_ℤ, eqb_ℤ_iff}
use eigenx_kms_go.Types.{KeyShareVersion}
use eigenx_kms_go.KeyStore.{
  Ptr, poisoned_version, no_key_version, KeyStore, mark_poisoned, is_poisoned,
  set_active_version_by_timestamp, find_version, clear_active, set_flag, point_to, promote,
  activate_pending_version, get_private_share_for_version, get_key_version_at_time,
  get_active_version,
}
use eigenx_kms_go.KeyStore.Lookup.{get_key_version_at_time-Resolves, Resolves}

module _ {F : Type 0} where
  -- Poisoning adds the version and no other.
  pub is_poisoned-mark_poisoned :
      (v w : ℤ) (ks : KeyStore F)
      → is_poisoned w (mark_poisoned v ks) ≡ (eqb_ℤ v w || is_poisoned w ks)
  unfolding mark_poisoned
  is_poisoned-mark_poisoned v w ks = elim (Bool-cases (is_poisoned v ks)) [
    | inl y ↦
        rw (y, mark_poisoned)
          (elim (Bool-cases (eqb_ℤ v w)) [
            | inl s ↦ rw s (rw (← (eqb_ℤ_iff v w).0 s) y)
            | inr d ↦ rw d refl
          ])
    | inr n ↦ rw (n, mark_poisoned) (unfold is_poisoned in refl)
  ]

  pub is_poisoned-mark_poisoned_self :
      (v : ℤ) (ks : KeyStore F) → is_poisoned v (mark_poisoned v ks) ≡ true
  is_poisoned-mark_poisoned_self v ks =
      rw (is_poisoned-mark_poisoned v v ks) (rw ((eqb_ℤ_iff v v).1 refl) refl)

  -- Poisoning moves nothing but the set of poisoned versions.
  pub mark_poisoned-keeps :
      (v : ℤ) (ks : KeyStore F)
      → mark_poisoned v ks ≡ record ks { poisoned = (mark_poisoned v ks).poisoned }
  unfolding mark_poisoned
  mark_poisoned-keeps v ks = elim (Bool-cases (is_poisoned v ks)) [
    | inl y ↦ rw (y, mark_poisoned) refl
    | inr n ↦ rw (n, mark_poisoned) refl
  ]

  pub set_active_version_by_timestamp_found :
      (v : ℤ) (ks : KeyStore F) (p : Ptr)
      → is_poisoned v ks ≡ false
      → find_version v ks.object ks.key_versions ≡ some p
      → set_active_version_by_timestamp v ks ≡ ok (point_to p ks)
  unfolding set_active_version_by_timestamp
  set_active_version_by_timestamp_found v ks p n f = rw (n, f, set_active_version_by_timestamp) refl

  pub set_active_version_by_timestamp_missing :
      (v : ℤ) (ks : KeyStore F)
      → is_poisoned v ks ≡ false
      → find_version v ks.object ks.key_versions ≡ none
      → set_active_version_by_timestamp v ks ≡ err (no_key_version v)
  unfolding set_active_version_by_timestamp
  set_active_version_by_timestamp_missing v ks n a = rw (n, a, set_active_version_by_timestamp) refl

  abbrev pub OtherThan : ℤ → (Ptr → KeyShareVersion F) → Option Ptr → Type 0
  OtherThan v h none = Unit
  OtherThan v h (some p) = (h p).version ≢ v

  pub clear_active-version :
      (active : Option Ptr) (h : Ptr → KeyShareVersion F) (p : Ptr)
      → (clear_active active h p).version ≡ (h p).version
  clear_active-version none h p = refl
  clear_active-version (some a) h p = ground arith

  promote-OtherThan :
      (v : ℤ) (ks : KeyStore F) (p : Ptr)
      → is_poisoned v ks ≡ true
      → WhenOk (λ ks'. OtherThan v ks'.object (get_active_version ks')) (promote p ks)
  unfolding promote get_active_version
  promote-OtherThan v ks p y = elim (Bool-cases (is_poisoned (ks.object p).version ks)) [
    | inl b ↦ rw (b, promote) tt
    | inr n ↦
        rw (n, promote) (λ e. true_and_false y (subst (λ x. is_poisoned x ks ≡ false) (same e) n))
  ]
    where
      same :
          (clear_active ks.active_version (set_flag p true ks.object) p).version ≡ v
          → (ks.object p).version ≡ v
      same e = ground (arith, clear_active-version ks.active_version (set_flag p true ks.object) p)

  -- Once a version is poisoned it cannot be made active by its number, its share is refused, a
  -- promotion of the pending version that succeeds makes another version active, and no time resolves
  -- to it.
  pub mark_poisoned_excludes :
      (v t : ℤ) (ks : KeyStore F)
      → let ks' = mark_poisoned v ks in
        (set_active_version_by_timestamp v ks' ≡ err (poisoned_version v))
        × (get_private_share_for_version v ks' ≡ err (poisoned_version v))
        × WhenOk
            (λ ks''. OtherThan v ks''.object (get_active_version ks''))
            (activate_pending_version ks')
        × OtherThan v ks'.object (get_key_version_at_time t ks')
  unfolding set_active_version_by_timestamp get_private_share_for_version activate_pending_version
  mark_poisoned_excludes v t ks = (
    rw (marked, set_active_version_by_timestamp) refl,
    rw (marked, get_private_share_for_version) refl,
    elim (Option-cases (mark_poisoned v ks).pending_version) [
      | inl e ↦ rw (e, activate_pending_version) tt
      | inr (p, e) ↦
          rw (e, activate_pending_version) (promote-OtherThan v (mark_poisoned v ks) p marked)
    ],
    resolved (get_key_version_at_time t (mark_poisoned v ks))
        (get_key_version_at_time-Resolves t (mark_poisoned v ks)),
  )
    where
      marked : is_poisoned v (mark_poisoned v ks) ≡ true
      marked = is_poisoned-mark_poisoned_self v ks

      resolved :
          (o : Option Ptr)
          → Resolves t (mark_poisoned v ks) o
          → OtherThan v (mark_poisoned v ks).object o
      resolved none r = tt
      resolved (some b) r =
          λ e. true_and_false marked (subst (λ x. is_poisoned x (mark_poisoned v ks) ≡ false) e r.1)
