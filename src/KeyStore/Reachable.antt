-- ===== src/KeyStore/Reachable.antt =====
-- keystore.go: what holds of every keystore that calls of its methods lead to.
use eigenx_kms_go.Prelude.{◌≡◌, ◌≢◌, Option, some, ok, inl, inr, Bool-cases, WhenOk, subst}
use eigenx_kms_go.Prelude.Int.{ℤ}
use eigenx_kms_go.Types.{KeyShareVersion}
use eigenx_kms_go.KeyStore.{
  Ptr, KeyStore, new_key_store, add_version, set_active_version, set_active_version_by_timestamp,
  mark_poisoned, set_pending_version, activate_pending_version, clear_pending_version, is_poisoned,
}
use eigenx_kms_go.KeyStore.Flags.{
  IsConsistent, point_to-IsConsistent, add_version-IsConsistent,
  set_active_version_by_timestamp-IsConsistent, activate_pending_version-IsConsistent,
}

module _ {F : Type 0} where
  -- The calls that write. The client does not hand over the active object a second time.
  pub data Step (ks : KeyStore F) : KeyStore F → Type 0 where
    adds : (p : Ptr) → ks.active_version ≢ some p → Step ks (add_version p ks)
    sets_active : (p : Ptr) → Step ks (set_active_version p ks)
    rolls_back :
        (v : ℤ) {ks' : KeyStore F} → set_active_version_by_timestamp v ks ≡ ok ks' → Step ks ks'
    poisons : (v : ℤ) → Step ks (mark_poisoned v ks)
    sets_pending : (p : Option Ptr) → Step ks (set_pending_version p ks)
    activates :
        {ks' : KeyStore F}
        → ((p : Ptr) → ks.pending_version ≡ some p → ks.active_version ≢ some p)
        → activate_pending_version ks ≡ ok ks'
        → Step ks ks'
    clears_pending : Step ks (clear_pending_version ks)

  pub data Reach (ks : KeyStore F) : KeyStore F → Type 0 where
    here : Reach ks ks
    next : {ks' ks'' : KeyStore F} → Reach ks ks' → Step ks' ks'' → Reach ks ks''

  mark_poisoned-IsConsistent :
      (ks : KeyStore F) (v : ℤ) → IsConsistent ks → IsConsistent (mark_poisoned v ks)
  unfolding mark_poisoned
  mark_poisoned-IsConsistent ks v c = elim (Bool-cases (is_poisoned v ks)) [
    | inl y ↦ rw (y, mark_poisoned) c
    | inr n ↦ rw (n, mark_poisoned) (record { flagged = c.flagged; sole = c.sole })
  ]

  Step-IsConsistent : {ks ks' : KeyStore F} → Step ks ks' → IsConsistent ks → IsConsistent ks'
  unfolding set_active_version set_pending_version clear_pending_version
  Step-IsConsistent {ks} (adds p ne) c = add_version-IsConsistent ks p ne c
  Step-IsConsistent {ks} (sets_active p) c = point_to-IsConsistent ks p c
  Step-IsConsistent {ks} (rolls_back v e) c =
      subst (WhenOk IsConsistent) e (set_active_version_by_timestamp-IsConsistent ks v c)
  Step-IsConsistent {ks} (poisons v) c = mark_poisoned-IsConsistent ks v c
  Step-IsConsistent (sets_pending p) c = record { flagged = c.flagged; sole = c.sole }
  Step-IsConsistent {ks} (activates ne e) c =
      subst (WhenOk IsConsistent) e (activate_pending_version-IsConsistent ks ne c)
  Step-IsConsistent clears_pending c = record { flagged = c.flagged; sole = c.sole }

  new_key_store-IsConsistent : (h : Ptr → KeyShareVersion F) → IsConsistent (new_key_store h)
  unfolding new_key_store
  new_key_store-IsConsistent h = record { flagged = tt; sole = tt }

  Reach-IsConsistent_from :
      {ks ks' : KeyStore F} → Reach ks ks' → IsConsistent ks → IsConsistent ks'
  Reach-IsConsistent_from here c = c
  Reach-IsConsistent_from (next r s) c = Step-IsConsistent s (Reach-IsConsistent_from r c)

  -- In every keystore reached from a new one by calls of its methods, where the client does not add or
  -- promote the object that is already active, the version that the active pointer names has its
  -- flag set, and a stored version with the flag set is the one that the active pointer names.
  pub Reach-IsConsistent :
      (h : Ptr → KeyShareVersion F) {ks : KeyStore F} → Reach (new_key_store h) ks → IsConsistent ks
  Reach-IsConsistent h r = Reach-IsConsistent_from r (new_key_store-IsConsistent h)
