-- ===== src/KeyStore/Flags.antt =====
-- keystore.go: the flag IsActive and the pointer to the active version say the same.
use eigenx_kms_go.Prelude.{
  ◌≡◌, refl, ◌≢◌, ◌⊎◌, true, false, Option, none, some, [], ◌∷◌, arith, All, All-append, All-map_of,
  Option-cases, inl, inr, ap, Bool-cases, WhenOk,
}
use eigenx_kms_go.Prelude.Int.{ℤ}
use eigenx_kms_go.Types.{KeyShareVersion}
use eigenx_kms_go.KeyStore.{
  Ptr, KeyStore, add_version, point_to, clear_active, set_flag, activate_found, promote,
  set_active_version_by_timestamp, find_version, activate_pending_version, is_poisoned,
}

module _ {F : Type 0} where
  abbrev IsFlagged : Option Ptr → (Ptr → KeyShareVersion F) → Type 0
  IsFlagged none h = Unit
  IsFlagged (some a) h = (h a).is_active ≡ true

  -- A version that claims to be active is the one that `active` names.
  abbrev Claims : Option Ptr → (Ptr → KeyShareVersion F) → Ptr → Type 0
  Claims active h p = ((h p).is_active ≡ false) ⊎ (active ≡ some p)

  -- The version that the pointer names has the flag, and no other version of the keystore has it.
  pub record IsConsistent (ks : KeyStore F) : Type 0 where
    pub flagged : IsFlagged ks.active_version ks.object
    pub sole : All (Claims ks.active_version ks.object) ks.key_versions

  point_to-Claims :
      (ks : KeyStore F) (q p : Ptr)
      → Claims ks.active_version ks.object p
      → Claims (some q) (point_to q ks).object p
  point_to-Claims ks q p h = elim (Option-cases ks.active_version) [
    | inl e ↦ ground arith
    | inr (a, e) ↦ ground arith
  ]

  pub point_to-IsConsistent :
      (ks : KeyStore F) (q : Ptr) → IsConsistent ks → IsConsistent (point_to q ks)
  point_to-IsConsistent ks q c = record {
    flagged = ground arith;
    sole =
        All-map_of (Claims ks.active_version ks.object) (Claims (some q) (point_to q ks).object)
          (point_to-Claims ks q) ks.key_versions c.sole;
  }

  clear_active-Claims :
      (active : Option Ptr) (h : Ptr → KeyShareVersion F) (q p : Ptr)
      → Claims active h p
      → Claims (some q) (clear_active active h) p
  clear_active-Claims none h q p c = ground arith
  clear_active-Claims (some a) h q p c = ground arith

  -- A version that is added must not be the active object itself, which would lose its flag.
  pub add_version-IsConsistent :
      (ks : KeyStore F) (p : Ptr)
      → ks.active_version ≢ some p
      → IsConsistent ks
      → IsConsistent (add_version p ks)
  unfolding add_version
  add_version-IsConsistent ks p fresh c = elim (Bool-cases (ks.object p).is_active) [
    | inl y ↦
        rw (y, add_version)
          (record {
            flagged = clear_other ks.active_version fresh y;
            sole =
                All-append (Claims (some p) (clear_active ks.active_version ks.object))
                  ks.key_versions (p ∷ [])
                  (All-map_of (Claims ks.active_version ks.object) _
                    (λ q. clear_active-Claims ks.active_version ks.object p q) ks.key_versions
                    c.sole)
                  (inr refl, tt);
          })
    | inr n ↦
        rw (n, add_version)
          (record {
            flagged = c.flagged;
            sole =
                All-append (Claims ks.active_version ks.object) ks.key_versions (p ∷ []) c.sole
                  (inl n, tt);
          })
  ]
    where
      clear_other :
          (active : Option Ptr)
          → active ≢ some p
          → (ks.object p).is_active ≡ true
          → (clear_active active ks.object p).is_active ≡ true
      clear_other none ne y = y
      clear_other (some a) ne y = ground (arith, λ (e : a ≡ p). ne (ap some e))

  activate_found-IsConsistent :
      (ks : KeyStore F) (v : ℤ) (o : Option Ptr)
      → IsConsistent ks
      → WhenOk IsConsistent (activate_found v o ks)
  activate_found-IsConsistent ks v none c = tt
  activate_found-IsConsistent ks v (some p) c = point_to-IsConsistent ks p c

  pub set_active_version_by_timestamp-IsConsistent :
      (ks : KeyStore F) (v : ℤ)
      → IsConsistent ks
      → WhenOk IsConsistent (set_active_version_by_timestamp v ks)
  unfolding set_active_version_by_timestamp
  set_active_version_by_timestamp-IsConsistent ks v c = elim (Bool-cases (is_poisoned v ks)) [
    | inl y ↦ rw (y, set_active_version_by_timestamp) tt
    | inr n ↦
        rw (n, set_active_version_by_timestamp)
          (activate_found-IsConsistent ks v (find_version v ks.object ks.key_versions) c)
  ]

  set_then_clear-Claims :
      (active : Option Ptr) (h : Ptr → KeyShareVersion F) (q p : Ptr)
      → Claims active h p
      → Claims (some q) (clear_active active (set_flag q true h)) p
  set_then_clear-Claims none h q p c = ground arith
  set_then_clear-Claims (some a) h q p c = ground arith

  set_then_clear-IsFlagged :
      (active : Option Ptr) (h : Ptr → KeyShareVersion F) (q : Ptr)
      → active ≢ some q
      → IsFlagged (some q) (clear_active active (set_flag q true h))
  set_then_clear-IsFlagged none h q ne = ground arith
  set_then_clear-IsFlagged (some a) h q ne = ground (arith, λ (e : a ≡ q). ne (ap some e))

  promote-IsConsistent :
      (ks : KeyStore F) (p : Ptr)
      → ks.active_version ≢ some p
      → IsConsistent ks
      → WhenOk IsConsistent (promote p ks)
  unfolding promote
  promote-IsConsistent ks p ne c = elim (Bool-cases (is_poisoned (ks.object p).version ks)) [
    | inl y ↦ rw (y, promote) tt
    | inr n ↦
        rw (n, promote)
          (record {
            flagged = set_then_clear-IsFlagged ks.active_version ks.object p ne;
            sole =
                All-append _ ks.key_versions (p ∷ [])
                  (All-map_of (Claims ks.active_version ks.object)
                    (Claims (some p) (clear_active ks.active_version (set_flag p true ks.object)))
                    (λ q. set_then_clear-Claims ks.active_version ks.object p q) ks.key_versions
                    c.sole)
                  (inr refl, tt);
          })
  ]

  pub activate_pending_version-IsConsistent :
      (ks : KeyStore F)
      → ((p : Ptr) → ks.pending_version ≡ some p → ks.active_version ≢ some p)
      → IsConsistent ks
      → WhenOk IsConsistent (activate_pending_version ks)
  unfolding activate_pending_version
  activate_pending_version-IsConsistent ks ne c = elim (Option-cases ks.pending_version) [
    | inl e ↦ rw (e, activate_pending_version) tt
    | inr (p, e) ↦ rw (e, activate_pending_version) (promote-IsConsistent ks p (ne p e) c)
  ]
