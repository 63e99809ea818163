-- ===== src/KeyStore.antt =====
-- pkg/keystore/keystore.go: the key versions of a node. A `*KeyShareVersion` is a number and the
-- objects are the values of a store at these numbers, since the fields of the keystore alias one
-- another: the active version is mostly one of `key_versions`. A pointer that a caller hands over
-- is not nil. Each method runs under the keystore's lock, so it is one step.
pub mod Flags
pub mod Reachable
pub mod Lookup
pub mod Poison
use eigenx_kms_go.Prelude.{
  ℕ, ◌≡◌, Bool, true, false, ◌&&◌, not, Option, none, some, List, [], ◌∷◌, ◌++◌, Result, ok, err,
  ◌==◌, if◌then◌else◌, contains, int_eq,
}
use eigenx_kms_go.Prelude.Int.{ℤ, leb_ℤ, ltb_ℤ, eqb_ℤ}
use eigenx_kms_go.Types.{KeyShareVersion}

-- A `*types.KeyShareVersion` that is not nil.
abbrev pub Ptr : Type 0
Ptr = ℕ

pub data Error : Type 0 where
  no_active_version : Error
  no_pending_version : Error
  poisoned_version : ℤ → Error
  poisoned_pending : ℤ → Error
  no_private_share : ℤ → Error
  no_key_version : ℤ → Error

pub record KeyStore (F : Type 0) : Type 0 where
  pub object : Ptr → KeyShareVersion F
  pub key_versions : List Ptr
  pub active_version : Option Ptr
  pub pending_version : Option Ptr
  pub poisoned : List ℤ

module _ {F : Type 0} where
  -- `p.IsActive = b`
  abbrev pub set_flag : Ptr → Bool → (Ptr → KeyShareVersion F) → Ptr → KeyShareVersion F
  set_flag p b h q = if p == q then record (h q) { is_active = b } else h q

  -- `if ks.activeVersion != nil { ks.activeVersion.IsActive = false }`
  abbrev pub clear_active : Option Ptr → (Ptr → KeyShareVersion F) → Ptr → KeyShareVersion F
  clear_active none h = h
  clear_active (some a) h = set_flag a false h

  unfoldable pub new_key_store : (Ptr → KeyShareVersion F) → KeyStore F
  new_key_store h = record {
    object = h;
    key_versions = [];
    active_version = none;
    pending_version = none;
    poisoned = [];
  }

  unfoldable pub add_version : Ptr → KeyStore F → KeyStore F
  add_version p ks =
      let ks' = record ks { key_versions = ks.key_versions ++ (p ∷ []) } in
      if (ks.object p).is_active
      then record ks' { object = clear_active ks.active_version ks.object; active_version = some p }
      else ks'

  -- Clears the flag of the version that was active, then sets the flag of `p` and points to it.
  abbrev pub point_to : Ptr → KeyStore F → KeyStore F
  point_to p ks = record ks {
    object = set_flag p true (clear_active ks.active_version ks.object);
    active_version = some p;
  }

  unfoldable pub set_active_version : Ptr → KeyStore F → KeyStore F
  set_active_version p ks = point_to p ks

  unfoldable pub is_poisoned : ℤ → KeyStore F → Bool
  unfolding contains
  is_poisoned v ks = contains ks.poisoned v

  -- The first entry of `key_versions` with the given version.
  unfoldable pub find_version : ℤ → (Ptr → KeyShareVersion F) → List Ptr → Option Ptr
  find_version v h [] = none
  find_version v h (p ∷ ps) = if eqb_ℤ (h p).version v then some p else find_version v h ps

  abbrev activate_found : ℤ → Option Ptr → KeyStore F → Result Error (KeyStore F)
  activate_found v none ks = err (no_key_version v)
  activate_found v (some p) ks = ok (point_to p ks)

  unfoldable pub set_active_version_by_timestamp : ℤ → KeyStore F → Result Error (KeyStore F)
  unfolding is_poisoned
  set_active_version_by_timestamp v ks =
      if is_poisoned v ks
      then err (poisoned_version v)
      else activate_found v (find_version v ks.object ks.key_versions) ks

  unfoldable pub get_active_version : KeyStore F → Option Ptr
  get_active_version ks = ks.active_version

  unfoldable pub mark_poisoned : ℤ → KeyStore F → KeyStore F
  unfolding is_poisoned
  mark_poisoned v ks = if is_poisoned v ks then ks else record ks { poisoned = v ∷ ks.poisoned }

  -- The share is a pointer field, and dereferencing a nil share panics: `none` inside.
  unfoldable pub get_active_private_share : KeyStore F → Result Error (Option F)
  get_active_private_share ks = elim ks.active_version [
    | none ↦ err no_active_version
    | some p ↦ ok (ks.object p).private_share
  ]

  -- `none` is the nil that clears the field.
  unfoldable pub set_pending_version : Option Ptr → KeyStore F → KeyStore F
  set_pending_version p ks = record ks { pending_version = p }

  unfoldable pub get_pending_version : KeyStore F → Option Ptr
  get_pending_version ks = ks.pending_version

  -- The flag of the pending version is set before the flag of the active one is cleared.
  promote : Ptr → KeyStore F → Result Error (KeyStore F)
  unfolding is_poisoned
  promote p ks =
      if is_poisoned (ks.object p).version ks
      then err (poisoned_pending (ks.object p).version)
      else ok (record ks {
        object = clear_active ks.active_version (set_flag p true ks.object);
        active_version = some p;
        key_versions = ks.key_versions ++ (p ∷ []);
        pending_version = none;
      })

  unfoldable pub activate_pending_version : KeyStore F → Result Error (KeyStore F)
  unfolding promote
  activate_pending_version ks = elim ks.pending_version [
    | none ↦ err no_pending_version
    | some p ↦ promote p ks
  ]

  unfoldable pub clear_pending_version : KeyStore F → KeyStore F
  clear_pending_version ks = record ks { pending_version = none }

  share_of : ℤ → Option F → Result Error F
  share_of v none = err (no_private_share v)
  share_of v (some s) = ok s

  unfoldable pub get_private_share_for_version : ℤ → KeyStore F → Result Error F
  unfolding is_poisoned share_of
  get_private_share_for_version v ks =
      if is_poisoned v ks
      then err (poisoned_version v)
      else elim (find_version v ks.object ks.key_versions) [
        | none ↦ err (no_key_version v)
        | some p ↦ share_of v (ks.object p).private_share
      ]

  -- `best == nil || version.Version > best.Version`
  abbrev pub is_better : (Ptr → KeyShareVersion F) → Ptr → Option Ptr → Bool
  is_better h p none = true
  is_better h p (some b) = ltb_ℤ (h b).version (h p).version

  -- `!bad && version.Version <= timestamp`
  abbrev pub is_eligible : ℤ → KeyStore F → Ptr → Bool
  is_eligible t ks p = not (is_poisoned (ks.object p).version ks) && leb_ℤ (ks.object p).version t

  unfoldable pub best_version : ℤ → KeyStore F → Option Ptr → List Ptr → Option Ptr
  best_version t ks best [] = best
  best_version t ks best (p ∷ ps) =
      best_version t ks (if is_eligible t ks p && is_better ks.object p best then some p else best)
        ps

  unfoldable pub get_key_version_at_time : ℤ → KeyStore F → Option Ptr
  unfolding best_version
  get_key_version_at_time t ks = best_version t ks none ks.key_versions
