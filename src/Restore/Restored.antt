-- ===== src/Restore/Restored.antt =====
-- node.go, RestoreState: what a node that starts again takes back.
use eigenx_kms_go.Prelude.{
  ◌≡◌, refl, sym, ◌∙◌, true, Option, none, some, List, [], ok, arith, Bool-cases, inl, inr, subst,
  if◌then◌else◌, contains, int_eq,
}
use eigenx_kms_go.Prelude.Int.{ℤ, pos, ltb_ℤ, eqb_ℤ, ◌<ℤ◌}
use eigenx_kms_go.Types.{KeyShareVersion}
use eigenx_kms_go.Config.{get_protocol_timeout_for_chain}
use eigenx_kms_go.KeyStore.{
  Ptr, KeyStore, set_active_version, find_version, get_active_version, is_poisoned, point_to,
}
use eigenx_kms_go.KeyStore.Lookup.{find_version-Memᴰ}
use eigenx_kms_go.KeyStore.Poison.{clear_active-version}
use eigenx_kms_go.Persistence.{NodeState, NodePersistence, ProtocolSessionState}
use eigenx_kms_go.AutoHeal.{AbortTracker, new_abort_tracker, versions_of}
use eigenx_kms_go.Restore.{
  Node, place, pointers, add_versions, activate, restore_active, mark_all, restore_poisoned,
  restore_tracker, restored_boundary, delete_sessions, restored_keys, restore_state,
}
use eigenx_kms_go.Restore.Placed.{
  placed-found, find_version-Same, add_versions-Same, add_versions-poisoned, mark_all-eq,
  is_poisoned-mark_all,
}

module _ {F : Type 0} where
  -- The keystore points at an object with the version `t`.
  abbrev pub Serves : ℤ → KeyStore F → Type 0
  Serves t ks = (p : Ptr) × (get_active_version ks ≡ some p) × ((ks.object p).version ≡ t)

  mark_all-Serves :
      (vs : List ℤ) (t : ℤ) (ks : KeyStore F) → Serves t ks → Serves t (mark_all vs ks)
  unfolding get_active_version
  mark_all-Serves vs t ks (p, a, v) = subst (Serves t) (sym (mark_all-eq vs ks)) (p, a, v)

  point_to-version :
      (ks : KeyStore F) (p : Ptr) → ((point_to p ks).object p).version ≡ (ks.object p).version
  point_to-version ks p = ground (arith, clear_active-version ks.active_version ks.object p)

  restore_active-Serves :
      (t : ℤ) (ps : List Ptr) (ks : KeyStore F) (p : Ptr)
      → ltb_ℤ (pos 0) t ≡ true
      → find_version t ks.object ps ≡ some p
      → Serves t (restore_active t ps ks)
  unfolding restore_active set_active_version get_active_version
  restore_active-Serves t ps ks p l f =
      rw (l, f, restore_active)
        (p, refl, point_to-version ks p ∙ (find_version-Memᴰ t ks.object ps p f).1)

  module _ (base : Ptr) (vs : List (KeyShareVersion F)) (t : ℤ) (poisoned : List ℤ)
      (ks : KeyStore F) where
    abbrev added : KeyStore F
    added = add_versions (pointers base vs) (record ks { object = place base vs ks.object })

    restored-Serves :
        (E : Type 0)
        → pos 0 <ℤ t
        → contains (versions_of vs) t ≡ true
        → Serves t
            (restore_poisoned {E = E} (ok poisoned) (restore_active t (pointers base vs) added))
    unfolding restore_poisoned
    restored-Serves E l c =
        let (p, f) = placed-found t base vs ks.object c in
        mark_all-Serves poisoned t (restore_active t (pointers base vs) added) (
          restore_active-Serves t (pointers base vs) added p (ground (arith, l)) (
            find_version-Same t added.object (place base vs ks.object) (pointers base vs) (
              add_versions-Same (pointers base vs) (record ks { object = place base vs ks.object }))
            ∙ f))

    activate-poisoned : (o : Option Ptr) (k : KeyStore F) → (activate o k).poisoned ≡ k.poisoned
    unfolding set_active_version
    activate-poisoned none k = refl
    activate-poisoned (some p) k = refl

    restore_active-poisoned :
        (ps : List Ptr) (k : KeyStore F) → (restore_active t ps k).poisoned ≡ k.poisoned
    unfolding restore_active
    restore_active-poisoned ps k = elim (Bool-cases (ltb_ℤ (pos 0) t)) [
      | inl y ↦ rw (y, restore_active) (activate-poisoned (find_version t k.object ps) k)
      | inr n ↦ rw (n, restore_active) refl
    ]

    restored-poisoned :
        (E : Type 0) (v : ℤ)
        → ks.poisoned ≡ []
        → is_poisoned v
            (restore_poisoned {E = E} (ok poisoned) (restore_active t (pointers base vs) added))
          ≡ contains poisoned v
    unfolding restore_poisoned is_poisoned contains
    restored-poisoned E v none_yet =
        is_poisoned-mark_all poisoned (restore_active t (pointers base vs) added) v
        ∙ ground (
          arith,
          restore_active-poisoned (pointers base vs) added
              ∙ (add_versions-poisoned (pointers base vs)
                    (record ks { object = place base vs ks.object })
                  ∙ none_yet),
        )

  restore_tracker-Serves :
      (st : NodeState) (t : ℤ) (ks : KeyStore F) (tracker : AbortTracker)
      → Serves t ks
      → restore_tracker (some st) ks tracker ≡ (
          if eqb_ℤ st.tracked_source_version t
          then record {
            tracked_source_version = st.tracked_source_version;
            consecutive_aborts = st.consecutive_mpk_aborts;
          }
          else new_abort_tracker)
  unfolding restore_tracker
  restore_tracker-Serves st t ks tracker (p, a, v) = rw (a, restore_tracker) (rw v refl)

-- If everything can be read, and the persisted active version is positive and among the persisted
-- versions, a node that starts with no poisoned version takes up the active version again, poisoned
-- or not. Exactly the persisted poisoned versions are poisoned, and the abort count is taken over only
-- if it was counted for the active version.
pub restore_state-active :
    {F : Type 0} (P : NodePersistence F) (now : ℤ) (base : Ptr) (n : Node F P.State)
    (st : NodeState) (vs : List (KeyShareVersion F)) (t : ℤ) (poisoned : List ℤ)
    (sessions : List ProtocolSessionState)
    → P.load_node_state n.store ≡ ok (some st)
    → P.list_key_share_versions n.store ≡ ok vs
    → P.get_active_version_timestamp n.store ≡ ok t
    → P.list_poisoned_versions n.store ≡ ok poisoned
    → P.list_protocol_sessions n.store ≡ ok sessions
    → n.key_store.poisoned ≡ []
    → pos 0 <ℤ t
    → contains (versions_of vs) t ≡ true
    → (n' : Node F P.State) × (restore_state P now base n ≡ ok n')
      × Serves t n'.key_store
      × ((v : ℤ) → is_poisoned v n'.key_store ≡ contains poisoned v)
      × (n'.tracker ≡ (
          if eqb_ℤ st.tracked_source_version t
          then record {
            tracked_source_version = st.tracked_source_version;
            consecutive_aborts = st.consecutive_mpk_aborts;
          }
          else new_abort_tracker))
unfolding restore_state
restore_state-active P now base n st vs t poisoned sessions e₁ e₂ e₃ e₄ e₅ clean l c =
    let keys = restored_keys P base vs t (ok poisoned) n.key_store in
    let active = restored-Serves base vs t poisoned n.key_store P.Failure l c in
    (
      record n {
        last_processed_boundary = restored_boundary (some st) n.last_processed_boundary;
        key_store = keys;
        tracker = restore_tracker (some st) keys n.tracker;
        store =
            delete_sessions P now (pos (get_protocol_timeout_for_chain n.chain_id)) sessions
              n.store;
      },
      rw (e₁, e₂, e₃, e₄, e₅) refl,
      active,
      λ v. restored-poisoned base vs t poisoned n.key_store P.Failure v clean,
      restore_tracker-Serves st t keys n.tracker active,
    )
