-- ===== src/AutoHeal/Rollback.antt =====
-- autoheal.go: what a rollback does to the node.
use eigenx_kms_go.Prelude.{
  ◌≡◌, refl, ◌≢◌, ◌⊎◌, inl, inr, Bool, true, false, ◌&&◌, Option, none, some, List, Result, ok, err,
  arith, Memᴰ, All, All-Memᴰ, true_and_false, Option-cases, sym, ◌∙◌, ok-injective, subst,
}
use eigenx_kms_go.Prelude.Int.{ℤ, pos, ltb_ℤ}
use eigenx_kms_go.Types.{KeyShareVersion}
use eigenx_kms_go.KeyStore.{Ptr, mark_poisoned, is_poisoned, find_version, point_to}
use eigenx_kms_go.KeyStore.Lookup.{find_version-Memᴰ, find_version-none}
use eigenx_kms_go.KeyStore.Poison.{
  set_active_version_by_timestamp_found, set_active_version_by_timestamp_missing,
}
use eigenx_kms_go.Persistence.{NodePersistence}
use eigenx_kms_go.AutoHeal.{
  Healing, last_known_good, versions_of, or_keep, roll_to, roll_to_target, roll_among,
  perform_rollback, is_candidate,
}
use eigenx_kms_go.AutoHeal.Target.{rollback_target-Chooses, Chooses}

module _ {F : Type 0} (P : NodePersistence F) where
  open P use {State, Failure, load_node_state, add_poisoned_version, list_key_share_versions}

  -- The node with a version poisoned, in the keystore and if possible in the layer, and no more done.
  abbrev pub with_poisoned : ℤ → Healing F State → Healing F State
  with_poisoned bad n = record n {
    key_store = mark_poisoned bad n.key_store;
    store = or_keep n.store (add_poisoned_version bad n.store);
  }

  abbrev pub lkg_of : Healing F State → ℤ
  lkg_of m = last_known_good (load_node_state m.store)

  -- `o` is the target that is owed at `m` when these versions are persisted.
  abbrev pub IsTarget : ℤ → Healing F State → List (KeyShareVersion F) → Option ℤ → Type 0
  IsTarget bad m versions o =
      Chooses (lkg_of m) bad (versions_of versions) (λ v. is_poisoned v m.key_store) o

  -- The keystore holds no object of the version.
  abbrev pub IsMissing : ℤ → Healing F State → Type 0
  IsMissing t m = All (λ p. (m.key_store.object p).version ≢ t) m.key_store.key_versions

  -- The three causes of the floor.
  abbrev pub IsFloor : ℤ → Healing F State → Type 0
  IsFloor bad m =
      ((e : Failure) × (list_key_share_versions m.store ≡ err e))
      ⊎ ((versions : List (KeyShareVersion F)) × (list_key_share_versions m.store ≡ ok versions)
          × (IsTarget bad m versions none
              ⊎ ((t : ℤ) × IsTarget bad m versions (some t) × IsMissing t m)))

  -- The active version is a stored object `p` of the target `t`, which the tracker now counts for.
  abbrev pub Rolled : ℤ → Healing F State → Healing F State → Type 0
  Rolled bad m m' =
      (versions : List (KeyShareVersion F)) × (t : ℤ) × (p : Ptr) × (list_key_share_versions m.store
        ≡ ok versions)
      × IsTarget bad m versions (some t)
      × Memᴰ p m.key_store.key_versions
      × ((m.key_store.object p).version ≡ t)
      × (m'.key_store ≡ point_to p m.key_store)
      × (m'.tracker ≡ record { tracked_source_version = t; consecutive_aborts = 0 })

  abbrev pub Outcome : ℤ → Healing F State → Healing F State → Type 0
  Outcome bad m m' = ((m' ≡ m) × IsFloor bad m) ⊎ Rolled bad m m'

  roll_to_target-Outcome :
      (bad : ℤ) (m : Healing F State) (versions : List (KeyShareVersion F)) (o : Option ℤ)
      → list_key_share_versions m.store ≡ ok versions
      → IsTarget bad m versions o
      → Outcome bad m (roll_to_target P o m)
  unfolding roll_to_target roll_to
  roll_to_target-Outcome bad m versions none l c = inl (refl, inr (versions, l, inl c))
  roll_to_target-Outcome bad m versions (some t) l c =
      elim (Option-cases (find_version t m.key_store.object m.key_store.key_versions)) [
        | inl a ↦ rw (set_active_version_by_timestamp_missing t m.key_store c.1 a) (
            inl (
              refl,
              inr (
                versions,
                l,
                inr (t, c, find_version-none t m.key_store.object m.key_store.key_versions a),
              ),
            ))
        | inr (p, f) ↦
            let (e, v) = find_version-Memᴰ t m.key_store.object m.key_store.key_versions p f in
            rw (set_active_version_by_timestamp_found t m.key_store p c.1 f)
              (inr (versions, t, p, l, c, e, v, refl, refl))
      ]

  roll_among-Outcome :
      (bad : ℤ) (m : Healing F State) (r : Result Failure (List (KeyShareVersion F)))
      → list_key_share_versions m.store ≡ r
      → Outcome bad m (roll_among P bad r m)
  unfolding roll_among
  roll_among-Outcome bad m (err e) l = inl (refl, inl (e, l))
  roll_among-Outcome bad m (ok versions) l = roll_to_target-Outcome bad m versions _ l (
      rollback_target-Chooses (lkg_of m) bad (versions_of versions)
        (λ v. is_poisoned v m.key_store))

  -- A rollback poisons the version, in the layer too unless that write fails. Then either it does nothing
  -- more, because the persisted versions
  -- cannot be listed, because no version may be gone to, or because the keystore has no object of the
  -- target; or the active version is a stored object of the target, which is below the poisoned
  -- version and not poisoned (the last-known-good version if that may be gone to, and else the
  -- greatest persisted version that may), and the tracker starts at zero for it.
  pub perform_rollback-Outcome :
      (bad : ℤ) (n : Healing F State) → Outcome bad (with_poisoned bad n) (perform_rollback P bad n)
  unfolding perform_rollback
  perform_rollback-Outcome bad n = roll_among-Outcome bad (with_poisoned bad n) _ refl

  abbrev pub may_go_to : ℤ → Healing F State → ℤ → Bool
  may_go_to bad m v = is_candidate bad (λ x. is_poisoned x m.key_store) v

  -- The test of the last-known-good version, which is zero when it is not set.
  abbrev pub may_go_to_lkg : ℤ → Healing F State → Bool
  may_go_to_lkg bad m = ltb_ℤ (pos 0) (lkg_of m) && may_go_to bad m (lkg_of m)

  abbrev pub IsHeld : Healing F State → ℤ → Type 0
  IsHeld m t = (p : Ptr) × Memᴰ p m.key_store.key_versions × ((m.key_store.object p).version ≡ t)

  -- There is a version to go to.
  abbrev pub HasTarget : ℤ → Healing F State → List ℤ → Type 0
  HasTarget bad m vs =
      (may_go_to_lkg bad m ≡ true) ⊎ ((v : ℤ) × Memᴰ v vs × (may_go_to bad m v ≡ true))

  -- The keystore holds an object for every version that a rollback may go to.
  abbrev pub IsStocked : ℤ → Healing F State → List ℤ → Type 0
  IsStocked bad m vs =
      ((may_go_to_lkg bad m ≡ false) ⊎ IsHeld m (lkg_of m))
      × All (λ t. (may_go_to bad m t ≡ false) ⊎ IsHeld m t) vs

  pub not_HasTarget :
      (bad : ℤ) (m : Healing F State) (vs : List ℤ)
      → may_go_to_lkg bad m ≡ false
      → All (λ v. may_go_to bad m v ≡ false) vs
      → ¬ HasTarget bad m vs
  not_HasTarget bad m vs lkg none_may (inl y) = true_and_false y lkg
  not_HasTarget bad m vs lkg none_may (inr (v, i, y)) =
      true_and_false y (All-Memᴰ _ v vs i none_may)

  HasTarget-none :
      (bad : ℤ) (m : Healing F State) (versions : List (KeyShareVersion F))
      → HasTarget bad m (versions_of versions)
      → ¬ IsTarget bad m versions none
  HasTarget-none bad m versions h c = not_HasTarget bad m (versions_of versions) c.0 c.1 h

  IsTarget-HasTarget :
      (bad t : ℤ) (m : Healing F State) (versions : List (KeyShareVersion F))
      → IsTarget bad m versions (some t)
      → HasTarget bad m (versions_of versions)
  IsTarget-HasTarget bad t m versions c = elim c.2 [
    | inl h ↦ inl (ground (arith, c.0, c.1, h.0, h.1))
    | inr h ↦ inr (t, h.1, ground (arith, c.0, c.1))
  ]

  IsStocked-IsHeld :
      (bad t : ℤ) (m : Healing F State) (versions : List (KeyShareVersion F))
      → IsStocked bad m (versions_of versions)
      → IsTarget bad m versions (some t)
      → IsHeld m t
  IsStocked-IsHeld bad t m versions s c = elim c.2 [
    | inl h ↦ elim s.0 [
      | inl n ↦ absurd (true_and_false (ground (arith, c.0, c.1, h.0, h.1)) n)
      | inr held ↦ rw h.0 held
    ]
    | inr h ↦ elim (All-Memᴰ _ t (versions_of versions) h.1 s.1) [
      | inl n ↦ absurd (true_and_false (ground (arith, c.0, c.1)) n)
      | inr held ↦ held
    ]
  ]

  -- If the persisted versions can be listed, and the last-known-good version is set and may be gone to
  -- or some persisted version may (it is below the poisoned one and not poisoned), and the keystore
  -- holds an object of every one of these that may be gone to, then the rollback makes a target
  -- active. Without a last-known-good version only the persisted versions count.
  pub perform_rollback_recovers :
      (bad : ℤ) (n : Healing F State) (versions : List (KeyShareVersion F))
      → list_key_share_versions (with_poisoned bad n).store ≡ ok versions
      → HasTarget bad (with_poisoned bad n) (versions_of versions)
      → IsStocked bad (with_poisoned bad n) (versions_of versions)
      → Rolled bad (with_poisoned bad n) (perform_rollback P bad n)
  perform_rollback_recovers bad n versions listed target stocked =
      elim (perform_rollback-Outcome bad n) [
        | inr rolled ↦ rolled
        | inl (same, inl (e, failed)) ↦ absurd cc
        | inl (same, inr (others, l, inl c)) ↦ absurd (
            HasTarget-none bad m versions target
              (subst (λ vs. IsTarget bad m vs none) (listed_same others l) c))
        | inl (same, inr (others, l, inr (t, c, missing))) ↦
            let (p, i, e) =
              IsStocked-IsHeld bad t m versions stocked
                (subst (λ vs. IsTarget bad m vs (some t)) (listed_same others l) c) in
            absurd (All-Memᴰ _ p m.key_store.key_versions i missing e)
      ]
    where
      m : Healing F State
      m = with_poisoned bad n

      listed_same :
          (others : List (KeyShareVersion F))
          → list_key_share_versions m.store ≡ ok others
          → others ≡ versions
      listed_same others l = ok-injective (sym l ∙ listed)

  -- Without a target the rollback only poisons the version.
  pub perform_rollback_floored :
      (bad : ℤ) (n : Healing F State) (versions : List (KeyShareVersion F))
      → list_key_share_versions (with_poisoned bad n).store ≡ ok versions
      → ¬ HasTarget bad (with_poisoned bad n) (versions_of versions)
      → perform_rollback P bad n ≡ with_poisoned bad n
  perform_rollback_floored bad n versions listed h = elim (perform_rollback-Outcome bad n) [
    | inl floored ↦ floored.0
    | inr (others, t, p, l, c, i, e, k, tr) ↦ absurd (
        h (
          subst (λ vs. HasTarget bad (with_poisoned bad n) (versions_of vs))
            (ok-injective (sym l ∙ listed))
            (IsTarget-HasTarget bad t (with_poisoned bad n) others c)))
  ]
