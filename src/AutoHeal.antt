-- ===== src/AutoHeal.antt =====
-- pkg/node/autoheal.go: counting the reshare rounds that fail the master-public-key check, and the
-- rollback of a poisoned source version. The client of a persistence layer P. Logging is left out.
pub mod Tracker
pub mod Target
pub mod Rollback
pub mod Persisted
use eigenx_kms_go.Prelude.{
  ℕ, suc, ◌+◌, Bool, true, false, ◌&&◌, not, Option, none, some, List, [], ◌∷◌, ◌++◌, map, Result,
  ok, err, leb, if◌then◌else◌,
}
use eigenx_kms_go.Prelude.Int.{ℤ, ltb_ℤ, eqb_ℤ, pos}
use eigenx_kms_go.Prelude.Sorting.{sort}
use eigenx_kms_go.Types.{KeyShareVersion}
use eigenx_kms_go.KeyStore.{KeyStore, mark_poisoned, is_poisoned, set_active_version_by_timestamp}
use eigenx_kms_go.Persistence.{NodeState, NodePersistence, fresh_node_state}

abbrev pub demotion_threshold : ℕ
demotion_threshold = 3

pub record AbortTracker : Type 0 where
  pub tracked_source_version : ℤ
  pub consecutive_aborts : ℕ

abbrev pub new_abort_tracker : AbortTracker
new_abort_tracker = record { tracked_source_version = pos 0; consecutive_aborts = 0 }

-- The method changes the tracker and returns whether to demote the active version.
unfoldable pub record_mpk_abort : ℤ → ℤ → AbortTracker → AbortTracker × Bool
record_mpk_abort active majority t =
    let t' =
      (if eqb_ℤ t.tracked_source_version active
        then t
        else record { tracked_source_version = active; consecutive_aborts = 0 }) in
    if eqb_ℤ majority active
    then (
      record t' { consecutive_aborts = suc t'.consecutive_aborts },
      leb demotion_threshold (suc t'.consecutive_aborts),
    )
    else (t', false)

unfoldable pub record_success : AbortTracker → AbortTracker
record_success t = record t { consecutive_aborts = 0 }

-- `v < poisonedVersion && !isPoisoned(v)`
abbrev pub is_candidate : ℤ → (ℤ → Bool) → ℤ → Bool
is_candidate bad is_bad v = ltb_ℤ v bad && not (is_bad v)

pub first_candidate : ℤ → (ℤ → Bool) → List ℤ → Option ℤ
first_candidate bad is_bad [] = none
first_candidate bad is_bad (v ∷ vs) =
    if is_candidate bad is_bad v then some v else first_candidate bad is_bad vs

-- `none` is the result (0, false).
unfoldable pub rollback_target : ℤ → ℤ → List ℤ → (ℤ → Bool) → Option ℤ
unfolding first_candidate sort
rollback_target lkg bad persisted is_bad =
    if ltb_ℤ (pos 0) lkg && is_candidate bad is_bad lkg
    then some lkg
    else first_candidate bad is_bad (sort (λ a b. ltb_ℤ b a) persisted)

-- The fields of Node that the auto-heal path reads and writes.
pub record Healing (F : Type 0) (State : Type 0) : Type 0 where
  pub key_store : KeyStore F
  pub store : State
  pub tracker : AbortTracker
  pub operator_address : List ℕ

-- `if err := …; err != nil { log }`: a failed write leaves the state.
abbrev pub or_keep {ℓ} : {S E : Type ℓ} → S → Result E S → S
or_keep s (ok s') = s'
or_keep s (err e) = s

-- `if err != nil || st == nil { st = &NodeState{OperatorAddress: …} }`
abbrev pub or_fresh {ℓ} : {E : Type ℓ} → List ℕ → Result E (Option NodeState) → NodeState
or_fresh address (ok (some st)) = st
or_fresh address (ok none) = fresh_node_state address
or_fresh address (err e) = fresh_node_state address

abbrev pub last_known_good {ℓ} : {E : Type ℓ} → Result E (Option NodeState) → ℤ
last_known_good (ok (some st)) = st.last_known_good_source_version
last_known_good (ok none) = pos 0
last_known_good (err e) = pos 0

abbrev pub versions_of : {F : Type 0} → List (KeyShareVersion F) → List ℤ
versions_of vs = map (λ v. v.version) vs

module _ {F : Type 0} (P : NodePersistence F) where
  open P use {
    State, Failure, load_node_state, save_node_state, list_key_share_versions, add_poisoned_version,
    set_active_version_timestamp,
  }

  unfoldable pub persist_abort_tracker : Healing F State → Healing F State
  persist_abort_tracker n =
      let st = or_fresh n.operator_address (load_node_state n.store) in
      record n {
        store = or_keep n.store (
            save_node_state
              (record st {
                tracked_source_version = n.tracker.tracked_source_version;
                consecutive_mpk_aborts = n.tracker.consecutive_aborts;
              })
              n.store);
      }

  -- The keystore after the call to SetActiveVersionByTimestamp; an error is the floor.
  roll_to : {E : Type 0} → ℤ → Healing F State → Result E (KeyStore F) → Healing F State
  unfolding persist_abort_tracker
  roll_to target n (err e) = n
  roll_to target n (ok ks) = persist_abort_tracker (record n {
    key_store = ks;
    store = or_keep n.store (set_active_version_timestamp target n.store);
    tracker = record { tracked_source_version = target; consecutive_aborts = 0 };
  })

  roll_to_target : Option ℤ → Healing F State → Healing F State
  unfolding roll_to
  roll_to_target none n = n
  roll_to_target (some target) n =
      roll_to target n (set_active_version_by_timestamp target n.key_store)

  roll_among : ℤ → Result Failure (List (KeyShareVersion F)) → Healing F State → Healing F State
  unfolding roll_to_target rollback_target
  roll_among bad (err e) n = n
  roll_among bad (ok versions) n =
      roll_to_target
        (rollback_target (last_known_good (load_node_state n.store)) bad (versions_of versions)
          (λ v. is_poisoned v n.key_store))
        n

  unfoldable pub perform_rollback : ℤ → Healing F State → Healing F State
  unfolding roll_among
  perform_rollback bad n =
      let n' = record n {
        key_store = mark_poisoned bad n.key_store;
        store = or_keep n.store (add_poisoned_version bad n.store);
      } in
      roll_among bad (list_key_share_versions n'.store) n'

  unfoldable pub on_mpk_validation_abort : ℤ → ℤ → Healing F State → Healing F State
  unfolding perform_rollback persist_abort_tracker
  on_mpk_validation_abort active majority n =
      let (tracker, demote) = record_mpk_abort active majority n.tracker in
      let n' = persist_abort_tracker (record n { tracker = tracker }) in
      if demote then perform_rollback active n' else n'

  unfoldable pub record_successful_reshare : ℤ → Healing F State → Healing F State
  unfolding record_success
  record_successful_reshare agreed n =
      let st = or_fresh n.operator_address (load_node_state n.store) in
      record n {
        tracker = record_success n.tracker;
        store = or_keep n.store (
            save_node_state
              (record st {
                consecutive_mpk_aborts = 0;
                last_known_good_source_version =
                    if ltb_ℤ (pos 0) agreed then agreed else st.last_known_good_source_version;
              })
              n.store);
      }
