-- ===== src/AutoHeal/Persisted.antt =====
-- autoheal.go: what the auto-heal path leaves in the persisted node state.
use eigenx_kms_go.Prelude.{◌≡◌, ◌≢◌, some, [], ok, if◌then◌else◌}
use eigenx_kms_go.Prelude.Int.{ℤ, ltb_ℤ, pos}
use eigenx_kms_go.Persistence.{NodePersistence, NodeState}
use eigenx_kms_go.AutoHeal.{Healing, persist_abort_tracker, record_successful_reshare}

module _ {F : Type 0} (P : NodePersistence F) (st : NodeState) (n : Healing F P.State)
    (loaded : P.load_node_state n.store ≡ ok (some st)) (named : st.operator_address ≢ []) where
  -- If there is a saved state with an operator's address and the save succeeds, persisting the
  -- tracker writes its two fields into the saved state and leaves every other field.
  pub persist_abort_tracker-load :
      {s : P.State}
      → let st' = record st {
        tracked_source_version = n.tracker.tracked_source_version;
        consecutive_mpk_aborts = n.tracker.consecutive_aborts;
      } in
        P.save_node_state st' n.store ≡ ok s
        → P.load_node_state (persist_abort_tracker P n).store ≡ ok (some st')
  unfolding persist_abort_tracker
  persist_abort_tracker-load saved = rw (loaded, saved) (P.load-save _ n.store named saved)

  -- If there is a saved state with an operator's address and the save succeeds, a validated round
  -- persists a count of zero, records the agreed version as the last known good one if it is
  -- positive, and leaves every other field of the saved state.
  pub record_successful_reshare-load :
      (agreed : ℤ) {s : P.State}
      → let st' = record st {
        consecutive_mpk_aborts = 0;
        last_known_good_source_version =
            if ltb_ℤ (pos 0) agreed then agreed else st.last_known_good_source_version;
      } in
        P.save_node_state st' n.store ≡ ok s
        → P.load_node_state (record_successful_reshare P agreed n).store ≡ ok (some st')
  unfolding record_successful_reshare
  record_successful_reshare-load agreed saved =
      rw (loaded, saved) (P.load-save _ n.store named saved)
