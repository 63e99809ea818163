-- ===== src/Tests/AutoHeal.antt =====
-- autoheal.go over the in-memory layer: version 200 is active and bad, version 100 is stored.
use eigenx_kms_go.Prelude.{
  ℕ, ◌*◌, ◌≡◌, refl, false, ◌&&◌, none, some, [], ◌∷◌, ◌==◌, inl, inr, Memᴰ, suc, leb, contains,
}
use eigenx_kms_go.Prelude.Int.{pos, eqb_ℤ}
use eigenx_kms_go.Types.{KeyShareVersion}
use eigenx_kms_go.KeyStore.{Ptr, mark_poisoned, is_poisoned}
use eigenx_kms_go.Persistence.{NodeState}
use eigenx_kms_go.Persistence.Memory.{
  MemoryPersistence, load_node_state, add_poisoned_version, list_key_share_versions, values_at,
}
use eigenx_kms_go.Prelude.Maps.{lookup, keys}
use eigenx_kms_go.Prelude.Sorting.{sort, insert_sorted}
use eigenx_kms_go.Persistence.Memory.Contract.{memory_persistence}
use eigenx_kms_go.AutoHeal.{Healing, record_mpk_abort, rollback_target, perform_rollback}
use eigenx_kms_go.AutoHeal.Tracker.{aborted, tracker_after, streak, record_mpk_abort-streak}
use eigenx_kms_go.AutoHeal.Target.{Chooses, rollback_target-Chooses}
use eigenx_kms_go.AutoHeal.Rollback.{
  Rolled, Outcome, with_poisoned, perform_rollback-Outcome, perform_rollback_recovers,
}

record_mpk_abort-streak_example :
    (record_mpk_abort (pos 200) (pos 200) (
      tracker_after (
        aborted (pos 200) (pos 200)
        ∷ aborted (pos 200) (pos 300)
        ∷ aborted (pos 200) (pos 200)
        ∷ []))).1
    ≡ (eqb_ℤ (pos 200) (pos 200)
        && leb 3 (
            suc (
              streak (pos 200) (
                aborted (pos 200) (pos 200)
                ∷ aborted (pos 200) (pos 300)
                ∷ aborted (pos 200) (pos 200)
                ∷ []))))
record_mpk_abort-streak_example =
    record_mpk_abort-streak (pos 200) (pos 200)
      (aborted (pos 200) (pos 200) ∷ aborted (pos 200) (pos 300) ∷ aborted (pos 200) (pos 200) ∷ [])

rollback_target-Chooses_example :
    Chooses
      (pos 300)
      (pos 300)
      (pos 100 ∷ pos 200 ∷ pos 300 ∷ [])
      (λ v. eqb_ℤ v (pos 200))
      (rollback_target
        (pos 300)
        (pos 300)
        (pos 100 ∷ pos 200 ∷ pos 300 ∷ [])
        (λ v. eqb_ℤ v (pos 200)))
rollback_target-Chooses_example =
    rollback_target-Chooses (pos 300) (pos 300) (pos 100 ∷ pos 200 ∷ pos 300 ∷ [])
      (λ v. eqb_ℤ v (pos 200))

abbrev objects : Ptr → KeyShareVersion ℕ
objects p = record {
  version = pos (100 * p);
  private_share = some p;
  commitments = [];
  master_public_key = none;
  is_active = p == 2;
  participant_ids = 11 ∷ 12 ∷ [];
}

abbrev saved_state : NodeState
saved_state = record {
  last_processed_boundary = pos 20;
  node_start_time = pos 1;
  operator_address = 48 ∷ [];
  tracked_source_version = pos 200;
  consecutive_mpk_aborts = 2;
  last_known_good_source_version = pos 100;
}

abbrev layer : MemoryPersistence ℕ
layer = record {
  key_shares = (pos 200, objects 2) ∷ (pos 100, objects 1) ∷ [];
  active_version_timestamp = pos 200;
  node_state = saved_state;
  sessions = [];
  block_records = [];
  last_processed_blocks = [];
  poisoned = [];
  closed = false;
}

abbrev node : Healing ℕ (MemoryPersistence ℕ)
node = record {
  key_store = record {
    object = objects;
    key_versions = 1 ∷ 2 ∷ [];
    active_version = some 2;
    pending_version = none;
    poisoned = [];
  };
  store = layer;
  tracker = record { tracked_source_version = pos 200; consecutive_aborts = 3 };
  operator_address = 48 ∷ [];
}

perform_rollback-Outcome_example :
    Outcome
      (memory_persistence ℕ)
      (pos 200)
      (with_poisoned (memory_persistence ℕ) (pos 200) node)
      (perform_rollback (memory_persistence ℕ) (pos 200) node)
perform_rollback-Outcome_example = perform_rollback-Outcome (memory_persistence ℕ) (pos 200) node

-- The last-known-good version is not set, so that the rollback walks back to version 100.
abbrev node_without_lkg : Healing ℕ (MemoryPersistence ℕ)
node_without_lkg = record node {
  store = record layer {
    node_state = record saved_state { last_known_good_source_version = pos 0 };
  };
}

perform_rollback_recovers_example :
    Rolled
      (memory_persistence ℕ)
      (pos 200)
      (with_poisoned (memory_persistence ℕ) (pos 200) node_without_lkg)
      (perform_rollback (memory_persistence ℕ) (pos 200) node_without_lkg)
unfolding add_poisoned_version list_key_share_versions contains lookup values_at sort insert_sorted
    keys load_node_state mark_poisoned is_poisoned
perform_rollback_recovers_example =
    perform_rollback_recovers (memory_persistence ℕ) (pos 200) node_without_lkg
      (objects 1 ∷ objects 2 ∷ []) refl (inr (pos 100, Memᴰ.head refl, refl))
      (inl refl, (inr (1, Memᴰ.head refl, refl), (inl refl, tt)))
