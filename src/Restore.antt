-- ===== src/Restore.antt =====
-- pkg/node/node.go, RestoreState: what a node takes back from its persistence layer P when it starts.
-- The versions that P lists are new objects, at the pointers from `base` on. A start that fails ends
-- the process, so an error carries no state. Logging, and the warnings that only log, are left out.
pub mod Placed
pub mod Restored
use eigenx_kms_go.Prelude.{
  ℕ, suc, Bool, true, false, Option, none, some, List, [], ◌∷◌, Result, ok, err, ◌==◌,
  if◌then◌else◌, ◌>>=◌,
}
use eigenx_kms_go.Prelude.Int.{ℤ, pos, ltb_ℤ, eqb_ℤ}
use eigenx_kms_go.Types.{KeyShareVersion}
use eigenx_kms_go.Config.{ChainId, get_protocol_timeout_for_chain}
use eigenx_kms_go.KeyStore.{
  Ptr, KeyStore, add_version, set_active_version, find_version, mark_poisoned, get_active_version,
}
use eigenx_kms_go.Persistence.{NodeState, NodePersistence, ProtocolSessionState, is_expired}
use eigenx_kms_go.AutoHeal.{AbortTracker, new_abort_tracker, or_keep}

pub data RestoreError (E : Type 0) : Type 0 where
  node_state_failed versions_failed active_failed sessions_failed : E → RestoreError E

-- The fields of Node that a restart restores.
pub record Node (F : Type 0) (State : Type 0) : Type 0 where
  pub chain_id : ChainId
  pub last_processed_boundary : ℤ
  pub key_store : KeyStore F
  pub tracker : AbortTracker
  pub store : State

abbrev pub or_fail {ℓ} :
    {E : Type 0} {A : Type ℓ} → (E → RestoreError E) → Result E A → Result (RestoreError E) A
or_fail why (ok a) = ok a
or_fail why (err e) = err (why e)

module _ {F : Type 0} where
  unfoldable pub place :
      Ptr → List (KeyShareVersion F) → (Ptr → KeyShareVersion F) → Ptr → KeyShareVersion F
  place base [] h = h
  place base (v ∷ vs) h = place (suc base) vs (λ q. if base == q then v else h q)

  unfoldable pub pointers : Ptr → List (KeyShareVersion F) → List Ptr
  pointers base [] = []
  pointers base (v ∷ vs) = base ∷ pointers (suc base) vs

  unfoldable pub add_versions : List Ptr → KeyStore F → KeyStore F
  unfolding add_version
  add_versions [] ks = ks
  add_versions (p ∷ ps) ks = add_versions ps (add_version p ks)

  abbrev pub activate : Option Ptr → KeyStore F → KeyStore F
  activate none ks = ks
  activate (some p) ks = set_active_version p ks

  unfoldable pub restore_active : ℤ → List Ptr → KeyStore F → KeyStore F
  unfolding set_active_version find_version
  restore_active t ps ks = if ltb_ℤ (pos 0) t then activate (find_version t ks.object ps) ks else ks

  unfoldable pub mark_all : List ℤ → KeyStore F → KeyStore F
  unfolding mark_poisoned
  mark_all [] ks = ks
  mark_all (v ∷ vs) ks = mark_all vs (mark_poisoned v ks)

  -- A failure to list the poisoned versions is logged.
  unfoldable pub restore_poisoned : {E : Type 0} → Result E (List ℤ) → KeyStore F → KeyStore F
  unfolding mark_all
  restore_poisoned (ok vs) ks = mark_all vs ks
  restore_poisoned (err e) ks = ks

  abbrev pub tracks : NodeState → Option Ptr → KeyStore F → Bool
  tracks st none ks = false
  tracks st (some p) ks = eqb_ℤ st.tracked_source_version (ks.object p).version

  unfoldable pub restore_tracker : Option NodeState → KeyStore F → AbortTracker → AbortTracker
  unfolding get_active_version
  restore_tracker none ks t = t
  restore_tracker (some st) ks t =
      if tracks st (get_active_version ks) ks
      then record {
        tracked_source_version = st.tracked_source_version;
        consecutive_aborts = st.consecutive_mpk_aborts;
      }
      else new_abort_tracker

abbrev pub restored_boundary : Option NodeState → ℤ → ℤ
restored_boundary none b = b
restored_boundary (some st) b =
    if ltb_ℤ (pos 0) st.last_processed_boundary then st.last_processed_boundary else b

module _ {F : Type 0} (P : NodePersistence F) where
  open P use {
    State, Failure, load_node_state, list_key_share_versions, get_active_version_timestamp,
    list_poisoned_versions, list_protocol_sessions, delete_protocol_session,
  }

  -- A session that has expired is deleted, and so is one that has not.
  unfoldable pub delete_sessions : ℤ → ℤ → List ProtocolSessionState → State → State
  unfolding is_expired
  delete_sessions now timeout [] s = s
  delete_sessions now timeout (pss ∷ rest) s = delete_sessions now timeout rest (
      if is_expired now pss timeout
      then or_keep s (delete_protocol_session pss.session_timestamp s)
      else or_keep s (delete_protocol_session pss.session_timestamp s))

  abbrev pub restored_keys :
      Ptr → List (KeyShareVersion F) → ℤ → Result Failure (List ℤ) → KeyStore F → KeyStore F
  restored_keys base vs t poisoned ks = restore_poisoned poisoned (
      restore_active t (pointers base vs)
        (add_versions (pointers base vs) (record ks { object = place base vs ks.object })))

  unfoldable pub restore_state :
      ℤ → Ptr → Node F State → Result (RestoreError Failure) (Node F State)
  unfolding place pointers add_versions restore_active restore_poisoned restore_tracker
      delete_sessions get_protocol_timeout_for_chain
  restore_state now base n = or_fail node_state_failed (load_node_state n.store) >>= λ saved.
      or_fail versions_failed (list_key_share_versions n.store) >>= λ versions.
      or_fail active_failed (get_active_version_timestamp n.store) >>= λ t.
      or_fail sessions_failed (list_protocol_sessions n.store) >>= λ sessions.
      let keys = restored_keys base versions t (list_poisoned_versions n.store) n.key_store in
      ok (record n {
        last_processed_boundary = restored_boundary saved n.last_processed_boundary;
        key_store = keys;
        tracker = restore_tracker saved keys n.tracker;
        store =
            delete_sessions now (pos (get_protocol_timeout_for_chain n.chain_id)) sessions n.store;
      })
