-- ===== src/Session/Table.antt =====
-- pkg/node/node.go: the table of active sessions and the handlers that wait for a session. A section
-- that holds a lock is one step, so createSession is two steps and waitForSession is two steps and the
-- end of its wait. A notification channel is a number, and it is only ever closed.
pub mod Waiting
use eigenx_kms_go.Prelude.{
  ℕ, suc, Bool, true, false, Option, none, some, List, [], ◌∷◌, map, Result, ok, err, ◌==◌,
  if◌then◌else◌, contains, nat_eq, int_eq, ◌>>=◌,
}
use eigenx_kms_go.Prelude.Int.{ℤ, ltb_ℤ, ◌-ℤ◌}
use eigenx_kms_go.Prelude.Maps.{lookup, insert, delete}
use eigenx_kms_go.Peering.{OperatorSetPeer}
use eigenx_kms_go.Dealers.{SetError, validate_operator_set_no_duplicates}
use eigenx_kms_go.Session.{SessionType, ProtocolSession, new_session}

abbrev pub Channel : Type 0
Channel = ℕ

-- `made` is the number of channels that exist; the next one has this number.
pub record Table (F : Type 0) : Type 0 where
  pub active_sessions : List (ℤ × ProtocolSession F)
  pub session_notify : List (ℤ × Channel)
  pub closed : List Channel
  pub made : ℕ

-- `exists && ch == notifyCh`
abbrev pub is_channel : Channel → Option Channel → Bool
is_channel ch none = false
is_channel ch (some c) = c == ch

module _ {F : Type 0} where
  -- The step of createSession under `sessionMutex`.
  unfoldable pub register_session : ℤ → ProtocolSession F → Table F → Table F
  unfolding insert
  register_session t s tb = record tb { active_sessions = insert t s tb.active_sessions }

  -- The step of createSession under `sessionNotifyLock`.
  unfoldable pub notify_waiters : ℤ → Table F → Table F
  unfolding lookup delete
  notify_waiters t tb = elim (lookup t tb.session_notify) [
    | none ↦ tb
    | some ch ↦ record tb { session_notify = delete t tb.session_notify; closed = ch ∷ tb.closed }
  ]

  unfoldable pub create_session :
      SessionType → List OperatorSetPeer → ℤ → ℤ → Table F → Result SetError (Table F)
  unfolding validate_operator_set_no_duplicates register_session notify_waiters
  create_session type ops t now tb = validate_operator_set_no_duplicates (map some ops) >>= λ u.
      ok (notify_waiters t (register_session t (new_session type ops t now) tb))

  unfoldable pub get_session : ℤ → Table F → Option (ProtocolSession F)
  unfolding lookup
  get_session t tb = lookup t tb.active_sessions

  -- The step of waitForSession under `sessionNotifyLock`: the channel to wait on.
  unfoldable pub join_waiters : ℤ → Table F → Table F × Channel
  unfolding lookup insert
  join_waiters t tb = elim (lookup t tb.session_notify) [
    | none ↦ (
      record tb { session_notify = insert t tb.made tb.session_notify; made = suc tb.made },
      tb.made,
    )
    | some ch ↦ (tb, ch)
  ]

  -- The end of the wait: a closed channel wakes the waiter, and else the time runs out.
  unfoldable pub end_wait : ℤ → Channel → Table F → Table F × Option (ProtocolSession F)
  unfolding contains get_session lookup delete
  end_wait t ch tb =
      if contains tb.closed ch
      then (tb, get_session t tb)
      else (if is_channel ch (lookup t tb.session_notify)
          then (record tb { session_notify = delete t tb.session_notify }, none)
          else (tb, none))

  -- The whole of waitForSession, where `meanwhile` and `later` are what the other goroutines do after
  -- its first step and after its second.
  unfoldable pub wait_for_session :
      (Table F → Table F) → (Table F → Table F) → ℤ → Table F → Table F × Option (ProtocolSession F)
  unfolding get_session join_waiters end_wait
  wait_for_session meanwhile later t tb = elim (get_session t tb) [
    | some s ↦ (tb, some s)
    | none ↦ let (tb', ch) = join_waiters t (meanwhile tb) in end_wait t ch (later tb')
  ]

  -- The deletion from persistence that follows is a call of the persistence layer.
  unfoldable pub cleanup_session : ℤ → Table F → Table F
  unfolding delete
  cleanup_session t tb = record tb { active_sessions = delete t tb.active_sessions }

  older_than : ℤ → ℤ → List (ℤ × ProtocolSession F) → List (ℤ × ProtocolSession F)
  older_than now max_age [] = []
  older_than now max_age ((t, s) ∷ m) =
      let rest = older_than now max_age m in
      if ltb_ℤ max_age (now -ℤ s.start_time) then rest else (t, s) ∷ rest

  unfoldable pub cleanup_old_sessions : ℤ → ℤ → Table F → Table F
  unfolding older_than
  cleanup_old_sessions now max_age tb = record tb {
    active_sessions = older_than now max_age tb.active_sessions;
  }
