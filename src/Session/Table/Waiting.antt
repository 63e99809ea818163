-- ===== src/Session/Table/Waiting.antt =====
-- node.go, createSession and waitForSession: a waiter and a creator side by side.
use eigenx_kms_go.Prelude.{
  ℕ, ◌<◌, ◌≡◌, refl, ◌∙◌, true, false, none, some, List, [], ◌∷◌, arith, All, Bool-cases,
  Option-cases, inl, inr, ==_iff, contains, nat_eq, int_eq, beq_refl,
}
use eigenx_kms_go.Prelude.Int.{ℤ}
use eigenx_kms_go.Prelude.Maps.{lookup, insert, lookup-insert}
use eigenx_kms_go.Peering.{OperatorSetPeer}
use eigenx_kms_go.Session.{SessionType, new_session}
use eigenx_kms_go.Session.Table.{
  Table, Channel, register_session, notify_waiters, get_session, join_waiters, end_wait,
  wait_for_session, is_channel,
}

not_closed : (n : ℕ) (cs : List Channel) → All (λ c. c < n) cs → contains cs n ≡ false
unfolding contains
not_closed n [] h = refl
not_closed n (c ∷ cs) h = ground (arith, not_closed n cs h.1, h.0, ==_iff c n)

module _ {F : Type 0} where
  -- The creation of a session as one change of the table.
  abbrev pub created : SessionType → List OperatorSetPeer → ℤ → ℤ → Table F → Table F
  created type ops t now tb = notify_waiters t (register_session t (new_session type ops t now) tb)

  get_session-created :
      (type : SessionType) (ops : List OperatorSetPeer) (t now : ℤ) (tb : Table F)
      → get_session t (created type ops t now tb) ≡ some (new_session type ops t now)
  unfolding get_session register_session notify_waiters
  get_session-created type ops t now tb = elim (Option-cases (lookup t tb.session_notify)) [
    | inl e ↦
        rw (e, notify_waiters)
          (lookup-insert t t (new_session type ops t now) tb.active_sessions ∙ rw (beq_refl t) refl)
    | inr (ch, e) ↦
        rw (e, notify_waiters)
          (lookup-insert t t (new_session type ops t now) tb.active_sessions ∙ rw (beq_refl t) refl)
  ]

  join_waiters-notify :
      (t : ℤ) (tb : Table F)
      → lookup t (join_waiters t tb).0.session_notify ≡ some (join_waiters t tb).1
  unfolding join_waiters
  join_waiters-notify t tb = elim (Option-cases (lookup t tb.session_notify)) [
    | inl e ↦
        rw (e, join_waiters) (lookup-insert t t tb.made tb.session_notify ∙ rw (beq_refl t) refl)
    | inr (ch, e) ↦ rw (e, join_waiters) e
  ]

  closed-created :
      (type : SessionType) (ops : List OperatorSetPeer) (t now : ℤ) (tb : Table F) (ch : Channel)
      → lookup t tb.session_notify ≡ some ch
      → contains (created type ops t now tb).closed ch ≡ true
  unfolding register_session notify_waiters contains
  closed-created type ops t now tb ch e = rw (e, notify_waiters) (ground (arith, ==_iff ch ch))

  -- A handler that finds no session and joins the waiters gets the session if the creation of it
  -- is what follows, whatever happens between its look and its joining.
  pub wait_for_session_woken :
      (type : SessionType) (ops : List OperatorSetPeer) (t now : ℤ) (meanwhile : Table F → Table F)
      (tb : Table F)
      → get_session t tb ≡ none
      → (wait_for_session meanwhile (created type ops t now) t tb).1
        ≡ some (new_session type ops t now)
  unfolding wait_for_session end_wait
  wait_for_session_woken type ops t now meanwhile tb e =
      let joined = join_waiters t (meanwhile tb) in
      rw (e, wait_for_session)
        (rw (closed-created type ops t now joined.0 joined.1 (join_waiters-notify t (meanwhile tb)))
          (get_session-created type ops t now joined.0))

  -- Every channel that was closed has been made.
  abbrev pub IsMade : Table F → Type 0
  IsMade tb = All (λ c. c < tb.made) tb.closed

  missed-at :
      (t : ℤ) (tb : Table F)
      → lookup t tb.session_notify ≡ none
      → contains tb.closed tb.made ≡ false
      → let r = end_wait t (join_waiters t tb).1 (join_waiters t tb).0 in
        (r.1 ≡ none) × (r.0.active_sessions ≡ tb.active_sessions)
  unfolding join_waiters end_wait
  missed-at t tb n c =
      rw (n, join_waiters)
        (rw (c, end_wait)
          (elim (Bool-cases (is_channel tb.made (lookup t (insert t tb.made tb.session_notify)))) [
            | inl y ↦ rw (y, end_wait) (refl, refl)
            | inr m ↦ rw (m, end_wait) (refl, refl)
          ]))

  created-unwatched :
      (type : SessionType) (ops : List OperatorSetPeer) (t now : ℤ) (tb : Table F)
      → lookup t tb.session_notify ≡ none
      → created type ops t now tb ≡ register_session t (new_session type ops t now) tb
  unfolding notify_waiters register_session
  created-unwatched type ops t now tb n = rw (n, notify_waiters) refl

  -- If a session is created after a handler has looked for it and before the handler joins the waiters,
  -- and nobody else waits for it, the handler finds no session in the end, though the session is in
  -- the table all that time.
  pub wait_for_session_missed :
      (type : SessionType) (ops : List OperatorSetPeer) (t now : ℤ) (tb : Table F)
      → get_session t tb ≡ none
      → lookup t tb.session_notify ≡ none
      → IsMade tb
      → let r = wait_for_session (created type ops t now) (λ tb'. tb') t tb in
        (r.1 ≡ none) × (get_session t r.0 ≡ some (new_session type ops t now))
  unfolding wait_for_session get_session register_session
  wait_for_session_missed type ops t now tb e n made =
      let tb' = register_session t (new_session type ops t now) tb in
      let m = missed-at t tb' n (not_closed tb.made tb.closed made) in
      rw (e, wait_for_session)
        (rw (created-unwatched type ops t now tb n) (
          m.0,
          rw m.1 (
              lookup-insert t t (new_session type ops t now) tb.active_sessions
              ∙ rw (beq_refl t) refl),
        ))
