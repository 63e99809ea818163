-- ===== src/Session/Stored.antt =====
-- node.go: a message that a session has stored stays, and the messages of all operators complete it.
use eigenx_kms_go.Prelude.{
  ◌+◌, ◌≡◌, refl, sym, ◌∙◌, true, false, ◌||◌, Option, none, some, List, [], ◌∷◌, arith, Bool-cases,
  inl, inr, subst, ◌==◌, length, nat_eq, contains, ==_iff, All, beq_refl,
}
use eigenx_kms_go.Prelude.Int.{ℤ}
use eigenx_kms_go.Prelude.Maps.{lookup, insert, lookup-insert}
use eigenx_kms_go.Types.{Address, G2Point, Acknowledgement}
use eigenx_kms_go.Peering.{OperatorSetPeer}
use eigenx_kms_go.Dealers.Overlap.{IsSetOf}
use eigenx_kms_go.Session.{
  SessionType, ProtocolSession, is_some, new_session, handle_received_share,
  handle_received_commitment, handle_received_ack, set_my_generated_shares,
}
use eigenx_kms_go.Session.Received.{
  Event, share_from, commitment_from, ack_from, dealt, shares_awaited, commitments_awaited, or_same,
  after, run, length-insert,
}

is_some_of :
    {V : Type 0} (j : Address) (m : List (Address × V)) (v : V)
    → lookup j m ≡ some v
    → is_some (lookup j m) ≡ false
    → ⊥
is_some_of j m v e n = ground (arith, e, n)

-- A first entry is not replaced by one under a key that had none.
lookup-insert_other :
    {V : Type 0} (j k : Address) (v w : V) (m : List (Address × V))
    → lookup j m ≡ some v
    → is_some (lookup k m) ≡ false
    → lookup j (insert k w m) ≡ some v
lookup-insert_other j k v w m e n = elim (Bool-cases (k == j)) [
  | inl y ↦
      let same : k ≡ j = (==_iff k j).0 y in
      absurd (is_some_of j m v e (subst (λ x. is_some (lookup x m) ≡ false) same n))
  | inr d ↦ lookup-insert k j w m ∙ rw d e
]

module _ {F : Type 0} where
  -- What `s` has stored of the dealer stands in `s'` too.
  abbrev pub Keeps : Address → ProtocolSession F → ProtocolSession F → Type 0
  Keeps a s s' =
      ((x : Option F) → lookup a s.shares ≡ some x → lookup a s'.shares ≡ some x)
      × ((cs : List G2Point) → lookup a s.commitments ≡ some cs → lookup a s'.commitments ≡ some cs)

  share-Keeps :
      (a b : Address) (y : Option F) (s : ProtocolSession F)
      → Keeps a s (or_same s (handle_received_share b y s))
  unfolding handle_received_share
  share-Keeps a b y s = elim (Bool-cases (is_some (lookup b s.shares))) [
    | inl h ↦ rw h (λ x e. e, λ cs e. e)
    | inr n ↦ rw n (λ x e. lookup-insert_other a b x y s.shares e n, λ cs e. e)
  ]

  commitment-Keeps :
      (a b : Address) (ds : List G2Point) (v : ℤ) (s : ProtocolSession F)
      → Keeps a s (or_same s (handle_received_commitment b ds v s))
  unfolding handle_received_commitment
  commitment-Keeps a b [] v s = (λ x e. e, λ cs e. e)
  commitment-Keeps a b (d ∷ ds) v s = elim (Bool-cases (is_some (lookup b s.commitments))) [
    | inl h ↦ rw h (λ x e. e, λ cs e. e)
    | inr n ↦ rw n (λ x e. e, λ cs e. lookup-insert_other a b cs (d ∷ ds) s.commitments e n)
  ]

  ack-Keeps :
      (a d p : Address) (ack : Acknowledgement) (s : ProtocolSession F)
      → Keeps a s (or_same s (handle_received_ack d p ack s))
  unfolding handle_received_ack
  ack-Keeps a d p ack s =
      elim (Bool-cases (is_some (lookup p (elim (lookup d s.acks) [ none ↦ [] | some m ↦ m ])))) [
        | inl h ↦ rw h (λ x e. e, λ cs e. e)
        | inr n ↦ rw n (λ x e. e, λ cs e. e)
      ]

  after-Keeps : (a : Address) (e : Event F) (s : ProtocolSession F) → Keeps a s (after e s)
  unfolding after set_my_generated_shares
  after-Keeps a (share_from b x) s = share-Keeps a b x s
  after-Keeps a (commitment_from b cs v) s = commitment-Keeps a b cs v s
  after-Keeps a (ack_from d p ack) s = ack-Keeps a d p ack s
  after-Keeps a (dealt shares) s = (λ x e. e, λ cs e. e)
  after-Keeps a shares_awaited s = (λ x e. e, λ cs e. e)
  after-Keeps a commitments_awaited s = (λ x e. e, λ cs e. e)

  pub run-Keeps : (a : Address) (es : List (Event F)) (s : ProtocolSession F) → Keeps a s (run es s)
  unfolding run
  run-Keeps a [] s = (λ x e. e, λ cs e. e)
  run-Keeps a (e ∷ es) s =
      let h = after-Keeps a e s in
      let k = run-Keeps a es (after e s) in (λ x p. k.0 x (h.0 x p), λ cs p. k.1 cs (h.1 cs p))

  abbrev pub share_events : List (Address × Option F) → List (Event F)
  share_events [] = []
  share_events ((a, x) ∷ ms) = share_from a x ∷ share_events ms

  abbrev pub senders : List (Address × Option F) → List Address
  senders [] = []
  senders ((a, x) ∷ ms) = a ∷ senders ms

  -- The session has a share of none of the addresses.
  abbrev Awaits : List Address → ProtocolSession F → Type 0
  Awaits ds s = All (λ a. lookup a s.shares ≡ none) ds

  abbrev with_share : Address → Option F → ProtocolSession F → ProtocolSession F
  with_share a x s = record s {
    shares = insert a x s.shares;
    shares_complete = s.shares_complete || length (insert a x s.shares) == length s.operators;
  }

  accepted :
      (a : Address) (x : Option F) (s : ProtocolSession F)
      → lookup a s.shares ≡ none
      → or_same s (handle_received_share a x s) ≡ with_share a x s
  unfolding handle_received_share
  accepted a x s e = rw e refl

  with_share-Awaits :
      (a : Address) (x : Option F) (s : ProtocolSession F) (ds : List Address)
      → contains ds a ≡ false
      → Awaits ds s
      → Awaits ds (with_share a x s)
  unfolding contains
  with_share-Awaits a x s [] n h = tt
  with_share-Awaits a x s (d ∷ ds) n h = (
    ground (arith, lookup-insert a d x s.shares, h.0, ==_iff a d, ==_iff d a),
    with_share-Awaits a x s ds (ground arith) h.1,
  )

  -- Every message of the list is stored.
  abbrev pub Stored : List (Address × Option F) → ProtocolSession F → Type 0
  Stored ms s = All (λ m. lookup m.0 s.shares ≡ some m.1) ms

  share_events-Stored :
      (ms : List (Address × Option F)) (s : ProtocolSession F)
      → IsSetOf (senders ms)
      → Awaits (senders ms) s
      → Stored ms (run (share_events ms) s)
  unfolding run after
  share_events-Stored [] s d h = tt
  share_events-Stored ((a, x) ∷ ms) s d h =
      subst (λ s'. Stored ((a, x) ∷ ms) (run (share_events ms) s')) (sym (accepted a x s h.0))
        (
          (run-Keeps a (share_events ms) (with_share a x s)).0 x
              (lookup-insert a a x s.shares ∙ rw (beq_refl a) refl),
          share_events-Stored ms (with_share a x s) d.1
              (with_share-Awaits a x s (senders ms) d.0 h.1),
        )

  share_events_complete :
      (m : Address × Option F) (ms : List (Address × Option F)) (s : ProtocolSession F)
      → IsSetOf (senders (m ∷ ms))
      → Awaits (senders (m ∷ ms)) s
      → length s.shares + length (m ∷ ms) ≡ length s.operators
      → (run (share_events (m ∷ ms)) s).shares_complete ≡ true
  unfolding run after
  share_events_complete (a, x) [] s d h e =
      rw (accepted a x s h.0, run) (ground (arith, length-insert a x s.shares h.0))
  share_events_complete (a, x) (m ∷ ms) s d h e =
      rw (accepted a x s h.0, run)
        (share_events_complete m ms (with_share a x s) d.1
          (with_share-Awaits a x s (senders (m ∷ ms)) d.0 h.1)
          (omega (arith, length-insert a x s.shares h.0)))

  nothing_stored : (s : ProtocolSession F) (ds : List Address) → s.shares ≡ [] → Awaits ds s
  unfolding lookup
  nothing_stored s [] e = tt
  nothing_stored s (d ∷ ds) e = (rw e refl, nothing_stored s ds e)

  -- If there is at least one operator and each of as many senders as there are operators sends
  -- one share to a new session, in any order, the session stores all of them and signals that the
  -- shares are complete.
  pub all_shares_complete :
      (m : Address × Option F) (ms : List (Address × Option F)) (type : SessionType)
      (ops : List OperatorSetPeer) (t now : ℤ)
      → IsSetOf (senders (m ∷ ms))
      → length (m ∷ ms) ≡ length ops
      → let s = run (share_events (m ∷ ms)) (new_session type ops t now) in
        (s.shares_complete ≡ true) × Stored (m ∷ ms) s
  all_shares_complete m ms type ops t now d e = (
    share_events_complete m ms (new_session type ops t now) d
        (nothing_stored (new_session type ops t now) (senders (m ∷ ms)) refl) (omega (arith, e)),
    share_events-Stored (m ∷ ms) (new_session type ops t now) d
        (nothing_stored (new_session type ops t now) (senders (m ∷ ms)) refl),
  )
