-- ===== src/Session/Received.antt =====
-- node.go: what a session holds after the messages of its operators.
use eigenx_kms_go.Prelude.{
  suc, ◌≡◌, refl, false, Option, none, some, List, [], ◌∷◌, Result, ok, err, arith, Bool-cases, inl,
  inr, length, nat_eq, ◌⊎◌, ◌≤◌,
}
use eigenx_kms_go.Prelude.Int.{ℤ}
use eigenx_kms_go.Prelude.Maps.{lookup, insert, keys}
use eigenx_kms_go.Types.{Address, G2Point, Acknowledgement}
use eigenx_kms_go.Peering.{OperatorSetPeer}
use eigenx_kms_go.Session.{
  SessionType, SessionError, ProtocolSession, is_some, new_session, handle_received_share,
  handle_received_commitment, handle_received_ack, set_my_generated_shares,
}

-- The key set of an insertion does not depend on the values.
keys-insert :
    {V W : Type 0} (k : Address) (v : V) (w : W) (m : List (Address × V)) (m' : List (Address × W))
    → keys m ≡ keys m'
    → keys (insert k v m) ≡ keys (insert k w m')
unfolding keys insert
keys-insert k v w [] [] e = refl
keys-insert k v w [] ((j, y) ∷ m') e = cc
keys-insert k v w ((j, x) ∷ m) [] e = cc
keys-insert k v w ((j, x) ∷ m) ((i, y) ∷ m') e =
    let h : j ≡ i = cc in let t : keys m ≡ keys m' = cc in ground (arith, keys-insert k v w m m' t)

pub length-insert :
    {V : Type 0} (k : Address) (v : V) (m : List (Address × V))
    → lookup k m ≡ none
    → length (insert k v m) ≡ suc (length m)
unfolding lookup insert
length-insert k v [] e = refl
length-insert k v ((j, w) ∷ m) e = ground (arith, length-insert k v m)

pub none_of : {A : Type 0} (o : Option A) → is_some o ≡ false → o ≡ none
none_of none e = refl
none_of (some a) e = cc

-- What a node does with a session before it finalizes; a wait takes the signal out of its channel.
pub data Event (F : Type 0) : Type 0 where
  share_from : Address → Option F → Event F
  commitment_from : Address → List G2Point → ℤ → Event F
  ack_from : Address → Address → Acknowledgement → Event F
  dealt : List (Address × F) → Event F
  shares_awaited : Event F
  commitments_awaited : Event F

abbrev pub or_same :
    {F : Type 0} → ProtocolSession F → Result SessionError (ProtocolSession F) → ProtocolSession F
or_same s (ok s') = s'
or_same s (err e) = s

module _ {F : Type 0} where
  -- A message that is refused leaves the session as it was.
  unfoldable pub after : Event F → ProtocolSession F → ProtocolSession F
  unfolding handle_received_share handle_received_commitment handle_received_ack
      set_my_generated_shares
  after (share_from a x) s = or_same s (handle_received_share a x s)
  after (commitment_from a cs v) s = or_same s (handle_received_commitment a cs v s)
  after (ack_from d p ack) s = or_same s (handle_received_ack d p ack s)
  after (dealt shares) s = set_my_generated_shares shares s
  after shares_awaited s = record s { shares_complete = false }
  after commitments_awaited s = record s { commitments_complete = false }

  -- The earliest event first.
  unfoldable pub run : List (Event F) → ProtocolSession F → ProtocolSession F
  unfolding after
  run [] s = s
  run (e ∷ es) s = run es (after e s)

  -- Every commitment has its source version, and a completion signal means that there is a share, or a
  -- commitment, for each operator.
  pub record IsSession (s : ProtocolSession F) : Type 0 where
    pub versions : keys s.commitments ≡ keys s.source_versions
    pub shares_signal : (s.shares_complete ≡ false) ⊎ (length s.operators ≤ length s.shares)
    pub commitments_signal :
        (s.commitments_complete ≡ false) ⊎ (length s.operators ≤ length s.commitments)

  share-IsSession :
      (a : Address) (x : Option F) (s : ProtocolSession F)
      → IsSession s
      → IsSession (or_same s (handle_received_share a x s))
  unfolding handle_received_share
  share-IsSession a x s h = elim (Bool-cases (is_some (lookup a s.shares))) [
    | inl y ↦ rw y h
    | inr n ↦ rw n (record {
      versions = h.versions;
      shares_signal =
          ground
            (arith, h.shares_signal, length-insert a x s.shares (none_of (lookup a s.shares) n));
      commitments_signal = h.commitments_signal;
    })
  ]

  commitment-IsSession :
      (a : Address) (cs : List G2Point) (v : ℤ) (s : ProtocolSession F)
      → IsSession s
      → IsSession (or_same s (handle_received_commitment a cs v s))
  unfolding handle_received_commitment
  commitment-IsSession a [] v s h = h
  commitment-IsSession a (c ∷ cs) v s h = elim (Bool-cases (is_some (lookup a s.commitments))) [
    | inl y ↦ rw y h
    | inr n ↦ rw n (record {
      versions = keys-insert a (c ∷ cs) v s.commitments s.source_versions h.versions;
      shares_signal = h.shares_signal;
      commitments_signal = ground (
        arith,
        h.commitments_signal,
        length-insert a (c ∷ cs) s.commitments (none_of (lookup a s.commitments) n),
      );
    })
  ]

  ack-IsSession :
      (d p : Address) (ack : Acknowledgement) (s : ProtocolSession F)
      → IsSession s
      → IsSession (or_same s (handle_received_ack d p ack s))
  unfolding handle_received_ack
  ack-IsSession d p ack s h =
      elim (Bool-cases (is_some (lookup p (elim (lookup d s.acks) [ none ↦ [] | some m ↦ m ])))) [
        | inl y ↦ rw y h
        | inr n ↦ rw n (record {
          versions = h.versions;
          shares_signal = h.shares_signal;
          commitments_signal = h.commitments_signal;
        })
      ]

  after-IsSession : (e : Event F) (s : ProtocolSession F) → IsSession s → IsSession (after e s)
  unfolding after set_my_generated_shares
  after-IsSession (share_from a x) s h = share-IsSession a x s h
  after-IsSession (commitment_from a cs v) s h = commitment-IsSession a cs v s h
  after-IsSession (ack_from d p ack) s h = ack-IsSession d p ack s h
  after-IsSession (dealt shares) s h = record {
    versions = h.versions;
    shares_signal = h.shares_signal;
    commitments_signal = h.commitments_signal;
  }
  after-IsSession shares_awaited s h = record {
    versions = h.versions;
    shares_signal = inl refl;
    commitments_signal = h.commitments_signal;
  }
  after-IsSession commitments_awaited s h = record {
    versions = h.versions;
    shares_signal = h.shares_signal;
    commitments_signal = inl refl;
  }

  run-IsSession_from :
      (es : List (Event F)) (s : ProtocolSession F) → IsSession s → IsSession (run es s)
  unfolding run
  run-IsSession_from [] s h = h
  run-IsSession_from (e ∷ es) s h = run-IsSession_from es (after e s) (after-IsSession e s h)

  -- After any messages and waits, in any order, the dealers with a recorded commitment are the dealers
  -- with a recorded source version, and a completion signal is there only if shares, or commitments,
  -- have arrived from as many senders as there are operators.
  pub run-IsSession :
      (es : List (Event F)) (type : SessionType) (ops : List OperatorSetPeer) (t now : ℤ)
      → IsSession (run es (new_session type ops t now))
  unfolding keys
  run-IsSession es type ops t now =
      run-IsSession_from es (new_session type ops t now)
        (record { versions = refl; shares_signal = inl refl; commitments_signal = inl refl })
