-- ===== src/Session/Verify/Accepted.antt =====
-- node.go, VerifyOperatorBroadcast: each verdict and its cause.
use eigenx_kms_go.Prelude.{
  ℕ, ◌≡◌, ◌≢◌, refl, sym, true, Option, none, some, List, [], ◌∷◌, Result, ok, err, arith,
  Bool-cases, Option-cases, inl, inr, subst, All, Memᴰ, ◌==◌, ==_iff, if◌then◌else◌, nat_eq,
  bytes_eq, list_beq, list_beq_iff, true_and_false,
}
use eigenx_kms_go.Prelude.Maps.{lookup, insert}
use eigenx_kms_go.Types.{Address, Hash, Acknowledgement, CommitmentBroadcast}
use eigenx_kms_go.Crypto.{hash_share_for_ack}
use eigenx_kms_go.Session.{ProtocolSession}
use eigenx_kms_go.Session.Verify.{
  VerifyError, nil_broadcast, session_not_found, my_ack_not_found, merkle_proof_empty,
  no_share_received, share_hash_mismatch, find_ack, check_share, check_ack,
  verify_operator_broadcast, is_empty_proof,
}

find_ack-Memᴰ :
    (me : Address) (acks : List Acknowledgement) (ack : Acknowledgement)
    → find_ack me acks ≡ some ack
    → Memᴰ ack acks × (ack.player_address ≡ me)
unfolding find_ack
find_ack-Memᴰ me [] ack e = cc
find_ack-Memᴰ me (a ∷ acks) ack e = elim (Bool-cases (a.player_address == me)) [
  | inl y ↦
      let s : a ≡ ack = ground (arith, y, e) in
      (Memᴰ.head (sym s), subst (λ x. x.player_address ≡ me) s ((==_iff a.player_address me).0 y))
  | inr n ↦ let r = find_ack-Memᴰ me acks ack (ground (arith, n, e)) in (Memᴰ.tail r.0, r.1)
]

find_ack-none :
    (me : Address) (acks : List Acknowledgement)
    → find_ack me acks ≡ none
    → All (λ ack. ack.player_address ≢ me) acks
unfolding find_ack
find_ack-none me [] e = tt
find_ack-none me (a ∷ acks) e = (
  λ s. ground (arith, (==_iff a.player_address me).1 s, e),
  find_ack-none me acks (ground (arith, e, ==_iff a.player_address me)),
)

module _ {F : Type 0} (keccak256 : List ℕ → Hash) (share_bytes : F → List ℕ) (me : Address) where
  -- An acknowledgement of this node in the broadcast.
  abbrev pub Mine : Acknowledgement → CommitmentBroadcast → Type 0
  Mine ack b = Memᴰ ack b.acknowledgements × (ack.player_address ≡ me)

  abbrev pub Verdict :
      CommitmentBroadcast → ProtocolSession F → Result VerifyError (ProtocolSession F) → Type 0
  Verdict b s (ok s') =
      (ack : Acknowledgement) × (share : F) × Mine ack b
      × (lookup b.from_operator_address s.shares ≡ some (some share))
      × (ack.share_hash ≡ hash_share_for_ack keccak256 share_bytes share)
      × (b.merkle_proof ≢ [])
      × (s' ≡ record s {
        verified_operators = insert b.from_operator_address true s.verified_operators;
      })
  Verdict b s (err nil_broadcast) = ⊥
  Verdict b s (err session_not_found) = ⊥
  Verdict b s (err my_ack_not_found) = All (λ ack. ack.player_address ≢ me) b.acknowledgements
  Verdict b s (err merkle_proof_empty) = b.merkle_proof ≡ []
  Verdict b s (err (no_share_received d)) =
      (d ≡ b.from_operator_address) × ((share : F) → lookup d s.shares ≢ some (some share))
  Verdict b s (err (share_hash_mismatch d)) =
      (d ≡ b.from_operator_address)
      × ((ack : Acknowledgement) × (share : F) × Mine ack b
          × (lookup d s.shares ≡ some (some share))
          × (ack.share_hash ≢ hash_share_for_ack keccak256 share_bytes share))

  check_proof-Verdict :
      (ack : Acknowledgement) (share : F) (b : CommitmentBroadcast) (s : ProtocolSession F)
      → Mine ack b
      → lookup b.from_operator_address s.shares ≡ some (some share)
      → Verdict b s (check_share keccak256 share_bytes me ack (some (some share)) b s)
  unfolding check_share
  check_proof-Verdict ack share b s m e =
      elim (Bool-cases (list_beq ack.share_hash (hash_share_for_ack keccak256 share_bytes share))) [
        | inl y ↦ rw (y, check_share) (proof b.merkle_proof refl ((list_beq_iff _ _).0 y))
        | inr n ↦
            rw (n, check_share)
              (refl, (ack, share, m, e, λ h. true_and_false ((list_beq_iff _ _).1 h) n))
      ]
    where
      proof :
          (p : List Hash)
          → b.merkle_proof ≡ p
          → ack.share_hash ≡ hash_share_for_ack keccak256 share_bytes share
          → Verdict b s (
              if is_empty_proof p
              then err merkle_proof_empty
              else ok (record s {
                verified_operators = insert b.from_operator_address true s.verified_operators;
              }))
      proof [] q h = q
      proof (x ∷ p) q h = (ack, share, m, e, h, λ z. absurd (cc), refl)

  check_share-Verdict :
      (ack : Acknowledgement) (o : Option (Option F)) (b : CommitmentBroadcast)
      (s : ProtocolSession F)
      → Mine ack b
      → lookup b.from_operator_address s.shares ≡ o
      → Verdict b s (check_share keccak256 share_bytes me ack o b s)
  unfolding check_share
  check_share-Verdict ack none b s m e = (refl, λ share h. cc)
  check_share-Verdict ack (some none) b s m e = (refl, λ share h. cc)
  check_share-Verdict ack (some (some share)) b s m e = check_proof-Verdict ack share b s m e

  -- For a broadcast and a session that are there: the broadcast is accepted only if it holds an
  -- acknowledgement of this node for exactly the share that the session has from the dealer, and
  -- a proof; then the dealer is marked as verified and nothing else changes. Each error has the
  -- cause that it names.
  pub verify_operator_broadcast-Verdict :
      (b : CommitmentBroadcast) (s : ProtocolSession F)
      → Verdict b s (verify_operator_broadcast keccak256 share_bytes me (some b) (some s))
  unfolding verify_operator_broadcast check_ack
  verify_operator_broadcast-Verdict b s = elim (Option-cases (find_ack me b.acknowledgements)) [
    | inl n ↦ rw (n, verify_operator_broadcast) (find_ack-none me b.acknowledgements n)
    | inr (ack, f) ↦
        rw (f, verify_operator_broadcast)
          (check_share-Verdict ack (lookup b.from_operator_address s.shares) b s
            (find_ack-Memᴰ me b.acknowledgements ack f) refl)
  ]
