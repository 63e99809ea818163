-- ===== src/Tests/Waits.antt =====
-- The table of sessions, the waits and a broadcast at concrete inputs.
use eigenx_kms_go.Prelude.{ℕ, ◌≡◌, refl, none, some, List, [], ◌∷◌, replicate, arith}
use eigenx_kms_go.Prelude.Int.{pos}
use eigenx_kms_go.Prelude.Maps.{lookup}
use eigenx_kms_go.Types.{Acknowledgement, CommitmentBroadcast, Hash}
use eigenx_kms_go.Peering.{OperatorSetPeer, bn254}
use eigenx_kms_go.Session.{ProtocolSession, reshare, new_session}
use eigenx_kms_go.Session.Table.{Table, get_session, wait_for_session}
use eigenx_kms_go.Session.Table.Waiting.{created, wait_for_session_woken, wait_for_session_missed}
use eigenx_kms_go.Session.Verify.{verify_operator_broadcast}
use eigenx_kms_go.Session.Verify.Accepted.{Verdict, verify_operator_broadcast-Verdict}

abbrev peer : ℕ → OperatorSetPeer
peer a = record { operator_address = a; socket_address = []; curve_type = bn254 }

abbrev two_operators : List OperatorSetPeer
two_operators = peer 1 ∷ peer 2 ∷ []

abbrev no_sessions : Table ℕ
no_sessions = record { active_sessions = []; session_notify = []; closed = 0 ∷ []; made = 1 }

wait_for_session_woken_example :
    (wait_for_session
      (λ tb. tb)
      (created reshare two_operators (pos 1700) (pos 1701))
      (pos 1700)
      no_sessions).1
    ≡ some (new_session reshare two_operators (pos 1700) (pos 1701))
unfolding get_session lookup
wait_for_session_woken_example =
    wait_for_session_woken reshare two_operators (pos 1700) (pos 1701) (λ tb. tb) no_sessions refl

wait_for_session_missed_example :
    let r =
      wait_for_session
        (created reshare two_operators (pos 1700) (pos 1701))
        (λ tb'. tb')
        (pos 1700)
        no_sessions in
    (r.1 ≡ none)
    × (get_session (pos 1700) r.0 ≡ some (new_session reshare two_operators (pos 1700) (pos 1701)))
unfolding get_session lookup
wait_for_session_missed_example =
    wait_for_session_missed reshare two_operators (pos 1700) (pos 1701) no_sessions refl refl
      (omega arith, tt)

abbrev share_hash_of : List ℕ → Hash
share_hash_of bytes = bytes

abbrev bytes_of : ℕ → List ℕ
bytes_of n = n ∷ []

abbrev my_ack : Acknowledgement
my_ack = record {
  dealer_address = 2;
  player_address = 1;
  session_timestamp = pos 1700;
  share_hash = 20 ∷ [];
  commitment_hash = [];
  signature = [];
}

abbrev broadcast_of_2 : CommitmentBroadcast
broadcast_of_2 = record {
  from_operator_address = 2;
  session_timestamp = pos 1700;
  commitments = [];
  acknowledgements = my_ack ∷ [];
  merkle_proof = replicate 32 0 ∷ [];
}

abbrev with_share_of_2 : ProtocolSession ℕ
with_share_of_2 = record (new_session reshare two_operators (pos 1700) (pos 1701)) {
  shares = (2, some 20) ∷ [];
}

verify_operator_broadcast-Verdict_example :
    Verdict share_hash_of bytes_of 1 broadcast_of_2 with_share_of_2 (
      verify_operator_broadcast share_hash_of bytes_of 1
        (some broadcast_of_2)
        (some with_share_of_2))
verify_operator_broadcast-Verdict_example =
    verify_operator_broadcast-Verdict share_hash_of bytes_of 1 broadcast_of_2 with_share_of_2
