-- ===== src/Tests/Session.antt =====
-- A session of three operators, and the shares of five sessions.
use eigenx_kms_go.Prelude.{ℕ, ◌≡◌, refl, true, Option, none, some, List, [], ◌∷◌, contains, nat_eq}
use eigenx_kms_go.Prelude.Int.{ℤ, pos}
use eigenx_kms_go.Types.{Address, G2Point}
use eigenx_kms_go.Peering.{OperatorSetPeer, bn254}
use eigenx_kms_go.Session.{ProtocolSession, reshare, new_session}
use eigenx_kms_go.Session.Received.{
  Event, share_from, commitment_from, shares_awaited, run, IsSession, run-IsSession,
}
use eigenx_kms_go.Session.Stored.{share_events, Stored, all_shares_complete}

abbrev peer : ℕ → OperatorSetPeer
peer a = record { operator_address = a; socket_address = []; curve_type = bn254 }

abbrev three_operators : List OperatorSetPeer
three_operators = peer 1 ∷ peer 2 ∷ peer 3 ∷ []

abbrev fresh : ProtocolSession ℕ
fresh = new_session reshare three_operators (pos 1700) (pos 1701)

abbrev point : ℕ → G2Point
point n = record { compressed_bytes = n ∷ [] }

abbrev some_events : List (Event ℕ)
some_events =
    share_from 1 (some 10)
    ∷ commitment_from 2 (point 5 ∷ []) (pos 300)
    ∷ share_from 1 (some 11)
    ∷ shares_awaited
    ∷ []

run-IsSession_example : IsSession (run some_events fresh)
run-IsSession_example = run-IsSession some_events reshare three_operators (pos 1700) (pos 1701)

abbrev later_messages : List (Address × Option ℕ)
later_messages = (1, some 10) ∷ (3, none) ∷ []

all_shares_complete_example :
    let s = run (share_events ((2, some 20) ∷ later_messages)) fresh in
    (s.shares_complete ≡ true) × Stored ((2, some 20) ∷ later_messages) s
unfolding contains
all_shares_complete_example =
    all_shares_complete (2, some 20) later_messages reshare three_operators (pos 1700) (pos 1701)
      (refl, (refl, (refl, tt))) refl

abbrev shares_for : ℕ → List (Address × ℕ)
shares_for n = (1, n) ∷ (2, n) ∷ []

abbrev four_rounds : List (ℤ × List (Address × ℕ))
four_rounds =
    (pos 400, shares_for 4)
    ∷ (pos 300, shares_for 3)
    ∷ (pos 200, shares_for 2)
    ∷ (pos 100, shares_for 1)
    ∷ []
