-- ===== src/Session/Waits.antt =====
-- pkg/node/node.go: the waits of a session. A wait polls a count until it is enough or the time runs
-- out: `polls` are the counts that its ticks see, and `last` the one when the time is out. Negative
-- bounds on a count act as zero does.
use eigenx_kms_go.Prelude.{
  ℕ, ◌-◌, ◌≤◌, ◌≡◌, ◌⊎◌, ◌↔◌, Option, none, some, List, [], ◌∷◌, Result, ok, err, arith, leb, ltb,
  ◌==◌, if◌then◌else◌, length,
}
use eigenx_kms_go.Prelude.Int.{ℤ, pos_part}
use eigenx_kms_go.Peering.{OperatorSetPeer}
use eigenx_kms_go.Reshare.{calculate_threshold}
use eigenx_kms_go.Session.{dkg, reshare, ProtocolSession}

pub data WaitError : Type 0 where
  timeout : ℕ → ℕ → WaitError
  no_session : WaitError

unfoldable pub poll : ℕ → List ℕ → ℕ → Result WaitError (Unit {0})
poll required [] last = err (timeout last required)
poll required (c ∷ cs) last = if leb required c then ok tt else poll required cs last

abbrev pub clamp : ℤ → ℕ → ℕ
clamp required most = if ltb most (pos_part required) then most else pos_part required

unfoldable pub wait_for_n : List OperatorSetPeer → ℤ → List ℕ → ℕ → Result WaitError (Unit {0})
unfolding poll
wait_for_n ops required polls last =
    if clamp required (length ops) == 0
    then ok tt
    else poll (clamp required (length ops)) polls last

-- This wait has no early return for zero: it needs one tick.
unfoldable pub wait_for_acks : List OperatorSetPeer → ℤ → List ℕ → ℕ → Result WaitError (Unit {0})
unfolding poll
wait_for_acks ops required polls last = poll (clamp required (length ops - 1)) polls last

abbrev pub min : ℕ → ℕ → ℕ
min a b = if ltb b a then b else a

unfoldable pub expected_verifications : {F : Type 0} → ProtocolSession F → ℕ
unfolding calculate_threshold
expected_verifications s = elim s.type [
  | dkg ↦ length s.operators - 1
  | reshare ↦ min (calculate_threshold (length s.operators) - 1) (length s.shares - 1)
]

unfoldable pub wait_for_verifications :
    {F : Type 0} → Option (ProtocolSession F) → List ℕ → ℕ → Result WaitError (Unit {0})
unfolding poll expected_verifications
wait_for_verifications none polls last = err no_session
wait_for_verifications (some s) polls last = poll (expected_verifications s) polls last

-- Some tick sees at least the count.
abbrev pub Reaches : ℕ → List ℕ → Type 0
Reaches required [] = ⊥
Reaches required (c ∷ cs) = (required ≤ c) ⊎ Reaches required cs

poll-Reaches :
    (required : ℕ) (polls : List ℕ) (last : ℕ)
    → (poll required polls last ≡ ok tt) ↔ Reaches required polls
unfolding poll
poll-Reaches required [] last = (λ e. cc, λ h. absurd h)
poll-Reaches required (c ∷ cs) last = ground (arith, poll-Reaches required cs last)

-- A wait for shares or commitments succeeds exactly if it requires none, or some tick sees as many as
-- are required, where more than one for each operator is never required.
pub wait_for_n-Reaches :
    (ops : List OperatorSetPeer) (required : ℤ) (polls : List ℕ) (last : ℕ)
    → (wait_for_n ops required polls last ≡ ok tt)
      ↔ ((clamp required (length ops) ≡ 0) ⊎ Reaches (clamp required (length ops)) polls)
unfolding wait_for_n
wait_for_n-Reaches ops required polls last =
    ground (arith, poll-Reaches (clamp required (length ops)) polls last)
