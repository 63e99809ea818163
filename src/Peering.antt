-- ===== src/Peering.antt =====
-- pkg/peering/peering.go and the curve types of pkg/config/config.go. The public key of an operator is
-- a value of the signature libraries and stands in no decision that is modelled here.
use eigenx_kms_go.Prelude.{ℕ, List, map}
use eigenx_kms_go.Types.{Address}

pub data CurveType : Type 0 where
  unknown_curve ecdsa bn254 : CurveType

pub record OperatorSetPeer : Type 0 where
  pub operator_address : Address
  pub socket_address : List ℕ
  pub curve_type : CurveType

abbrev pub addresses : List OperatorSetPeer → List Address
addresses ops = map (λ op. op.operator_address) ops
