-- ===== src/Types.antt =====
-- pkg/types/types.go: the data that the packages exchange. An address is the number that its 20
-- bytes spell, so that the byte order of addresses is the order of numbers; a point or a hash is
-- its bytes. A field element (`fr.Element` of gnark-crypto) is a value of the parameter `F`.
use eigenx_kms_go.Prelude.{ℕ, Bool, Option, List}
use eigenx_kms_go.Prelude.Int.{ℤ}

-- `common.Address`
abbrev pub Address : Type 0
Address = ℕ

-- `[32]byte`
abbrev pub Hash : Type 0
Hash = List ℕ

pub record G1Point : Type 0 where
  pub compressed_bytes : List ℕ

pub record G2Point : Type 0 where
  pub compressed_bytes : List ℕ

pub record KeyShareVersion (F : Type 0) : Type 0 where
  pub version : ℤ
  pub private_share : Option F
  pub commitments : List G2Point
  pub master_public_key : Option G2Point
  pub is_active : Bool
  pub participant_ids : List Address

pub record Acknowledgement : Type 0 where
  pub dealer_address : Address
  pub player_address : Address
  pub session_timestamp : ℤ
  pub share_hash : Hash
  pub commitment_hash : Hash
  pub signature : List ℕ

pub record CommitmentBroadcast : Type 0 where
  pub from_operator_address : Address
  pub session_timestamp : ℤ
  pub commitments : List G2Point
  pub acknowledgements : List Acknowledgement
  pub merkle_proof : List Hash
