-- ===== src/Tests/Crypto.antt =====
-- The hashed and signed byte strings at concrete fields; the identity stands for the hash.
use eigenx_kms_go.Prelude.{ℕ, ◌≡◌, refl, List, [], ◌∷◌, replicate, arith}
use eigenx_kms_go.Prelude.Int.{pos}
use eigenx_kms_go.Types.{Address, G2Point}
use eigenx_kms_go.Crypto.Messages.{build_acknowledgement_signing_message-injective}

abbrev points : List G2Point
points = (record { compressed_bytes = 1 ∷ 2 ∷ [] }) ∷ (record { compressed_bytes = 3 ∷ [] }) ∷ []

build_acknowledgement_signing_message-injective_example :
    ◌≡◌ {A = Address} 21 21
    × ◌≡◌ {A = Address} 22 22
    × (pos 5 ≡ pos 5)
    × ◌≡◌ {A = List ℕ} (replicate 32 1) (replicate 32 1)
    × ◌≡◌ {A = List ℕ} (replicate 32 2) (replicate 32 2)
build_acknowledgement_signing_message-injective_example =
    build_acknowledgement_signing_message-injective 21 21 22 22 (pos 5) (pos 5) (replicate 32 1)
      (replicate 32 1) (replicate 32 2) (replicate 32 2) (omega arith) (omega arith) (omega arith)
      (omega arith) (omega arith) (omega arith) refl refl refl
