-- ===== src/Crypto.antt =====
-- pkg/crypto/bls.go and the signing message of pkg/node/node.go: the byte strings that are hashed and
-- signed. SHA-256 and Keccak-256 are parameters from byte strings to 32-byte strings; an address has
-- 20 bytes and a timestamp 8.
pub mod Messages
use eigenx_kms_go.Prelude.{ℕ, suc, ◌+◌, ◌-◌, ◌%◌, ◌^◌, List, [], ◌∷◌, ◌++◌}
use eigenx_kms_go.Prelude.Int.{ℤ, pos, negsuc}
use eigenx_kms_go.Prelude.Bytes.{be_bytes}
use eigenx_kms_go.Types.{Address, Hash, G2Point, Acknowledgement}

-- `uint64(v)` of an int64: two's complement.
abbrev pub to_uint64 : ℤ → ℕ
to_uint64 (pos n) = n % 2 ^ 64
to_uint64 (negsuc n) = (2 ^ 64 - (suc n) % 2 ^ 64) % 2 ^ 64

-- `addr.Bytes()`
abbrev pub address_bytes : Address → List ℕ
address_bytes a = be_bytes 20 a

abbrev pub timestamp_bytes : ℤ → List ℕ
timestamp_bytes v = be_bytes 8 (to_uint64 v)

-- The successive `h.Write(c.CompressedBytes)`.
unfoldable pub commitment_bytes : List G2Point → List ℕ
commitment_bytes [] = []
commitment_bytes (c ∷ cs) = c.compressed_bytes ++ commitment_bytes cs

unfoldable pub hash_commitment : (List ℕ → Hash) → List G2Point → Hash
unfolding commitment_bytes
hash_commitment sha256 commitments = sha256 (commitment_bytes commitments)

unfoldable pub hash_reshare_commitment : (List ℕ → Hash) → List G2Point → ℤ → Hash
unfolding commitment_bytes be_bytes
hash_reshare_commitment sha256 commitments source_version =
    sha256 (commitment_bytes commitments ++ timestamp_bytes source_version)

unfoldable pub hash_acknowledgement_for_merkle : (List ℕ → Hash) → Acknowledgement → Hash
unfolding be_bytes
hash_acknowledgement_for_merkle keccak256 ack = keccak256 (
    address_bytes ack.player_address
    ++ (address_bytes ack.dealer_address
        ++ (timestamp_bytes ack.session_timestamp ++ (ack.share_hash ++ ack.commitment_hash))))

-- `share.Bytes()` of the field library is the parameter `share_bytes`.
unfoldable pub hash_share_for_ack : {F : Type 0} → (List ℕ → Hash) → (F → List ℕ) → F → Hash
hash_share_for_ack keccak256 share_bytes share = keccak256 (share_bytes share)

unfoldable pub build_acknowledgement_signing_message : Address → Address → ℤ → Hash → Hash → List ℕ
unfolding be_bytes
build_acknowledgement_signing_message dealer player epoch share_hash commitment_hash =
    address_bytes dealer
    ++ (address_bytes player ++ (timestamp_bytes epoch ++ (share_hash ++ commitment_hash)))

-- `signer` takes the dealer before the player.
unfoldable pub create_acknowledgement :
    {F : Type 0}
    → (List ℕ → Hash)
    → (List ℕ → Hash)
    → (F → List ℕ)
    → Address
    → Address
    → ℤ
    → F
    → List G2Point
    → (Address → Address → ℤ → Hash → Hash → List ℕ)
    → Acknowledgement
unfolding hash_share_for_ack hash_commitment
create_acknowledgement sha256 keccak256 share_bytes player dealer epoch share commitments signer =
    let commitment_hash = hash_commitment sha256 commitments in
    let share_hash = hash_share_for_ack keccak256 share_bytes share in
    record {
      dealer_address = dealer;
      player_address = player;
      session_timestamp = epoch;
      share_hash = share_hash;
      commitment_hash = commitment_hash;
      signature = signer dealer player epoch share_hash commitment_hash;
    }
