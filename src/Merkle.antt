-- ===== src/Merkle.antt =====
-- pkg/merkle/merkle.go: the merkle tree of the acknowledgements of a session. The tree itself is that
-- of go-merkletree, the record `Trees`.
pub mod Ordered
use eigenx_kms_go.Prelude.{
  ℕ, Option, none, some, List, [], ◌∷◌, map, Bool, false, Result, ok, err, ◌>>=◌, or_error,
  get_elem?, length, ltb,
}
use eigenx_kms_go.Prelude.Sorting.{sort}
use eigenx_kms_go.Types.{Hash, Acknowledgement}
use eigenx_kms_go.Crypto.{hash_acknowledgement_for_merkle}

-- `NewUsing`, `Root`, `GenerateProof` and `VerifyProofUsing` with Keccak-256; `S` is its trees.
pub record Trees {ℓ} (S : Type ℓ) : Type ℓ where
  pub new_using : List Hash → Option S
  pub root : S → Hash
  pub generate_proof : S → Hash → Option (List Hash)
  pub verify_proof_using : Hash → List Hash → ℕ → Hash → Option Bool

pub record MerkleTree {ℓ} (S : Type ℓ) : Type ℓ where
  pub leaves : List Hash
  pub root : Hash
  pub internal_tree : S

pub record MerkleProof : Type 0 where
  pub leaf_index : ℕ
  pub leaf : Hash
  pub proof : List Hash

pub data MerkleError : Type 0 where
  no_acknowledgements build_failed : MerkleError
  out_of_bounds : ℕ → ℕ → MerkleError
  proof_failed : MerkleError

-- An address is the number that its bytes spell, so the first byte that differs decides.
abbrev pub before : Acknowledgement → Acknowledgement → Bool
before a b = ltb a.player_address b.player_address

unfoldable pub sort_acknowledgements : List Acknowledgement → List Acknowledgement
unfolding sort
sort_acknowledgements acks = sort before acks

module _ {ℓ} {S : Type ℓ} (trees : Trees S) (keccak256 : List ℕ → Hash) where
  abbrev pub leaf_hashes : List Acknowledgement → List Hash
  leaf_hashes acks = map (hash_acknowledgement_for_merkle keccak256) acks

  unfoldable pub build_merkle_tree : List Acknowledgement → Result MerkleError (MerkleTree S)
  unfolding sort_acknowledgements
  build_merkle_tree [] = err no_acknowledgements
  build_merkle_tree (a ∷ acks) =
      let leaves = leaf_hashes (sort_acknowledgements (a ∷ acks)) in
      or_error build_failed (trees.new_using leaves) >>= λ tree.
      ok (record { leaves = leaves; root = trees.root tree; internal_tree = tree })

  unfoldable pub generate_proof : MerkleTree S → ℕ → Result MerkleError MerkleProof
  generate_proof tree leaf_index =
      or_error (out_of_bounds leaf_index (length tree.leaves)) (get_elem? tree.leaves leaf_index)
      >>= λ leaf. or_error proof_failed (trees.generate_proof tree.internal_tree leaf) >>= λ proof.
          ok (record { leaf_index = leaf_index; leaf = leaf; proof = proof })

  abbrev pub or_false : Option Bool → Bool
  or_false none = false
  or_false (some b) = b

  unfoldable pub verify_proof : Option MerkleProof → Hash → Bool
  verify_proof none root = false
  verify_proof (some p) root = or_false (trees.verify_proof_using p.leaf p.proof p.leaf_index root)
