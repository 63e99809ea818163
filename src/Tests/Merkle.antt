-- ===== src/Tests/Merkle.antt =====
-- The merkle tree of two acknowledgements that came in either order.
use mathlib.Core.List.Permᴰ
use eigenx_kms_go.Prelude.{ℕ, ◌≡◌, refl, List, [], ◌∷◌, some, true, arith}
use eigenx_kms_go.Prelude.Int.{pos}
use eigenx_kms_go.Types.{Hash, Acknowledgement}
use eigenx_kms_go.Merkle.{Trees, build_merkle_tree}
use eigenx_kms_go.Merkle.Ordered.{build_merkle_tree-perm}

abbrev ack_of : ℕ → Acknowledgement
ack_of player = record {
  dealer_address = 2;
  player_address = player;
  session_timestamp = pos 1700;
  share_hash = player ∷ [];
  commitment_hash = [];
  signature = [];
}

abbrev first_leaf : List Hash → Hash
first_leaf [] = []
first_leaf (leaf ∷ leaves) = leaf

abbrev leaf_trees : Trees (List Hash)
leaf_trees = record {
  new_using = some;
  root = first_leaf;
  generate_proof = λ leaves leaf. some leaves;
  verify_proof_using = λ leaf proof index root. some true;
}

build_merkle_tree-perm_example :
    build_merkle_tree leaf_trees (λ bytes. bytes) (ack_of 4 ∷ ack_of 3 ∷ [])
    ≡ build_merkle_tree leaf_trees (λ bytes. bytes) (ack_of 3 ∷ ack_of 4 ∷ [])
build_merkle_tree-perm_example =
    build_merkle_tree-perm leaf_trees (λ bytes. bytes) (ack_of 4 ∷ ack_of 3 ∷ [])
      (ack_of 3 ∷ ack_of 4 ∷ []) (Permᴰ.swap refl refl)
      (
        ((λ e. refl), ((λ e. absurd (omega arith)), tt)),
        (((λ e. absurd (omega arith)), ((λ e. refl), tt)), tt),
      )
