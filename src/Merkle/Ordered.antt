-- ===== src/Merkle/Ordered.antt =====
-- The order of the acknowledgements in the tree of pkg/merkle/merkle.go.
use eigenx_kms_go.Prelude.{
  ℕ, ◌≡◌, refl, sym, ◌∙◌, inl, inr, List, [], ◌∷◌, All, All-perm, Bool-cases, ltb→lt, arith, ◌<◌,
}
use mathlib.Core.List.{Permᴰ}
use mathlib.Core.List.Permᴰ
use eigenx_kms_go.Prelude.Sorting.{sort, insert_sorted}
use eigenx_kms_go.Types.{Hash, Acknowledgement}
use eigenx_kms_go.Merkle.{Trees, before, sort_acknowledgements, build_merkle_tree}

-- A player has one acknowledgement.
abbrev pub Agree : Acknowledgement → Acknowledgement → Type 0
Agree a b = a.player_address ≡ b.player_address → a ≡ b

abbrev pub IsOnePerPlayer : List Acknowledgement → Type 0
IsOnePerPlayer acks = All (λ a. All (Agree a) acks) acks

insert_twice :
    (a b : Acknowledgement) (acks : List Acknowledgement)
    → (a.player_address < b.player_address)
    → insert_sorted before a (insert_sorted before b acks)
      ≡ insert_sorted before b (insert_sorted before a acks)
unfolding insert_sorted
insert_twice a b [] h = ground arith
insert_twice a b (c ∷ acks) h = let ih = insert_twice a b acks h in ground arith

insert_two :
    (a b : Acknowledgement) (acks : List Acknowledgement)
    → Agree a b
    → insert_sorted before a (insert_sorted before b acks)
      ≡ insert_sorted before b (insert_sorted before a acks)
insert_two a b acks agree = elim (Bool-cases (before a b)) [
  | inl l ↦ insert_twice a b acks (ltb→lt a.player_address b.player_address l)
  | inr n ↦ elim (Bool-cases (before b a)) [
    | inl l ↦ sym (insert_twice b a acks (ltb→lt b.player_address a.player_address l))
    | inr n' ↦ rw (agree (ground arith)) refl
  ]
]

Agree-tail :
    (a : Acknowledgement) (acks others : List Acknowledgement)
    → All (λ b. All (Agree b) (a ∷ acks)) others
    → All (λ b. All (Agree b) acks) others
Agree-tail a acks [] h = tt
Agree-tail a acks (b ∷ others) h = (h.0.1, Agree-tail a acks others h.1)

IsOnePerPlayer-perm :
    {xs ys : List Acknowledgement} → Permᴰ xs ys → IsOnePerPlayer xs → IsOnePerPlayer ys
IsOnePerPlayer-perm {xs} {ys} p h =
    All-perm (λ a. All (Agree a) ys) p (widen xs xs ys (λ a. All-perm (Agree a) p) h)
  where
    widen :
        (zs xs ys : List Acknowledgement)
        → ((a : Acknowledgement) → All (Agree a) xs → All (Agree a) ys)
        → All (λ a. All (Agree a) xs) zs
        → All (λ a. All (Agree a) ys) zs
    widen [] xs ys f h = tt
    widen (z ∷ zs) xs ys f h = (f z h.0, widen zs xs ys f h.1)

sort-perm_agree :
    {xs ys : List Acknowledgement}
    → Permᴰ xs ys
    → IsOnePerPlayer xs
    → sort before xs ≡ sort before ys
unfolding sort
sort-perm_agree Permᴰ.nil h = refl
sort-perm_agree (Permᴰ.cons {a} {b} {l₁ = xs} {l₂ = ys} e p) h =
    rw (e, sort-perm_agree p (Agree-tail a xs xs h.1)) refl
sort-perm_agree (Permᴰ.swap {a} {b} {a'} {b'} {l = xs} e d) h =
    insert_two a b (sort before xs) h.0.1.0 ∙ rw (e, d) refl
sort-perm_agree (Permᴰ.trans p q) h =
    sort-perm_agree p h ∙ sort-perm_agree q (IsOnePerPlayer-perm p h)

module _ {ℓ} {S : Type ℓ} (trees : Trees S) (keccak256 : List ℕ → Hash) where
  -- Two operators that collected the same acknowledgements, at most one of each player, in whatever
  -- order they came, build the same merkle tree, with the same root and the same leaves.
  pub build_merkle_tree-perm :
      (acks others : List Acknowledgement)
      → Permᴰ acks others
      → IsOnePerPlayer acks
      → build_merkle_tree trees keccak256 acks ≡ build_merkle_tree trees keccak256 others
  unfolding build_merkle_tree sort_acknowledgements
  build_merkle_tree-perm [] [] p h = refl
  build_merkle_tree-perm [] (b ∷ others) p h = absurd (All-perm (λ c. ⊥) p tt).0
  build_merkle_tree-perm (a ∷ acks) [] p h = absurd (All-perm (λ c. ⊥) (Permᴰ.symm p) tt).0
  build_merkle_tree-perm (a ∷ acks) (b ∷ others) p h = rw (sort-perm_agree p h) refl
