-- ===== src/Dealers/Agreed.antt =====
-- node.go, deriveAgreedDealerSet: the dealers of a round, read at a pinned height.
use eigenx_kms_go.Prelude.{
  ℕ, ◌≡◌, ◌≢◌, refl, ◌∙◌, true, false, ◌&&◌, Option, none, some, List, [], ◌∷◌, ◌++◌, ok, arith,
  All, Bool-cases, inl, inr, if◌then◌else◌, contains, nat_eq, ==_iff,
}
use eigenx_kms_go.Prelude.Maps.{lookup, insert, lookup-insert}
use eigenx_kms_go.Types.{Address, Hash}
use eigenx_kms_go.Peering.{OperatorSetPeer}
use eigenx_kms_go.Config.{ChainId}
use eigenx_kms_go.Dealers.{
  View, cutoff_attempts, Attempt, got, failed, retry, is_submitted, read_commitments, derive_for,
  expected_or_default, derive_agreed_dealer_set,
}

-- The attempts end in the value before the deadline and the end of the context.
abbrev pub Serves : {A : Type 0} → A → List (Attempt A) → Type 0
Serves v [] = ⊥
Serves v (got a ∷ ats) = a ≡ v
Serves v (failed true ∷ ats) = ⊥
Serves v (failed false ∷ ats) = Serves v ats

retry-Serves : {A : Type 0} (v : A) (ats : List (Attempt A)) → Serves v ats → retry ats ≡ ok v
unfolding retry
retry-Serves v [] h = absurd h
retry-Serves v (got a ∷ ats) h = rw h refl
retry-Serves v (failed true ∷ ats) h = absurd h
retry-Serves v (failed false ∷ ats) h = retry-Serves v ats h

-- What the registry holds for the dealers: those with a hash, in their order, and their hashes.
abbrev pub submitted_in : (Address → Hash) → List Address → List Address
submitted_in registry [] = []
submitted_in registry (d ∷ ds) =
    if is_submitted (registry d) then d ∷ submitted_in registry ds else submitted_in registry ds

abbrev with_hashes : (Address → Hash) → List Address → List (Address × Hash) → List (Address × Hash)
with_hashes registry [] m = m
with_hashes registry (d ∷ ds) m =
    with_hashes registry ds (if is_submitted (registry d) then insert d (registry d) m else m)

abbrev AllServe : (Address → Hash) → (Address → List (Attempt Hash)) → List Address → Type 0
AllServe registry reads ds = All (λ d. Serves (registry d) (reads d)) ds

append_one : (xs ys : List Address) (d : Address) → (xs ++ (d ∷ [])) ++ ys ≡ xs ++ (d ∷ ys)
append_one [] ys d = refl
append_one (x ∷ xs) ys d = rw (append_one xs ys d) refl

append_none : (xs : List Address) → xs ++ [] ≡ xs
append_none [] = refl
append_none (x ∷ xs) = rw (append_none xs) refl

read_commitments-Serves :
    (registry : Address → Hash) (reads : Address → List (Attempt Hash)) (ds s : List Address)
    (m : List (Address × Hash))
    → AllServe registry reads ds
    → read_commitments reads ds (s, m)
      ≡ ok (s ++ submitted_in registry ds, with_hashes registry ds m)
unfolding read_commitments
read_commitments-Serves registry reads [] s m h = rw (append_none s) refl
read_commitments-Serves registry reads (d ∷ ds) s m h =
    elim (Bool-cases (is_submitted (registry d))) [
      | inl y ↦ rw (retry-Serves (registry d) (reads d) h.0) (
          rw y (
            read_commitments-Serves registry reads ds (s ++ (d ∷ [])) (insert d (registry d) m) h.1
            ∙ rw (append_one s (submitted_in registry ds) d) refl))
      | inr n ↦
          rw (retry-Serves (registry d) (reads d) h.0)
            (rw n (read_commitments-Serves registry reads ds s m h.1))
    ]

lookup-with_hashes :
    (registry : Address → Hash) (ds : List Address) (m : List (Address × Hash)) (d : Address)
    → lookup d (with_hashes registry ds m)
      ≡ (if contains ds d && is_submitted (registry d) then some (registry d) else lookup d m)
unfolding contains
lookup-with_hashes registry [] m d = refl
lookup-with_hashes registry (a ∷ ds) m d = elim (Bool-cases (is_submitted (registry a))) [
  | inl y ↦ rw y (
      lookup-with_hashes registry ds (insert a (registry a) m) d
      ∙ ground (arith, lookup-insert a d (registry a) m, ==_iff a d, y))
  | inr n ↦ rw n (lookup-with_hashes registry ds m d ∙ ground (arith, ==_iff a d, n))
]

-- If there are expected dealers, the height is resolved, and every expected dealer is read, all
-- before the deadline and while the context lasts, the round has the expected dealers with a hash
-- in the registry, in their order, and the map holds the hash of exactly these.
pub derive_agreed_dealer_set-submitted :
    (k : ℕ) (registry : Address → Hash) (chain : ChainId) (trigger : ℕ) (views : List View)
    (reads : ℕ → Address → List (Attempt Hash)) (participants : Option (List Address))
    (ops : List OperatorSetPeer) (expected : Option (List Address))
    → let ds = expected_or_default expected participants ops in
      ds ≢ []
      → Serves k (cutoff_attempts chain trigger views)
      → All (λ d. Serves (registry d) (reads k d)) ds
      → (hashes : List (Address × Hash)) × (derive_agreed_dealer_set chain trigger views reads
            participants ops expected
          ≡ ok (submitted_in registry ds, hashes))
        × ((d : Address)
            → lookup d hashes
              ≡ (if contains ds d && is_submitted (registry d) then some (registry d) else none))
unfolding derive_agreed_dealer_set derive_for
derive_agreed_dealer_set-submitted k registry chain trigger views reads participants ops expected ne
      c h =
    (
      with_hashes registry ds [],
      derived ds ne h,
      λ d. unfold lookup in lookup-with_hashes registry ds [] d,
    )
  where
    ds : List Address
    ds = expected_or_default expected participants ops

    derived :
        (ds : List Address)
        → ds ≢ []
        → All (λ d. Serves (registry d) (reads k d)) ds
        → derive_for (cutoff_attempts chain trigger views) reads ds
          ≡ ok (submitted_in registry ds, with_hashes registry ds [])
    derived [] ne h = absurd (ne refl)
    derived (d ∷ ds) ne h =
        rw (retry-Serves k (cutoff_attempts chain trigger views) c)
          (read_commitments-Serves registry (reads k) (d ∷ ds) [] [] h)
