-- ===== src/AutoHeal/Target.antt =====
-- autoheal.go: which version a rollback goes to.
use eigenx_kms_go.Prelude.{
  ◌≡◌, refl, ◌⊎◌, inl, inr, Bool, true, false, ◌&&◌, Option, none, some, List, [], ◌∷◌, arith, All,
  All-map_of, Memᴰ, Bool-cases, subst, sym,
}
use eigenx_kms_go.Prelude.Int.{ℤ, ◌≤ℤ◌, ◌<ℤ◌, ltb_ℤ, pos}
use eigenx_kms_go.Prelude.Sorting.{sort, sort-IsSorted, IsSorted, All-sort, Memᴰ-sort}
use eigenx_kms_go.AutoHeal.{is_candidate, first_candidate, rollback_target}

abbrev later_first : ℤ → ℤ → Bool
later_first a b = ltb_ℤ b a

first_candidate-Memᴰ :
    (bad : ℤ) (is_bad : ℤ → Bool) (vs : List ℤ) (t : ℤ)
    → first_candidate bad is_bad vs ≡ some t
    → Memᴰ t vs × (is_candidate bad is_bad t ≡ true)
unfolding first_candidate
first_candidate-Memᴰ bad is_bad [] t e = cc
first_candidate-Memᴰ bad is_bad (v ∷ vs) t e = elim (Bool-cases (is_candidate bad is_bad v)) [
  | inl y ↦
      let s : v ≡ t = ground arith in
      (Memᴰ.head (sym s), subst (λ x. is_candidate bad is_bad x ≡ true) s y)
  | inr n ↦ let r = first_candidate-Memᴰ bad is_bad vs t (ground arith) in (Memᴰ.tail r.0, r.1)
]

first_candidate-none :
    (bad : ℤ) (is_bad : ℤ → Bool) (vs : List ℤ)
    → first_candidate bad is_bad vs ≡ none
    → All (λ v. is_candidate bad is_bad v ≡ false) vs
unfolding first_candidate
first_candidate-none bad is_bad [] e = tt
first_candidate-none bad is_bad (v ∷ vs) e =
    (ground arith, first_candidate-none bad is_bad vs (ground arith))

-- In a list that falls, the first candidate is the greatest.
first_candidate-greatest :
    (bad : ℤ) (is_bad : ℤ → Bool) (vs : List ℤ) (t : ℤ)
    → IsSorted later_first vs
    → first_candidate bad is_bad vs ≡ some t
    → All (λ v. (is_candidate bad is_bad v ≡ false) ⊎ (v ≤ℤ t)) vs
unfolding first_candidate
first_candidate-greatest bad is_bad [] t s e = tt
first_candidate-greatest bad is_bad (v ∷ vs) t s e = elim (Bool-cases (is_candidate bad is_bad v)) [
  | inl y ↦
      let same : v ≡ t = ground arith in
      subst (λ x. All (λ w. (is_candidate bad is_bad w ≡ false) ⊎ (w ≤ℤ x)) (v ∷ vs)) same
        (
          inr (omega arith),
          All-map_of (λ w. later_first w v ≡ false)
              (λ w. (is_candidate bad is_bad w ≡ false) ⊎ (w ≤ℤ v)) (λ w h. inr (ground arith)) vs
              s.0,
        )
  | inr n ↦ (inl n, first_candidate-greatest bad is_bad vs t s.1 (ground arith))
]

-- A target that a rollback may go to: below the poisoned version and not poisoned. It is the
-- last-known-good version if that one may be gone to, and else the greatest such persisted version.
abbrev pub Chooses : ℤ → ℤ → List ℤ → (ℤ → Bool) → Option ℤ → Type 0
Chooses lkg bad persisted is_bad (some t) =
    (t <ℤ bad)
    × (is_bad t ≡ false)
    × (((t ≡ lkg) × (pos 0 <ℤ lkg))
        ⊎ (((ltb_ℤ (pos 0) lkg && is_candidate bad is_bad lkg) ≡ false)
            × Memᴰ t persisted
            × All (λ v. (is_candidate bad is_bad v ≡ false) ⊎ (v ≤ℤ t)) persisted))
Chooses lkg bad persisted is_bad none =
    ((ltb_ℤ (pos 0) lkg && is_candidate bad is_bad lkg) ≡ false)
    × All (λ v. is_candidate bad is_bad v ≡ false) persisted

descending : (vs : List ℤ) → IsSorted later_first (sort later_first vs)
descending vs = sort-IsSorted later_first (λ x y h. ground arith) (λ x y z h k. ground arith) vs

walk_back-Chooses :
    (lkg bad : ℤ) (persisted : List ℤ) (is_bad : ℤ → Bool) (r : Option ℤ)
    → (ltb_ℤ (pos 0) lkg && is_candidate bad is_bad lkg) ≡ false
    → first_candidate bad is_bad (sort later_first persisted) ≡ r
    → Chooses lkg bad persisted is_bad r
walk_back-Chooses lkg bad persisted is_bad none n e = (
  n,
  All-sort later_first (λ v. is_candidate bad is_bad v ≡ false) persisted
      (first_candidate-none bad is_bad (sort later_first persisted) e),
)
walk_back-Chooses lkg bad persisted is_bad (some t) n e =
    let (m, c) = first_candidate-Memᴰ bad is_bad (sort later_first persisted) t e in
    (
      ground arith,
      ground arith,
      inr (
        n,
        Memᴰ-sort later_first t persisted m,
        All-sort later_first (λ v. (is_candidate bad is_bad v ≡ false) ⊎ (v ≤ℤ t)) persisted
            (first_candidate-greatest bad is_bad (sort later_first persisted) t
              (descending persisted) e),
      ),
    )

-- The rollback target is below the poisoned version and not poisoned. It is the last-known-good version
-- if that is positive, below the poisoned version and not poisoned; else it is a persisted version,
-- and no persisted version below the poisoned one that is not poisoned is greater. There is no
-- target only if the last-known-good version is unusable and no persisted version will do.
pub rollback_target-Chooses :
    (lkg bad : ℤ) (persisted : List ℤ) (is_bad : ℤ → Bool)
    → Chooses lkg bad persisted is_bad (rollback_target lkg bad persisted is_bad)
unfolding rollback_target
rollback_target-Chooses lkg bad persisted is_bad =
    elim (Bool-cases (ltb_ℤ (pos 0) lkg && is_candidate bad is_bad lkg)) [
      | inl y ↦ rw (y, rollback_target) (ground arith, ground arith, inl (refl, ground arith))
      | inr n ↦
          rw (n, rollback_target)
            (walk_back-Chooses lkg bad persisted is_bad
              (first_candidate bad is_bad (sort later_first persisted)) n refl)
    ]
