-- ===== src/Reshare/Count.antt =====
-- reshare.go, SelectMajoritySourceVersion: the winner against a count of the dealers.
use eigenx_kms_go.Prelude.{
  ℕ, zero, suc, ◌+◌, ◌≤◌, ◌<◌, ◌≡◌, refl, sym, ◌∙◌, ◌⊎◌, ◌≢◌, inl, inr, true, false, Option, List,
  [], ◌∷◌, Result, ok, err, arith, Bool-cases, true_and_false, subst, ltb, length, tests, ◌*◌,
}
use eigenx_kms_go.Prelude.Int.{ℤ, eqb_ℤ, eqb_ℤ_iff, pos}
use eigenx_kms_go.Types.{Address}
use eigenx_kms_go.Reshare.{
  version_of, tally, best_of, on_version, SelectError, no_dealers, too_few, keep_if_enough,
  select_majority_source_version,
}
use eigenx_kms_go.Reshare.Majority.{NoBetter, IsOrder}
use eigenx_kms_go.Reshare.Tally.{count_on, winner-NoBetter, winner-count}

-- What a selection owes. With a result: the dealers on a version that is known, that enough of them
-- dealt from, and that no known version beats by its count or, at the same count, by being higher. With
-- an error: there are no dealers, or no known version has enough of them.
abbrev pub Selects :
    (Address → Option ℤ) → List Address → ℕ → Result SelectError (List Address × ℤ) → Type 0
Selects versions ds threshold (ok (kept, w)) =
    (kept ≡ on_version versions w ds)
    × (w ≢ pos 0)
    × (threshold ≤ count_on versions w ds)
    × ((v : ℤ) → (v ≡ pos 0) ⊎ NoBetter (v, count_on versions v ds) (w, count_on versions w ds))
Selects versions ds threshold (err no_dealers) = ds ≡ []
Selects versions ds threshold (err (too_few c t)) =
    (t ≡ threshold) × ((v : ℤ) → (v ≡ pos 0) ⊎ (count_on versions v ds < threshold))

zero_or_not : (n : ℕ) → (n ≡ 0) ⊎ (n ≢ 0)
zero_or_not zero = inl refl
zero_or_not (suc n) = inr (λ e. absurd (omega arith))

module _ (versions : Address → Option ℤ) (ds : List Address) (threshold : ℕ)
    (positive : 0 < threshold) where
  is_zero : (v : ℤ) → (v ≡ pos 0) ⊎ (v ≢ pos 0)
  is_zero v = elim (Bool-cases (eqb_ℤ v (pos 0))) [
    | inl y ↦ inl ((eqb_ℤ_iff _ _).0 y)
    | inr n ↦ inr (λ e. true_and_false ((eqb_ℤ_iff _ _).1 e) n)
  ]

  keep-Selects :
      (w : ℤ × ℕ)
      → ((v : ℤ) → v ≢ pos 0 → count_on versions v ds ≢ 0 → NoBetter (v, count_on versions v ds) w)
      → (w.1 ≡ 0) ⊎ ((w.0 ≢ pos 0) × (w.1 ≡ count_on versions w.0 ds))
      → Selects versions ds threshold (keep_if_enough versions ds threshold w)
  keep-Selects (w, c) best known = elim (Bool-cases (ltb c threshold)) [
    | inl y ↦ rw y (refl, λ v. few v y)
    | inr n ↦ rw n (enough n known)
  ]
    where
      below :
          (v : ℤ)
          → v ≢ pos 0
          → ltb c threshold ≡ true
          → (count_on versions v ds ≡ 0) ⊎ (count_on versions v ds ≢ 0)
          → count_on versions v ds < threshold
      below v ne y (inl z) = omega arith
      below v ne y (inr occurs) = omega (tests, best v ne occurs)

      few : (v : ℤ) → ltb c threshold ≡ true → (v ≡ pos 0) ⊎ (count_on versions v ds < threshold)
      few v y = elim (is_zero v) [
        | inl z ↦ inl z
        | inr ne ↦ inr (below v ne y (zero_or_not (count_on versions v ds)))
      ]

      at_least : ltb c threshold ≡ false → threshold ≤ c
      at_least n = ground arith

      beaten :
          (v : ℤ)
          → threshold ≤ c
          → v ≢ pos 0
          → (count_on versions v ds ≡ 0) ⊎ (count_on versions v ds ≢ 0)
          → NoBetter (v, count_on versions v ds) (w, c)
      beaten v n ne (inl z) = inl (omega arith)
      beaten v n ne (inr occurs) = best v ne occurs

      unbeaten : (v : ℤ) → threshold ≤ c → (v ≡ pos 0) ⊎ NoBetter (v, count_on versions v ds) (w, c)
      unbeaten v n = elim (is_zero v) [
        | inl z ↦ inl z
        | inr ne ↦ inr (beaten v n ne (zero_or_not (count_on versions v ds)))
      ]

      enough :
          ltb c threshold ≡ false
          → (c ≡ 0) ⊎ ((w ≢ pos 0) × (c ≡ count_on versions w ds))
          → Selects versions ds threshold (ok (on_version versions w ds, w))
      enough n (inl z) = absurd (omega (arith, at_least n))
      enough n (inr (ne, e)) = (
        refl,
        ne,
        omega (arith, at_least n),
        λ v.
            subst (λ k. (v ≡ pos 0) ⊎ NoBetter (v, count_on versions v ds) (w, k)) e
              (unbeaten v (at_least n)),
      )

-- The selection by its result. A success keeps, in their order, the dealers on one known version that
-- at least `threshold` dealers dealt from; no known version has more dealers, nor as many and a higher
-- number. It fails only if there are no dealers or no known version has `threshold` dealers. This
-- holds for a positive threshold, in whatever order the tally is visited.
pub select_majority_source_version-Selects :
    (shuffle : List (ℤ × ℕ) → List (ℤ × ℕ)) (ds : List Address) (versions : Address → Option ℤ)
    (threshold : ℕ)
    → IsOrder shuffle
    → 0 < threshold
    → Selects versions ds threshold (select_majority_source_version shuffle ds versions threshold)
unfolding select_majority_source_version
select_majority_source_version-Selects shuffle [] versions threshold order positive = refl
select_majority_source_version-Selects shuffle (d ∷ ds) versions threshold order positive =
    keep-Selects versions (d ∷ ds) threshold positive
      (best_of (shuffle (tally versions (d ∷ ds) [])) (pos 0, 0))
      (winner-NoBetter versions (d ∷ ds) shuffle order)
      (winner-count versions (d ∷ ds) shuffle order)

count_two :
    (versions : Address → Option ℤ) (v w : ℤ) (ds : List Address)
    → v ≢ w
    → count_on versions v ds + count_on versions w ds ≤ length ds
unfolding count_on
count_two versions v w [] ne = omega arith
count_two versions v w (d ∷ ds) ne = ground (
  arith,
  count_two versions v w ds ne,
  eqb_ℤ_iff (version_of versions d) v,
  eqb_ℤ_iff (version_of versions d) w,
  λ (e : version_of versions d ≡ v) (f : version_of versions d ≡ w). ne (sym e ∙ f),
)

-- If the threshold is more than half of the dealers, a successful selection is on the only version
-- that enough of them dealt from: every version with `threshold` dealers is the selected one.
pub select_majority_source_version_unique :
    (shuffle : List (ℤ × ℕ) → List (ℤ × ℕ)) (ds kept : List Address) (versions : Address → Option ℤ)
    (threshold : ℕ) (w v : ℤ)
    → IsOrder shuffle
    → length ds < 2 * threshold
    → select_majority_source_version shuffle ds versions threshold ≡ ok (kept, w)
    → threshold ≤ count_on versions v ds
    → v ≡ w
select_majority_source_version_unique shuffle ds kept versions threshold w v order half e n =
    elim (Bool-cases (eqb_ℤ v w)) [
      | inl y ↦ (eqb_ℤ_iff v w).0 y
      | inr d ↦ absurd (
          omega (
            arith,
            count_two versions v w ds (λ s. true_and_false ((eqb_ℤ_iff v w).1 s) d),
            (subst (Selects versions ds threshold) e (
                select_majority_source_version-Selects shuffle ds versions threshold order
                  (omega arith))).2,
          ))
    ]
