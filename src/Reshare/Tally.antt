-- ===== src/Reshare/Tally.antt =====
-- reshare.go, SelectMajoritySourceVersion: the tally against a count of the dealers.
use eigenx_kms_go.Prelude.{
  ℕ, suc, ◌+◌, ◌≡◌, refl, sym, ap, ◌∙◌, ◌⊎◌, ◌≢◌, inl, inr, false, Option, List, [], ◌∷◌, arith,
  Bool-cases, true_and_false, subst, if◌then◌else◌, Memᴰ, All, All-Memᴰ,
}
use eigenx_kms_go.Prelude.Int.{ℤ, eqb_ℤ, eqb_ℤ_iff, pos}
use eigenx_kms_go.Types.{Address}
use eigenx_kms_go.Reshare.{version_of, bump, tally, best_of}
use eigenx_kms_go.Reshare.Majority.{NoBetter, IsOrder, best_of-NoBetter-All, best_of_origin}

-- How many of the dealers dealt from `v`.
unfoldable pub count_on : (Address → Option ℤ) → ℤ → List Address → ℕ
count_on versions v [] = 0
count_on versions v (d ∷ ds) =
    if eqb_ℤ (version_of versions d) v then suc (count_on versions v ds) else count_on versions v ds

-- The entry of `v`, which is 0 where there is none.
entry : ℤ → List (ℤ × ℕ) → ℕ
entry v [] = 0
entry v ((w, c) ∷ m) = if eqb_ℤ w v then c else entry v m

entry-bump :
    (v w : ℤ) (m : List (ℤ × ℕ))
    → entry v (bump w m) ≡ (if eqb_ℤ w v then suc (entry v m) else entry v m)
unfolding entry bump
entry-bump v w [] = ground arith
entry-bump v w ((u, c) ∷ m) =
    ground (arith, eqb_ℤ_iff w v, eqb_ℤ_iff u w, eqb_ℤ_iff u v, entry-bump v w m)

eqb_of_ne : (a b : ℤ) → a ≢ b → eqb_ℤ a b ≡ false
eqb_of_ne a b ne = elim (Bool-cases (eqb_ℤ a b)) [
  | inl y ↦ absurd (ne ((eqb_ℤ_iff a b).0 y))
  | inr n ↦ n
]

entry-tally :
    (versions : Address → Option ℤ) (v : ℤ) (ds : List Address) (m : List (ℤ × ℕ))
    → v ≢ pos 0
    → entry v (tally versions ds m) ≡ entry v m + count_on versions v ds
unfolding tally count_on
entry-tally versions v [] m ne = omega arith
entry-tally versions v (d ∷ ds) m ne = elim (Bool-cases (eqb_ℤ (version_of versions d) (pos 0))) [
  | inl z ↦
      let other : version_of versions d ≢ v = λ e. ne (sym e ∙ (eqb_ℤ_iff _ _).0 z) in
      rw z (rw (eqb_of_ne (version_of versions d) v other) (entry-tally versions v ds m ne))
  | inr n ↦ rw n (
      ground (
        arith,
        entry-tally versions v ds (bump (version_of versions d) m) ne,
        entry-bump v (version_of versions d) m,
      ))
]

-- No entry for `v`, and no two entries for one version.
abbrev IsFresh : ℤ → List (ℤ × ℕ) → Type 0
IsFresh v m = All (λ e. eqb_ℤ e.0 v ≡ false) m

abbrev IsDistinct : List (ℤ × ℕ) → Type 0
IsDistinct [] = Unit
IsDistinct (e ∷ m) = IsFresh e.0 m × IsDistinct m

bump-IsFresh : (u w : ℤ) (m : List (ℤ × ℕ)) → eqb_ℤ w u ≡ false → IsFresh u m → IsFresh u (bump w m)
unfolding bump
bump-IsFresh u w [] n h = (n, tt)
bump-IsFresh u w ((v, c) ∷ m) n h = elim (Bool-cases (eqb_ℤ v w)) [
  | inl y ↦ rw y h
  | inr k ↦ rw k (h.0, bump-IsFresh u w m n h.1)
]

eqb_sym : (a b : ℤ) → eqb_ℤ a b ≡ false → eqb_ℤ b a ≡ false
eqb_sym a b h = ground arith

bump-IsDistinct : (w : ℤ) (m : List (ℤ × ℕ)) → IsDistinct m → IsDistinct (bump w m)
unfolding bump
bump-IsDistinct w [] h = (tt, tt)
bump-IsDistinct w ((v, c) ∷ m) h = elim (Bool-cases (eqb_ℤ v w)) [
  | inl y ↦ rw y h
  | inr k ↦ rw k (bump-IsFresh v w m (eqb_sym v w k) h.0, bump-IsDistinct w m h.1)
]

-- The entries of a tally: none for 0, and one for a version.
abbrev IsTally : List (ℤ × ℕ) → Type 0
IsTally m = IsFresh (pos 0) m × IsDistinct m

tally-IsTally :
    (versions : Address → Option ℤ) (ds : List Address) (m : List (ℤ × ℕ))
    → IsTally m
    → IsTally (tally versions ds m)
unfolding tally
tally-IsTally versions [] m h = h
tally-IsTally versions (d ∷ ds) m h = elim (Bool-cases (eqb_ℤ (version_of versions d) (pos 0))) [
  | inl z ↦ rw z (tally-IsTally versions ds m h)
  | inr n ↦ rw n (
      tally-IsTally versions ds (bump (version_of versions d) m) (
        bump-IsFresh (pos 0) (version_of versions d) m n h.0,
        bump-IsDistinct (version_of versions d) m h.1,
      ))
]

entry-Memᴰ : (e : ℤ × ℕ) (m : List (ℤ × ℕ)) → IsDistinct m → Memᴰ e m → entry e.0 m ≡ e.1
unfolding entry
entry-Memᴰ e [] d h = elim h [ ]
entry-Memᴰ (v, c) ((w, b) ∷ m) d (Memᴰ.head p) =
    let q : v ≡ w = ap (λ x. x.0) p in
    let r : c ≡ b = ap (λ x. x.1) p in rw ((eqb_ℤ_iff w v).1 (sym q)) (sym r)
entry-Memᴰ (v, c) ((w, b) ∷ m) d (Memᴰ.tail h) =
    rw (eqb_sym v w (All-Memᴰ (λ x. eqb_ℤ x.0 w ≡ false) (v, c) m h d.0))
      (entry-Memᴰ (v, c) m d.1 h)

Memᴰ-entry : (v : ℤ) (m : List (ℤ × ℕ)) → entry v m ≢ 0 → Memᴰ (v, entry v m) m
unfolding entry
Memᴰ-entry v [] ne = absurd (ne refl)
Memᴰ-entry v ((w, c) ∷ m) ne = elim (Bool-cases (eqb_ℤ w v)) [
  | inl y ↦ rw y (Memᴰ.head (ap (λ x. (x, c)) (sym ((eqb_ℤ_iff w v).0 y))))
  | inr n ↦ rw n (Memᴰ.tail (Memᴰ-entry v m (λ e. ne (rw n e))))
]

module _ (versions : Address → Option ℤ) (ds : List Address) (shuffle : List (ℤ × ℕ) → List (ℤ × ℕ))
    (order : IsOrder shuffle) where
  abbrev counts : List (ℤ × ℕ)
  counts = tally versions ds []

  abbrev winner : ℤ × ℕ
  winner = best_of (shuffle counts) (pos 0, 0)

  counts-IsTally : IsTally counts
  counts-IsTally = tally-IsTally versions ds [] (tt, tt)

  entry-counts : (v : ℤ) → v ≢ pos 0 → entry v counts ≡ count_on versions v ds
  entry-counts v ne = omega (arith, entry-tally versions v ds [] ne, entry_nil v)
    where
      entry_nil : (v : ℤ) → entry v [] ≡ 0
      entry_nil v = unfold entry in refl

  pub winner-NoBetter :
      (v : ℤ) → v ≢ pos 0 → count_on versions v ds ≢ 0 → NoBetter (v, count_on versions v ds) winner
  winner-NoBetter v ne occurs =
      subst (λ c. NoBetter (v, c) winner) (entry-counts v ne)
        (All-Memᴰ (λ e. NoBetter e winner) (v, entry v counts) (shuffle counts)
          ((order counts (v, entry v counts)).1
            (Memᴰ-entry v counts (λ e. occurs (sym (entry-counts v ne) ∙ e))))
          (best_of-NoBetter-All (shuffle counts) (pos 0, 0)))

  pub winner-count :
      (winner.1 ≡ 0) ⊎ ((winner.0 ≢ pos 0) × (winner.1 ≡ count_on versions winner.0 ds))
  winner-count = elim (best_of_origin (shuffle counts) (pos 0, 0)) [
    | inl e ↦ inl (ap (λ x. x.1) e)
    | inr h ↦
        let m = (order counts winner).0 h in
        let ne =
          not_zero (All-Memᴰ (λ x. eqb_ℤ x.0 (pos 0) ≡ false) winner counts m counts-IsTally.0) in
        inr (ne, sym (entry-Memᴰ winner counts counts-IsTally.1 m) ∙ entry-counts winner.0 ne)
  ]
    where
      not_zero : {v : ℤ} → eqb_ℤ v (pos 0) ≡ false → v ≢ pos 0
      not_zero n e = true_and_false ((eqb_ℤ_iff _ _).1 e) n
