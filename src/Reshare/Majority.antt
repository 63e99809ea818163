-- ===== src/Reshare/Majority.antt =====
-- reshare.go, SelectMajoritySourceVersion: the tally and the winner, in whatever order Go visits it.
use eigenx_kms_go.Prelude.{
  ℕ, ◌<◌, ◌≡◌, refl, sym, ap, ◌∙◌, ◌⊎◌, ◌↔◌, inl, inr, ◌&&◌, ◌||◌, Option, List, [], ◌∷◌, arith,
  subst, ltb, ◌==◌, if◌then◌else◌, Memᴰ, All, All-Memᴰ,
}
use eigenx_kms_go.Prelude.Int.{ℤ, ◌≤ℤ◌, ltb_ℤ, eq_of_parts, pos}
use eigenx_kms_go.Types.{Address}
use eigenx_kms_go.Reshare.{tally, best_of, keep_if_enough, select_majority_source_version}

-- A version and its count that is no better than another.
abbrev pub NoBetter : ℤ × ℕ → ℤ × ℕ → Type 0
NoBetter e f = (e.1 < f.1) ⊎ ((e.1 ≡ f.1) × (e.0 ≤ℤ f.0))

NoBetter-refl : (e : ℤ × ℕ) → NoBetter e e
NoBetter-refl e = inr (refl, omega arith)

NoBetter-trans : (e f g : ℤ × ℕ) → NoBetter e f → NoBetter f g → NoBetter e g
NoBetter-trans e f g h k = omega arith

NoBetter-antisymm : (e f : ℤ × ℕ) → NoBetter e f → NoBetter f e → e ≡ f
NoBetter-antisymm (v, c) (w, b) h k =
    let p : v ≡ w = eq_of_parts v w (omega arith) in let q : c ≡ b = omega arith in cc

abbrev better : ℤ × ℕ → ℤ × ℕ → ℤ × ℕ
better e f = if ltb f.1 e.1 || (e.1 == f.1 && ltb_ℤ f.0 e.0) then e else f

better-right : (e f : ℤ × ℕ) → NoBetter f (better e f)
better-right (v, c) (w, b) = ground arith

better-left : (e f : ℤ × ℕ) → NoBetter e (better e f)
better-left (v, c) (w, b) = ground arith

better-origin : (e f : ℤ × ℕ) → (better e f ≡ f) ⊎ (better e f ≡ e)
better-origin (v, c) (w, b) = ground arith

best_of-NoBetter : (m : List (ℤ × ℕ)) (e f : ℤ × ℕ) → NoBetter e f → NoBetter e (best_of m f)
unfolding best_of
best_of-NoBetter [] e f h = h
best_of-NoBetter ((v, c) ∷ m) e (w, b) h =
    best_of-NoBetter m e (better (v, c) (w, b))
      (NoBetter-trans e (w, b) (better (v, c) (w, b)) h (better-right (v, c) (w, b)))

pub best_of-NoBetter-All : (m : List (ℤ × ℕ)) (f : ℤ × ℕ) → All (λ e. NoBetter e (best_of m f)) m
unfolding best_of
best_of-NoBetter-All [] f = tt
best_of-NoBetter-All ((v, c) ∷ m) (w, b) = (
  best_of-NoBetter m (v, c) (better (v, c) (w, b)) (better-left (v, c) (w, b)),
  best_of-NoBetter-All m (better (v, c) (w, b)),
)

pub best_of_origin : (m : List (ℤ × ℕ)) (f : ℤ × ℕ) → (best_of m f ≡ f) ⊎ Memᴰ (best_of m f) m
unfolding best_of
best_of_origin [] f = inl refl
best_of_origin ((v, c) ∷ m) (w, b) = elim (best_of_origin m (better (v, c) (w, b))) [
  | inl e ↦ elim (better-origin (v, c) (w, b)) [
    | inl old ↦ inl (e ∙ old)
    | inr new ↦ inr (Memᴰ.head (e ∙ new))
  ]
  | inr h ↦ inr (Memᴰ.tail h)
]

-- An order in which Go may visit the entries of a map: it visits these entries and no other.
abbrev pub IsOrder : (List (ℤ × ℕ) → List (ℤ × ℕ)) → Type 0
IsOrder shuffle = (m : List (ℤ × ℕ)) (e : ℤ × ℕ) → Memᴰ e (shuffle m) ↔ Memᴰ e m

module _ (s s' : List (ℤ × ℕ) → List (ℤ × ℕ)) (o : IsOrder s) (o' : IsOrder s') where
  best_of-le : (m : List (ℤ × ℕ)) (f : ℤ × ℕ) → NoBetter (best_of (s m) f) (best_of (s' m) f)
  best_of-le m f = elim (best_of_origin (s m) f) [
    | inl e ↦
        subst (λ x. NoBetter x (best_of (s' m) f)) (sym e)
          (best_of-NoBetter (s' m) f f (NoBetter-refl f))
    | inr h ↦
        All-Memᴰ (λ e. NoBetter e (best_of (s' m) f)) (best_of (s m) f) (s' m)
          ((o' m (best_of (s m) f)).1 ((o m (best_of (s m) f)).0 h)) (best_of-NoBetter-All (s' m) f)
  ]

-- The selection does not depend on the order in which the tally is visited, so that all nodes that
-- tally the same versions of the same dealers keep the same dealers.
pub select_majority_source_version_deterministic :
    (s s' : List (ℤ × ℕ) → List (ℤ × ℕ)) (dealers : List Address) (versions : Address → Option ℤ)
    (threshold : ℕ)
    → IsOrder s
    → IsOrder s'
    → select_majority_source_version s dealers versions threshold
      ≡ select_majority_source_version s' dealers versions threshold
unfolding select_majority_source_version
select_majority_source_version_deterministic s s' [] versions threshold o o' = refl
select_majority_source_version_deterministic s s' (d ∷ ds) versions threshold o o' =
    ap (keep_if_enough versions (d ∷ ds) threshold) (
      NoBetter-antisymm (best_of (s m) (pos 0, 0)) (best_of (s' m) (pos 0, 0))
        (best_of-le s s' o o' m (pos 0, 0)) (best_of-le s' s o' o m (pos 0, 0)))
  where
    m : List (ℤ × ℕ)
    m = tally versions (d ∷ ds) []
