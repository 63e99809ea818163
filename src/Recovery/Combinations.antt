-- ===== src/Recovery/Combinations.antt =====
-- The combinations of positions that pkg/crypto/bls.go goes through: each is followed by the next one
-- in lexicographic order, so that none is left out.
use eigenx_kms_go.Prelude.{
  ℕ, zero, suc, ◌+◌, ◌-◌, ◌≤◌, ◌<◌, ◌≡◌, ◌≢◌, refl, sym, ap, ◌∙◌, ◌⊎◌, inl, inr, ◌==◌, Option, none,
  some, List, [], ◌∷◌, length, get_elem?, if◌then◌else◌, Bool-cases, ==_iff, arith, subst,
}
use mathlib.Core.Option.{some-injective}
use eigenx_kms_go.Recovery.{is_last, movable, raised, follow, next_combination, count_from}

-- The next combination by recursion on the list; the position at its head may be `v` at most.
abbrev after_step : ℕ → List ℕ → ℕ → Option (List ℕ) → Option (List ℕ)
after_step x xs v none = if x == v then none else some (suc x ∷ follow (suc x) xs)
after_step x xs v (some ys) = some (x ∷ ys)

unfoldable pub after : ℕ → List ℕ → Option (List ℕ)
after v [] = none
after v (x ∷ xs) = after_step x xs v (after (suc v) xs)

abbrev lifted : ℕ → ℕ → Option ℕ → Option ℕ
lifted x v none = if x == v then none else some 0
lifted x v (some i) = some (suc i)

movable-cons :
    (n t x : ℕ) (xs : List ℕ) (k : ℕ)
    → t ≤ n
    → movable n t (x ∷ xs) (suc k) ≡ lifted x (n - t) (movable (suc n) t xs k)
unfolding movable
movable-cons n t x xs zero h = ground arith
movable-cons n t x xs (suc k) h =
    let e : (suc n - t) + k ≡ (n - t) + suc k = omega arith in
    elim (Bool-cases (is_last ((n - t) + suc k) (get_elem? xs k))) [
      | inl y ↦ rw (e, y) (movable-cons n t x xs k h)
      | inr y ↦ rw (e, y) refl
    ]

raised-lifted :
    (x v : ℕ) (xs : List ℕ) (m : Option ℕ)
    → raised (x ∷ xs) (lifted x v m) ≡ after_step x xs v (raised xs m)
raised-lifted x v xs none = elim (Bool-cases (x == v)) [ inl y ↦ rw y refl | inr y ↦ rw y refl ]
raised-lifted x v xs (some i) = refl

raised-after :
    (n t : ℕ) (xs : List ℕ) → t ≤ n → raised xs (movable n t xs (length xs)) ≡ after (n - t) xs
unfolding after movable
raised-after n t [] h = refl
raised-after n t (x ∷ xs) h =
    let e : suc n - t ≡ suc (n - t) = omega arith in
    ap (raised (x ∷ xs)) (movable-cons n t x xs (length xs) h)
    ∙ (raised-lifted x (n - t) xs (movable (suc n) t xs (length xs))
        ∙ ap (after_step x xs (n - t))
            (raised-after (suc n) t xs (omega arith) ∙ ap (λ v. after v xs) e))

pub next_combination-after :
    (n : ℕ) (xs : List ℕ)
    → length xs ≤ n
    → next_combination n (length xs) xs ≡ after (n - length xs) xs
unfolding next_combination
next_combination-after n xs h = raised-after n (length xs) xs h

-- The positions ascend from `lo`, and leave room for those behind: the first is `v` at most.
abbrev pub IsFrom : ℕ → ℕ → List ℕ → Type 0
IsFrom lo v [] = Unit
IsFrom lo v (x ∷ xs) = (lo ≤ x) × (x ≤ v) × IsFrom (suc x) (suc v) xs

abbrev pub Earlier : List ℕ → List ℕ → Type 0
Earlier [] ys = ⊥
Earlier (x ∷ xs) [] = ⊥
Earlier (x ∷ xs) (y ∷ ys) = (x < y) ⊎ ((x ≡ y) × Earlier xs ys)

length-follow : (p : ℕ) (xs : List ℕ) → length (follow p xs) ≡ length xs
length-follow p [] = refl
length-follow p (x ∷ xs) = ap suc (length-follow (suc p) xs)

compare_le : (a b : ℕ) → a ≤ b → (a < b) ⊎ (a ≡ b)
compare_le a b h = omega arith

follow-count_from : (p : ℕ) (xs : List ℕ) → follow p xs ≡ count_from (suc p) (length xs)
follow-count_from p [] = refl
follow-count_from p (x ∷ xs) = ap (λ ys. suc p ∷ ys) (follow-count_from (suc p) xs)

pub count_from-IsFrom : (lo v t : ℕ) → lo ≤ v → IsFrom lo v (count_from lo t)
count_from-IsFrom lo v zero h = tt
count_from-IsFrom lo v (suc t) h =
    (omega arith, h, count_from-IsFrom (suc lo) (suc v) t (omega arith))

-- Nothing is earlier than the first combination.
pub count_from_first :
    (lo v : ℕ) (cs : List ℕ) → IsFrom lo v cs → Earlier cs (count_from lo (length cs)) → ⊥
count_from_first lo v [] h e = e
count_from_first lo v (c ∷ cs) h (inl e) = omega (arith, h.0)
count_from_first lo v (c ∷ cs) h (inr e) =
    count_from_first (suc c) (suc v) cs h.2
      (subst (λ n. Earlier cs (count_from (suc n) (length cs))) (sym e.0) e.1)

after_step-none :
    (x v : ℕ) (xs : List ℕ) (m : Option (List ℕ))
    → after_step x xs v m ≡ none
    → (x ≡ v) × (m ≡ none)
after_step-none x v xs none e = elim (Bool-cases (x == v)) [
  | inl y ↦ (ground (arith, ==_iff x v), refl)
  | inr y ↦ absurd (ground arith)
]
after_step-none x v xs (some ys) e = absurd (ground arith)

after_step-some :
    (x v : ℕ) (xs ys : List ℕ) (m : Option (List ℕ))
    → after_step x xs v m ≡ some ys
    → ((zs : List ℕ) × (m ≡ some zs) × (ys ≡ x ∷ zs))
      ⊎ ((m ≡ none) × (x ≢ v) × (ys ≡ suc x ∷ follow (suc x) xs))
after_step-some x v xs ys none e = elim (Bool-cases (x == v)) [
  | inl y ↦ absurd (ground arith)
  | inr y ↦
      let e' : some (suc x ∷ follow (suc x) xs) ≡ some ys = rw y at e in
      inr (refl, (λ q. ground (arith, ==_iff x v)), sym (some-injective _ _ e'))
]
after_step-some x v xs ys (some zs) e = inl (zs, refl, sym (some-injective _ _ e))

-- A combination is not after the last one.
pub after-none :
    (lo v : ℕ) (cs xs : List ℕ)
    → IsFrom lo v cs
    → IsFrom lo v xs
    → length cs ≡ length xs
    → after v xs ≡ none
    → Earlier cs xs ⊎ (cs ≡ xs)
unfolding after
after-none lo v [] [] h k n e = inr refl
after-none lo v [] (x ∷ xs) h k n e = absurd (omega arith)
after-none lo v (c ∷ cs) [] h k n e = absurd (omega arith)
after-none lo v (c ∷ cs) (x ∷ xs) h k n e =
    let q = after_step-none x v xs (after (suc v) xs) e in
    elim (compare_le c x (omega (arith, h.1, q.0))) [
      | inl less ↦ inl (inl less)
      | inr same ↦
          let h' : IsFrom (suc x) (suc v) cs = subst (λ m. IsFrom (suc m) (suc v) cs) same h.2 in
          elim (after-none (suc x) (suc v) cs xs h' k.2 (omega arith) q.1) [
            | inl r ↦ inl (inr (same, r))
            | inr r ↦ inr (rw (same, r) refl)
          ]
    ]

-- What is earlier than the next combination is earlier than this one, or this one.
pub after-some :
    (lo v : ℕ) (cs xs ys : List ℕ)
    → IsFrom lo v cs
    → IsFrom lo v xs
    → length cs ≡ length xs
    → after v xs ≡ some ys
    → Earlier cs ys
    → Earlier cs xs ⊎ (cs ≡ xs)
unfolding after
after-some lo v [] xs ys h k n e r = absurd r
after-some lo v (c ∷ cs) [] ys h k n e r = absurd (omega arith)
after-some lo v (c ∷ cs) (x ∷ xs) ys h k n e r =
    elim (after_step-some x v xs ys (after (suc v) xs) e) [
      | inl (zs, q, y) ↦ elim (subst (Earlier (c ∷ cs)) y r) [
        | inl less ↦ inl (inl less)
        | inr (same, s) ↦
            let h' : IsFrom (suc x) (suc v) cs = subst (λ m. IsFrom (suc m) (suc v) cs) same h.2 in
            elim (after-some (suc x) (suc v) cs xs zs h' k.2 (omega arith) q s) [
              | inl t ↦ inl (inr (same, t))
              | inr t ↦ inr (rw (same, t) refl)
            ]
      ]
      | inr (q, d, y) ↦ elim (subst (Earlier (c ∷ cs)) y r) [
        | inl less ↦ elim (compare_le c x (omega arith)) [
          | inl less' ↦ inl (inl less')
          | inr same ↦
              let h' : IsFrom (suc x) (suc v) cs =
                subst (λ m. IsFrom (suc m) (suc v) cs) same h.2 in
              elim (after-none (suc x) (suc v) cs xs h' k.2 (omega arith) q) [
                | inl t ↦ inl (inr (same, t))
                | inr t ↦ inr (rw (same, t) refl)
              ]
        ]
        | inr (same, s) ↦
            let h' : IsFrom (suc (suc x)) (suc v) cs =
              subst (λ m. IsFrom (suc m) (suc v) cs) same h.2 in
            absurd (
              count_from_first (suc (suc x)) (suc v) cs h' (
                subst (Earlier cs)
                  (follow-count_from (suc x) xs ∙ ap (count_from (suc (suc x))) (omega arith)) s))
      ]
    ]

pub after-IsFrom :
    (lo v : ℕ) (xs ys : List ℕ)
    → IsFrom lo v xs
    → after v xs ≡ some ys
    → IsFrom lo v ys × (length ys ≡ length xs)
unfolding after
after-IsFrom lo v [] ys h e = absurd (ground arith)
after-IsFrom lo v (x ∷ xs) ys h e = elim (after_step-some x v xs ys (after (suc v) xs) e) [
  | inl (zs, q, y) ↦
      let r = after-IsFrom (suc x) (suc v) xs zs h.2 q in
      subst (λ w. IsFrom lo v w × (length w ≡ suc (length xs))) (sym y)
        ((h.0, h.1, r.0), omega (arith, r.1))
  | inr (q, d, y) ↦
      subst (λ w. IsFrom lo v w × (length w ≡ suc (length xs))) (sym y)
        (
          (
            omega (arith, h.0),
            omega (arith, h.1),
            subst (IsFrom (suc (suc x)) (suc v)) (sym (follow-count_from (suc x) xs))
                (count_from-IsFrom (suc (suc x)) (suc v) (length xs) (omega (arith, h.1))),
          ),
          ap suc (length-follow (suc x) xs),
        )
]
