-- ===== src/Prelude/Sorting.antt =====
-- `sort.Slice`: a sort by a strict order `less`. The order of equal elements, which Go leaves open,
-- is the one of insertion.
use Prim.Native.Nat.{suc}
use mathlib.Core.Path.{◌≡◌, refl, ap, ◌∙◌}
use mathlib.Core.Logic.{◌⊎◌, inl, inr}
use mathlib.Core.Bool.{Bool, true, false}
use mathlib.Core.List.{List, [], ◌∷◌, Memᴰ, Perm}
use mathlib.Core.List.Perm
use eigenx_kms_go.Prelude.Tests.{if◌then◌else◌, Bool-cases}
use eigenx_kms_go.Prelude.Lists.{All, length}

module _ {ℓ} {A : Type ℓ} (less : A → A → Bool) where
  unfoldable pub insert_sorted : A → List A → List A
  insert_sorted x [] = x ∷ []
  insert_sorted x (y ∷ ys) = if less y x then y ∷ insert_sorted x ys else x ∷ y ∷ ys

  unfoldable pub sort : List A → List A
  unfolding insert_sorted
  sort [] = []
  sort (x ∷ xs) = insert_sorted x (sort xs)

  -- No element is less than one that stands before it.
  abbrev pub IsSorted : List A → Type ℓ
  IsSorted [] = Unit
  IsSorted (x ∷ xs) = All (λ y. less y x ≡ false) xs × IsSorted xs

  insert_sorted-perm : (x : A) (ys : List A) → Perm (insert_sorted x ys) (x ∷ ys)
  unfolding insert_sorted
  insert_sorted-perm x [] = Perm.rfl
  insert_sorted-perm x (y ∷ ys) = elim (Bool-cases (less y x)) [
    | inl l ↦ rw l (Perm.trans (Perm.cons y (insert_sorted-perm x ys)) (Perm.swap x y ys))
    | inr n ↦ rw n Perm.rfl
  ]

  pub sort-perm : (xs : List A) → Perm (sort xs) xs
  unfolding sort
  sort-perm [] = Perm.rfl
  sort-perm (x ∷ xs) = Perm.trans (insert_sorted-perm x (sort xs)) (Perm.cons x (sort-perm xs))

  insert_sorted-All {κ} :
      (P : A → Type κ) (x : A) (ys : List A) → P x → All P ys → All P (insert_sorted x ys)
  unfolding insert_sorted
  insert_sorted-All P x [] p h = (p, tt)
  insert_sorted-All P x (y ∷ ys) p h = elim (Bool-cases (less y x)) [
    | inl l ↦ rw l (h.0, insert_sorted-All P x ys p h.1)
    | inr n ↦ rw n (p, h)
  ]

  All-insert_sorted {κ} :
      (P : A → Type κ) (x : A) (ys : List A) → All P (insert_sorted x ys) → P x × All P ys
  unfolding insert_sorted
  All-insert_sorted P x [] h = h
  All-insert_sorted P x (y ∷ ys) h = elim (Bool-cases (less y x)) [
    | inl l ↦
        let h' : P y × All P (insert_sorted x ys) = rw (l, insert_sorted) at h in
        let r = All-insert_sorted P x ys h'.1 in (r.0, (h'.0, r.1))
    | inr n ↦ rw (n, insert_sorted) at h
  ]

  pub sort-All {κ} : (P : A → Type κ) (xs : List A) → All P xs → All P (sort xs)
  unfolding sort
  sort-All P [] h = tt
  sort-All P (x ∷ xs) h = insert_sorted-All P x (sort xs) h.0 (sort-All P xs h.1)

  pub All-sort {κ} : (P : A → Type κ) (xs : List A) → All P (sort xs) → All P xs
  unfolding sort
  All-sort P [] h = tt
  All-sort P (x ∷ xs) h = let r = All-insert_sorted P x (sort xs) h in (r.0, All-sort P xs r.1)

  Memᴰ-insert_sorted : (a x : A) (ys : List A) → Memᴰ a (insert_sorted x ys) → (a ≡ x) ⊎ Memᴰ a ys
  unfolding insert_sorted
  Memᴰ-insert_sorted a x [] (Memᴰ.head e) = inl e
  Memᴰ-insert_sorted a x [] (Memᴰ.tail m) = inr m
  Memᴰ-insert_sorted a x (y ∷ ys) m = elim (Bool-cases (less y x)) [
    | inl l ↦ in_tail (Memᴰ-insert_sorted a x ys) (rw (l, insert_sorted) at m)
    | inr n ↦ in_front (rw (n, insert_sorted) at m)
  ]
    where
      in_tail :
          (Memᴰ a (insert_sorted x ys) → (a ≡ x) ⊎ Memᴰ a ys)
          → Memᴰ a (y ∷ insert_sorted x ys)
          → (a ≡ x) ⊎ Memᴰ a (y ∷ ys)
      in_tail rest (Memᴰ.head e) = inr (Memᴰ.head e)
      in_tail rest (Memᴰ.tail k) = elim (rest k) [ inl e ↦ inl e | inr i ↦ inr (Memᴰ.tail i) ]

      in_front : Memᴰ a (x ∷ y ∷ ys) → (a ≡ x) ⊎ Memᴰ a (y ∷ ys)
      in_front (Memᴰ.head e) = inl e
      in_front (Memᴰ.tail k) = inr k

  pub Memᴰ-sort : (a : A) (xs : List A) → Memᴰ a (sort xs) → Memᴰ a xs
  unfolding sort
  Memᴰ-sort a [] m = m
  Memᴰ-sort a (x ∷ xs) m = elim (Memᴰ-insert_sorted a x (sort xs) m) [
    | inl e ↦ Memᴰ.head e
    | inr k ↦ Memᴰ.tail (Memᴰ-sort a xs k)
  ]

module _ {ℓ} {A : Type ℓ} (less : A → A → Bool)
    (asym : (x y : A) → less y x ≡ true → less x y ≡ false)
    (chain : (x y z : A) → less y x ≡ false → less z y ≡ false → less z x ≡ false) where
  below-All :
      (x y : A) (ys : List A)
      → less y x ≡ false
      → All (λ z. less z y ≡ false) ys
      → All (λ z. less z x ≡ false) ys
  below-All x y [] l h = tt
  below-All x y (z ∷ zs) l h = (chain x y z l h.0, below-All x y zs l h.1)

  insert_sorted-IsSorted :
      (x : A) (ys : List A) → IsSorted less ys → IsSorted less (insert_sorted less x ys)
  unfolding insert_sorted
  insert_sorted-IsSorted x [] s = (tt, tt)
  insert_sorted-IsSorted x (y ∷ ys) s = elim (Bool-cases (less y x)) [
    | inl l ↦ rw l (
      insert_sorted-All less (λ z. less z y ≡ false) x ys (asym x y l) s.0,
      insert_sorted-IsSorted x ys s.1,
    )
    | inr n ↦ rw n ((n, below-All x y ys n s.0), s)
  ]

  pub sort-IsSorted : (xs : List A) → IsSorted less (sort less xs)
  unfolding sort
  sort-IsSorted [] = tt
  sort-IsSorted (x ∷ xs) = insert_sorted-IsSorted x (sort less xs) (sort-IsSorted xs)

module _ {ℓ} {A : Type ℓ} (less : A → A → Bool) where
  length-insert_sorted : (x : A) (ys : List A) → length (insert_sorted less x ys) ≡ suc (length ys)
  unfolding insert_sorted
  length-insert_sorted x [] = refl
  length-insert_sorted x (y ∷ ys) = elim (Bool-cases (less y x)) [
    | inl l ↦ rw l (ap suc (length-insert_sorted x ys))
    | inr n ↦ rw n refl
  ]

  pub length-sort : (xs : List A) → length (sort less xs) ≡ length xs
  unfolding sort
  length-sort [] = refl
  length-sort (x ∷ xs) = length-insert_sorted x (sort less xs) ∙ ap suc (length-sort xs)
