-- ===== src/Persistence/Memory/Versions.antt =====
-- memory.go: the key share versions that a layer lists, against the calls that saved and deleted them.
use eigenx_kms_go.Prelude.{
  ◌≡◌, ◌↔◌, refl, sym, ◌∙◌, false, Option, none, some, List, [], ◌∷◌, Result, ok, err, arith,
  Bool-cases, Option-cases, inl, inr, subst, All, All-map_of, All-Memᴰ, Memᴰ, if◌then◌else◌, int_eq,
}
use eigenx_kms_go.Prelude.Int.{ℤ, ltb_ℤ, eqb_ℤ, eqb_ℤ_iff}
use eigenx_kms_go.Prelude.Maps.{lookup, keys, lookup-insert, lookup-delete}
use eigenx_kms_go.Prelude.Sorting.{sort, sort-All, All-sort, sort-IsSorted, IsSorted}
use eigenx_kms_go.Types.{KeyShareVersion}
use eigenx_kms_go.Persistence.Memory.{
  MemoryPersistence, new_memory_persistence, save_key_share_version, load_key_share_version,
  list_key_share_versions, delete_key_share_version, values_at,
}

-- The calls that change the versions.
pub data Call (F : Type 0) : Type 0 where
  saves : KeyShareVersion F → Call F
  deletes : ℤ → Call F

module _ {F : Type 0} where
  abbrev pub numbers : List (KeyShareVersion F) → List ℤ
  numbers [] = []
  numbers (v ∷ vs) = v.version ∷ numbers vs

  keys-lookup :
      (m : List (ℤ × KeyShareVersion F))
      → All (λ t. (v : KeyShareVersion F) × (lookup t m ≡ some v)) (keys m)
  unfolding keys lookup
  keys-lookup [] = tt
  keys-lookup ((j, w) ∷ m) = (
    (w, rw ((eqb_ℤ_iff j j).1 refl) refl),
    All-map_of _ (λ t. (v : KeyShareVersion F) × (lookup t ((j, w) ∷ m) ≡ some v))
        (λ t h. elim (Bool-cases (eqb_ℤ j t)) [ inl y ↦ (w, rw y refl) | inr n ↦ (h.0, rw n h.1) ])
        (keys m) (keys-lookup m),
  )

  lookup-keys :
      (t : ℤ) (v : KeyShareVersion F) (m : List (ℤ × KeyShareVersion F))
      → lookup t m ≡ some v
      → Memᴰ t (keys m)
  unfolding keys lookup
  lookup-keys t v [] e = cc
  lookup-keys t v ((j, w) ∷ m) e = elim (Bool-cases (eqb_ℤ j t)) [
    | inl y ↦ Memᴰ.head (sym ((eqb_ℤ_iff j t).0 y))
    | inr n ↦ Memᴰ.tail (lookup-keys t v m (ground (arith, e, n)))
  ]

  values_at-absent :
      (t : ℤ) (ts : List ℤ) (m : List (ℤ × KeyShareVersion F))
      → lookup t m ≡ none
      → values_at (t ∷ ts) m ≡ values_at ts m
  unfolding values_at
  values_at-absent t ts m e = rw (e, values_at) refl

  values_at-present :
      (t : ℤ) (ts : List ℤ) (m : List (ℤ × KeyShareVersion F)) (w : KeyShareVersion F)
      → lookup t m ≡ some w
      → values_at (t ∷ ts) m ≡ w ∷ values_at ts m
  unfolding values_at
  values_at-present t ts m w e = rw (e, values_at) refl

  -- `v` stands in the map.
  abbrev IsValue : KeyShareVersion F → List (ℤ × KeyShareVersion F) → Type 0
  IsValue v m = (t : ℤ) × (lookup t m ≡ some v)

  head_or_tail :
      (v w : KeyShareVersion F) (ws : List (KeyShareVersion F)) (m : List (ℤ × KeyShareVersion F))
      → IsValue w m
      → (Memᴰ v ws → IsValue v m)
      → Memᴰ v (w ∷ ws)
      → IsValue v m
  head_or_tail v w ws m h k (Memᴰ.head p) = subst (λ x. IsValue x m) (sym p) h
  head_or_tail v w ws m h k (Memᴰ.tail q) = k q

  values_at-Memᴰ :
      (v : KeyShareVersion F) (ts : List ℤ) (m : List (ℤ × KeyShareVersion F))
      → Memᴰ v (values_at ts m)
      → IsValue v m
  unfolding values_at
  values_at-Memᴰ v [] m h = elim h [ ]
  values_at-Memᴰ v (t ∷ ts) m h = elim (Option-cases (lookup t m)) [
    | inl n ↦ values_at-Memᴰ v ts m (rw (values_at-absent t ts m n) at h)
    | inr (w, e) ↦
        head_or_tail v w (values_at ts m) m (t, e) (λ k. values_at-Memᴰ v ts m k)
          (rw (values_at-present t ts m w e) at h)
  ]

  abbrev Lists : List (ℤ × KeyShareVersion F) → List (KeyShareVersion F) → ℤ → Type 0
  Lists m vs t = (v : KeyShareVersion F) → lookup t m ≡ some v → Memᴰ v vs

  values_at-Lists :
      (ts : List ℤ) (m : List (ℤ × KeyShareVersion F)) → All (Lists m (values_at ts m)) ts
  values_at-Lists [] m = tt
  values_at-Lists (t ∷ ts) m = elim (Option-cases (lookup t m)) [
    | inl n ↦
        subst (λ vs. All (Lists m vs) (t ∷ ts)) (sym (values_at-absent t ts m n))
          (λ v e. absurd (none_is_some v (sym n ∙ e)), values_at-Lists ts m)
    | inr (w, e) ↦
        subst (λ vs. All (Lists m vs) (t ∷ ts)) (sym (values_at-present t ts m w e))
          (
            λ v p. Memᴰ.head (some_is_some v w (sym p ∙ e)),
            All-map_of (Lists m (values_at ts m)) (Lists m (w ∷ values_at ts m))
                (λ t' h v p. Memᴰ.tail (h v p)) ts (values_at-Lists ts m),
          )
  ]
    where
      none_is_some : (v : KeyShareVersion F) → none ≡ some v → ⊥
      none_is_some v e = cc

      some_is_some : (v w : KeyShareVersion F) → some v ≡ some w → v ≡ w
      some_is_some v w e = cc

  numbers-values_at :
      (ts : List ℤ) (m : List (ℤ × KeyShareVersion F))
      → ((t : ℤ) (v : KeyShareVersion F) → lookup t m ≡ some v → v.version ≡ t)
      → All (λ t. (v : KeyShareVersion F) × (lookup t m ≡ some v)) ts
      → numbers (values_at ts m) ≡ ts
  unfolding values_at
  numbers-values_at [] m k h = refl
  numbers-values_at (t ∷ ts) m k h =
      rw (h.0.1, values_at) (rw (k t h.0.0 h.0.1) (rw (numbers-values_at ts m k h.1) refl))

  abbrev or_before :
      {E : Type 0} → MemoryPersistence F → Result E (MemoryPersistence F) → MemoryPersistence F
  or_before m (ok m') = m'
  or_before m (err e) = m

  -- The latest call first.
  pub after_calls : List (Call F) → MemoryPersistence F
  unfolding new_memory_persistence save_key_share_version delete_key_share_version
  after_calls [] = new_memory_persistence
  after_calls (saves v ∷ cs) =
      or_before (after_calls cs) (save_key_share_version (some v) (after_calls cs))
  after_calls (deletes t ∷ cs) =
      or_before (after_calls cs) (delete_key_share_version t (after_calls cs))

  -- The version `t` that the calls leave, if any: the one saved last, unless it was deleted since.
  pub kept : ℤ → List (Call F) → Option (KeyShareVersion F)
  kept t [] = none
  kept t (saves v ∷ cs) = if eqb_ℤ v.version t then some v else kept t cs
  kept t (deletes u ∷ cs) = if eqb_ℤ u t then none else kept t cs

  after_calls-open : (cs : List (Call F)) → (after_calls cs).closed ≡ false
  unfolding after_calls new_memory_persistence save_key_share_version delete_key_share_version
  after_calls-open [] = refl
  after_calls-open (saves v ∷ cs) = ground (arith, after_calls-open cs)
  after_calls-open (deletes t ∷ cs) = ground (arith, after_calls-open cs)

  lookup-after_calls :
      (t : ℤ) (cs : List (Call F)) → lookup t (after_calls cs).key_shares ≡ kept t cs
  unfolding after_calls kept new_memory_persistence save_key_share_version delete_key_share_version
      lookup
  lookup-after_calls t [] = refl
  lookup-after_calls t (saves v ∷ cs) =
      rw (after_calls-open cs) (
        lookup-insert v.version t v (after_calls cs).key_shares ∙ rw (lookup-after_calls t cs) refl)
  lookup-after_calls t (deletes u ∷ cs) =
      rw (after_calls-open cs)
        (lookup-delete u t (after_calls cs).key_shares ∙ rw (lookup-after_calls t cs) refl)

  kept-version :
      (cs : List (Call F)) (t : ℤ) (v : KeyShareVersion F) → kept t cs ≡ some v → v.version ≡ t
  unfolding kept
  kept-version [] t v e = cc
  kept-version (saves w ∷ cs) t v e = elim (Bool-cases (eqb_ℤ w.version t)) [
    | inl y ↦
        let same : w ≡ v = ground (arith, e, y) in
        subst (λ (x : KeyShareVersion F). x.version ≡ t) same ((eqb_ℤ_iff w.version t).0 y)
    | inr n ↦ kept-version cs t v (ground (arith, e, n))
  ]
  kept-version (deletes u ∷ cs) t v e = kept-version cs t v (ground (arith, e))

  -- After any saves and deletions on a new layer, loading a version gives what was saved last
  -- under its number, unless it was deleted since; and listing gives exactly these versions, in
  -- the ascending order of their numbers.
  pub list_key_share_versions-kept :
      (cs : List (Call F))
      → ((t : ℤ) → load_key_share_version t (after_calls cs) ≡ ok (kept t cs))
        × ((vs : List (KeyShareVersion F)) × (list_key_share_versions (after_calls cs) ≡ ok vs)
            × IsSorted ltb_ℤ (numbers vs)
            × ((v : KeyShareVersion F) → Memᴰ v vs ↔ (kept v.version cs ≡ some v)))
  unfolding load_key_share_version list_key_share_versions
  list_key_share_versions-kept cs = (
    (λ t. rw (after_calls-open cs) (rw (lookup-after_calls t cs) refl)),
    (
      values_at ts m,
      rw (after_calls-open cs) refl,
      subst (IsSorted ltb_ℤ)
          (sym (
            numbers-values_at ts m
              (λ t v e. kept-version cs t v (sym (lookup-after_calls t cs) ∙ e))
              (sort-All ltb_ℤ (λ t. IsPresent t) (keys m) (keys-lookup m))))
          (sort-IsSorted ltb_ℤ (λ x y h. ground arith) (λ x y z h k. ground arith) (keys m)),
      λ v. (listed v, kept_listed v),
    ),
  )
    where
      m : List (ℤ × KeyShareVersion F)
      m = (after_calls cs).key_shares

      ts : List ℤ
      ts = sort ltb_ℤ (keys m)

      IsPresent : ℤ → Type 0
      IsPresent t = (v : KeyShareVersion F) × (lookup t m ≡ some v)

      listed : (v : KeyShareVersion F) → Memᴰ v (values_at ts m) → kept v.version cs ≡ some v
      listed v h =
          let (t, e) = values_at-Memᴰ v ts m h in
          let k = sym (lookup-after_calls t cs) ∙ e in
          subst (λ x. kept x cs ≡ some v) (sym (kept-version cs t v k)) k

      kept_listed : (v : KeyShareVersion F) → kept v.version cs ≡ some v → Memᴰ v (values_at ts m)
      kept_listed v k =
          let e = lookup-after_calls v.version cs ∙ k in
          All-Memᴰ (Lists m (values_at ts m)) v.version (keys m) (lookup-keys v.version v m e)
            (All-sort ltb_ℤ (Lists m (values_at ts m)) (keys m) (values_at-Lists ts m)) v e
