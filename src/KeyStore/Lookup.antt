-- ===== src/KeyStore/Lookup.antt =====
-- keystore.go: which version the accessors resolve to.
use eigenx_kms_go.Prelude.{
  ◌≡◌, refl, ◌⊎◌, inl, inr, true, false, Option, none, some, List, [], ◌∷◌, Result, ok, err, arith,
  All, All-map_of, Memᴰ, if◌then◌else◌, ◌&&◌, Bool-cases, Option-cases, sym, subst, ◌≢◌,
}
use eigenx_kms_go.Prelude.Int.{ℤ, ◌≤ℤ◌, eqb_ℤ, eqb_ℤ_iff}
use eigenx_kms_go.Types.{KeyShareVersion}
use eigenx_kms_go.KeyStore.{
  Ptr, Error, poisoned_version, no_private_share, no_key_version, KeyStore, is_poisoned,
  find_version, is_better, is_eligible, best_version, get_key_version_at_time, share_of,
  get_private_share_for_version,
}

module _ {F : Type 0} where
  -- The version of `p` is at most that of the candidate.
  abbrev Covers : (Ptr → KeyShareVersion F) → Ptr → Option Ptr → Type 0
  Covers h p none = ⊥
  Covers h p (some b) = (h p).version ≤ℤ (h b).version

  abbrev next_best : ℤ → KeyStore F → Option Ptr → Ptr → Option Ptr
  next_best t ks best p = if is_eligible t ks p && is_better ks.object p best then some p else best

  next_best-Covers :
      (t : ℤ) (ks : KeyStore F) (best : Option Ptr) (p q : Ptr)
      → Covers ks.object q best
      → Covers ks.object q (next_best t ks best p)
  next_best-Covers t ks none p q c = absurd c
  next_best-Covers t ks (some b) p q c = ground arith

  next_best-Covers_self :
      (t : ℤ) (ks : KeyStore F) (best : Option Ptr) (p : Ptr)
      → is_eligible t ks p ≡ true
      → Covers ks.object p (next_best t ks best p)
  next_best-Covers_self t ks none p e = ground arith
  next_best-Covers_self t ks (some b) p e = ground arith

  best_version-Covers :
      (t : ℤ) (ks : KeyStore F) (best : Option Ptr) (ps : List Ptr) (q : Ptr)
      → Covers ks.object q best
      → Covers ks.object q (best_version t ks best ps)
  unfolding best_version
  best_version-Covers t ks best [] q c = c
  best_version-Covers t ks best (p ∷ ps) q c =
      best_version-Covers t ks (next_best t ks best p) ps q (next_best-Covers t ks best p q c)

  best_version-Covers-All :
      (t : ℤ) (ks : KeyStore F) (best : Option Ptr) (ps : List Ptr)
      → All (λ p. is_eligible t ks p ≡ true → Covers ks.object p (best_version t ks best ps)) ps
  unfolding best_version
  best_version-Covers-All t ks best [] = tt
  best_version-Covers-All t ks best (p ∷ ps) = (
    λ e.
        best_version-Covers t ks (next_best t ks best p) ps p (next_best-Covers_self t ks best p e),
    best_version-Covers-All t ks (next_best t ks best p) ps,
  )

  next_best_origin :
      (t : ℤ) (ks : KeyStore F) (best : Option Ptr) (p b : Ptr)
      → next_best t ks best p ≡ some b
      → (best ≡ some b) ⊎ ((b ≡ p) × (is_eligible t ks b ≡ true))
  next_best_origin t ks none p b e = ground arith
  next_best_origin t ks (some a) p b e = ground arith

  best_version_origin :
      (t : ℤ) (ks : KeyStore F) (best : Option Ptr) (ps : List Ptr) (b : Ptr)
      → best_version t ks best ps ≡ some b
      → (best ≡ some b) ⊎ (Memᴰ b ps × (is_eligible t ks b ≡ true))
  unfolding best_version
  best_version_origin t ks best [] b e = inl e
  best_version_origin t ks best (p ∷ ps) b e =
      elim (best_version_origin t ks (next_best t ks best p) ps b e) [
        | inl h ↦ elim (next_best_origin t ks best p b h) [
          | inl old ↦ inl old
          | inr new ↦ inr (Memᴰ.head new.0, new.1)
        ]
        | inr h ↦ inr (Memᴰ.tail h.0, h.1)
      ]

  -- What a lookup by time owes: the latest of the versions that are usable at `t`, or none if none is.
  abbrev pub Resolves : ℤ → KeyStore F → Option Ptr → Type 0
  Resolves t ks none = All (λ p. is_eligible t ks p ≡ false) ks.key_versions
  Resolves t ks (some b) =
      Memᴰ b ks.key_versions
      × (is_poisoned (ks.object b).version ks ≡ false)
      × ((ks.object b).version ≤ℤ t)
      × All (λ p. (is_eligible t ks p ≡ false) ⊎ ((ks.object p).version ≤ℤ (ks.object b).version))
          ks.key_versions

  Resolves-of :
      (t : ℤ) (ks : KeyStore F) (r : Option Ptr)
      → best_version t ks none ks.key_versions ≡ r
      → Resolves t ks r
  Resolves-of t ks none e =
      All-map_of _ (λ p. is_eligible t ks p ≡ false)
        (λ p h. elim (Bool-cases (is_eligible t ks p)) [
          | inl y ↦ absurd (subst (Covers ks.object p) e (h y))
          | inr n ↦ n
        ])
        ks.key_versions (best_version-Covers-All t ks none ks.key_versions)
  Resolves-of t ks (some b) e = elim (best_version_origin t ks none ks.key_versions b e) [
    | inl h ↦ cc
    | inr h ↦ (
      h.0,
      ground arith,
      ground arith,
      All-map_of _
          (λ p. (is_eligible t ks p ≡ false) ⊎ ((ks.object p).version ≤ℤ (ks.object b).version))
          (λ p c. elim (Bool-cases (is_eligible t ks p)) [
            | inl y ↦ inr (subst (Covers ks.object p) e (c y))
            | inr n ↦ inl n
          ])
          ks.key_versions (best_version-Covers-All t ks none ks.key_versions),
    )
  ]

  -- The version at a time is in the keystore, not poisoned and not after that time, and no usable
  -- version is later; there is none only if every version is poisoned or after that time.
  pub get_key_version_at_time-Resolves :
      (t : ℤ) (ks : KeyStore F) → Resolves t ks (get_key_version_at_time t ks)
  unfolding get_key_version_at_time
  get_key_version_at_time-Resolves t ks =
      Resolves-of t ks (best_version t ks none ks.key_versions) refl

  -- The shares of `v` in the order of the keystore; what a lookup of the exact version owes.
  pub find_version-Memᴰ :
      (v : ℤ) (h : Ptr → KeyShareVersion F) (ps : List Ptr) (p : Ptr)
      → find_version v h ps ≡ some p
      → Memᴰ p ps × ((h p).version ≡ v)
  unfolding find_version
  find_version-Memᴰ v h [] p e = cc
  find_version-Memᴰ v h (q ∷ ps) p e = elim (Bool-cases (eqb_ℤ (h q).version v)) [
    | inl y ↦
        let s : q ≡ p = ground arith in
        (Memᴰ.head (sym s), subst (λ x. (h x).version ≡ v) s ((eqb_ℤ_iff _ _).0 y))
    | inr n ↦ let r = find_version-Memᴰ v h ps p (ground arith) in (Memᴰ.tail r.0, r.1)
  ]

  pub find_version-none :
      (v : ℤ) (h : Ptr → KeyShareVersion F) (ps : List Ptr)
      → find_version v h ps ≡ none
      → All (λ p. (h p).version ≢ v) ps
  unfolding find_version
  find_version-none v h [] e = tt
  find_version-none v h (q ∷ ps) e = (
    λ s. ground (arith, (eqb_ℤ_iff (h q).version v).1 s),
    find_version-none v h ps (ground (arith, eqb_ℤ_iff (h q).version v)),
  )

  -- The exact lookup by its cause: a poisoned version, an absent one, one with no share, or the share.
  abbrev pub Exact : ℤ → KeyStore F → Result Error F → Type 0
  Exact v ks (ok s) =
      (is_poisoned v ks ≡ false)
      × ((p : Ptr) × Memᴰ p ks.key_versions
          × ((ks.object p).version ≡ v)
          × ((ks.object p).private_share ≡ some s))
  Exact v ks (err e) =
      ((e ≡ poisoned_version v) × (is_poisoned v ks ≡ true))
      ⊎ ((is_poisoned v ks ≡ false)
          × (((e ≡ no_key_version v) × All (λ p. (ks.object p).version ≢ v) ks.key_versions)
              ⊎ ((e ≡ no_private_share v)
                  × ((p : Ptr) × Memᴰ p ks.key_versions
                      × ((ks.object p).version ≡ v)
                      × ((ks.object p).private_share ≡ none)))))

  share-Exact :
      (v : ℤ) (ks : KeyStore F) (p : Ptr) (o : Option F)
      → is_poisoned v ks ≡ false
      → Memᴰ p ks.key_versions
      → (ks.object p).version ≡ v
      → (ks.object p).private_share ≡ o
      → Exact v ks (share_of v o)
  unfolding share_of
  share-Exact v ks p none n m e s = inr (n, inr (refl, (p, m, e, s)))
  share-Exact v ks p (some x) n m e s = (n, (p, m, e, s))

  -- A private share is served for exactly the version that was asked for and only if that version is
  -- not poisoned: it is never the share of an earlier version. Each error has the cause it names.
  pub get_private_share_for_version-Exact :
      (v : ℤ) (ks : KeyStore F) → Exact v ks (get_private_share_for_version v ks)
  unfolding get_private_share_for_version
  get_private_share_for_version-Exact v ks = elim (Bool-cases (is_poisoned v ks)) [
    | inl y ↦ rw (y, get_private_share_for_version) (inl (refl, y))
    | inr n ↦ elim (Option-cases (find_version v ks.object ks.key_versions)) [
      | inl a ↦
          rw (n, a, get_private_share_for_version)
            (inr (n, inl (refl, find_version-none v ks.object ks.key_versions a)))
      | inr (p, f) ↦
          let r = find_version-Memᴰ v ks.object ks.key_versions p f in
          rw (n, f, get_private_share_for_version) (share-Exact v ks p _ n r.0 r.1 refl)
    ]
  ]
