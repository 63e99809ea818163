-- ===== src/Restore/Placed.antt =====
-- node.go, RestoreState: the versions that are placed and added, and the poisoned set.
use eigenx_kms_go.Prelude.{
  suc, ◌<◌, ◌≡◌, refl, ◌∙◌, true, ◌||◌, some, List, [], ◌∷◌, arith, Bool-cases, inl, inr, ◌==◌,
  if◌then◌else◌, contains, int_eq,
}
use eigenx_kms_go.Prelude.Int.{ℤ, eqb_ℤ}
use eigenx_kms_go.Types.{KeyShareVersion}
use eigenx_kms_go.KeyStore.{Ptr, KeyStore, add_version, find_version, mark_poisoned, is_poisoned}
use eigenx_kms_go.KeyStore.Poison.{is_poisoned-mark_poisoned, clear_active-version}
use eigenx_kms_go.AutoHeal.{versions_of}
use eigenx_kms_go.Restore.{place, pointers, add_versions, mark_all}

module _ {F : Type 0} where
  -- Writing objects from `base` on leaves those below.
  place_below :
      (base q : Ptr) (vs : List (KeyShareVersion F)) (h : Ptr → KeyShareVersion F)
      → q < base
      → place base vs h q ≡ h q
  unfolding place
  place_below base q [] h l = refl
  place_below base q (v ∷ vs) h l =
      place_below (suc base) q vs (λ p. if base == p then v else h p) (omega arith) ∙ ground arith

  pub placed-found :
      (t : ℤ) (base : Ptr) (vs : List (KeyShareVersion F)) (h : Ptr → KeyShareVersion F)
      → contains (versions_of vs) t ≡ true
      → (p : Ptr) × (find_version t (place base vs h) (pointers base vs) ≡ some p)
  unfolding place pointers find_version contains
  placed-found t base [] h c = cc
  placed-found t base (v ∷ vs) h c = elim (Bool-cases (eqb_ℤ v.version t)) [
    | inl y ↦ (base, rw (first, find_version) (rw y refl))
    | inr n ↦
        let (p, f) =
          placed-found t (suc base) vs (λ q. if base == q then v else h q) (ground (arith, c, n)) in
        (p, rw (first, find_version) (rw n f))
  ]
    where
      first : place (suc base) vs (λ q. if base == q then v else h q) base ≡ v
      first =
          place_below (suc base) base vs (λ q. if base == q then v else h q) (omega arith)
          ∙ ground arith

  -- Objects that differ only in their flags.
  abbrev Same : (Ptr → KeyShareVersion F) → (Ptr → KeyShareVersion F) → Type 0
  Same h h' = (q : Ptr) → (h q).version ≡ (h' q).version

  pub find_version-Same :
      (t : ℤ) (h h' : Ptr → KeyShareVersion F) (ps : List Ptr)
      → Same h h'
      → find_version t h ps ≡ find_version t h' ps
  unfolding find_version
  find_version-Same t h h' [] s = refl
  find_version-Same t h h' (p ∷ ps) s = rw (s p, find_version-Same t h h' ps s) refl

  add_version-Same : (p : Ptr) (ks : KeyStore F) → Same (add_version p ks).object ks.object
  unfolding add_version
  add_version-Same p ks q = elim (Bool-cases (ks.object p).is_active) [
    | inl y ↦ rw (y, add_version) (clear_active-version ks.active_version ks.object q)
    | inr n ↦ rw (n, add_version) refl
  ]

  add_version-poisoned : (p : Ptr) (ks : KeyStore F) → (add_version p ks).poisoned ≡ ks.poisoned
  unfolding add_version
  add_version-poisoned p ks = elim (Bool-cases (ks.object p).is_active) [
    | inl y ↦ rw (y, add_version) refl
    | inr n ↦ rw (n, add_version) refl
  ]

  pub add_versions-Same :
      (ps : List Ptr) (ks : KeyStore F) → Same (add_versions ps ks).object ks.object
  unfolding add_versions
  add_versions-Same [] ks q = refl
  add_versions-Same (p ∷ ps) ks q =
      add_versions-Same ps (add_version p ks) q ∙ add_version-Same p ks q

  pub add_versions-poisoned :
      (ps : List Ptr) (ks : KeyStore F) → (add_versions ps ks).poisoned ≡ ks.poisoned
  unfolding add_versions
  add_versions-poisoned [] ks = refl
  add_versions-poisoned (p ∷ ps) ks =
      add_versions-poisoned ps (add_version p ks) ∙ add_version-poisoned p ks

  -- Poisoning changes only the set.
  pub mark_all-eq :
      (vs : List ℤ) (ks : KeyStore F)
      → mark_all vs ks ≡ record ks { poisoned = (mark_all vs ks).poisoned }
  unfolding mark_all mark_poisoned
  mark_all-eq [] ks = refl
  mark_all-eq (v ∷ vs) ks = elim (Bool-cases (is_poisoned v ks)) [
    | inl y ↦ rw (y, mark_all) (mark_all-eq vs ks)
    | inr n ↦ rw (n, mark_all) (mark_all-eq vs (record ks { poisoned = v ∷ ks.poisoned }))
  ]

  pub is_poisoned-mark_all :
      (vs : List ℤ) (ks : KeyStore F) (v : ℤ)
      → is_poisoned v (mark_all vs ks) ≡ (contains vs v || is_poisoned v ks)
  unfolding mark_all contains
  is_poisoned-mark_all [] ks v = refl
  is_poisoned-mark_all (w ∷ vs) ks v =
      ground
        (arith, is_poisoned-mark_all vs (mark_poisoned w ks) v, is_poisoned-mark_poisoned w v ks)
