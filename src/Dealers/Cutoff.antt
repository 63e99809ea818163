-- ===== src/Dealers/Cutoff.antt =====
-- node.go, resolveCutoffL2: the height that the trigger block pins.
use eigenx_kms_go.Prelude.{ℕ, ◌≡◌, Bool, Option, none, some, List, [], ◌∷◌, All, subst}
use eigenx_kms_go.Config.{ChainId}
use eigenx_kms_go.Dealers.{
  View, Attempt, got, failed, deadline_block, resolve_cutoff_l2, attempt_of, cutoff_attempts,
}

-- Every attempt that succeeds gives the value.
abbrev pub Tells : {A : Type 0} → A → List (Attempt A) → Type 0
Tells v [] = Unit
Tells v (got a ∷ ats) = (a ≡ v) × Tells v ats
Tells v (failed b ∷ ats) = Tells v ats

abbrev pub Agrees : ℕ → Option ℕ → Type 0
Agrees x none = Unit
Agrees x (some y) = y ≡ x

-- What the attempt finds, where it finds something, is what L1 and L2 hold.
abbrev pub IsView : (ℕ → ℕ) → (ℕ → ℕ) → View → Type 0
IsView l1 l2 v =
    ((b : ℕ) → Agrees (l1 b) (v.header_timestamp_at b))
    × ((t : ℕ) → Agrees (l2 t) (v.first_block_at_or_after_timestamp t))

module _ (l1 l2 : ℕ → ℕ) (chain : ChainId) (trigger : ℕ) where
  -- The height that the trigger block pins.
  abbrev pub cutoff_height : ℕ
  cutoff_height = l2 (l1 (deadline_block chain trigger))

  resolve-Agrees :
      (v : View) → IsView l1 l2 v → Agrees cutoff_height (resolve_cutoff_l2 chain trigger v)
  unfolding resolve_cutoff_l2
  resolve-Agrees v h = found (v.header_timestamp_at b) (h.0 b)
    where
      b : ℕ
      b = deadline_block chain trigger

      found :
          (o : Option ℕ)
          → Agrees (l1 b) o
          → Agrees cutoff_height
              (elim o [ none ↦ none | some t ↦ v.first_block_at_or_after_timestamp t ])
      found none e = tt
      found (some t) e =
          subst (λ x. Agrees (l2 x) (v.first_block_at_or_after_timestamp t)) e (h.1 t)

  attempt-Tells :
      (late : Bool) (o : Option ℕ) (rest : List (Attempt ℕ))
      → Agrees cutoff_height o
      → Tells cutoff_height rest
      → Tells cutoff_height (attempt_of late o ∷ rest)
  attempt-Tells late none rest a h = h
  attempt-Tells late (some x) rest a h = (a, h)

  pub cutoff_attempts-Tells :
      (views : List View)
      → All (IsView l1 l2) views
      → Tells cutoff_height (cutoff_attempts chain trigger views)
  unfolding cutoff_attempts
  cutoff_attempts-Tells [] h = tt
  cutoff_attempts-Tells (v ∷ views) h =
      attempt-Tells v.late (resolve_cutoff_l2 chain trigger v) (cutoff_attempts chain trigger views)
        (resolve-Agrees v h.0) (cutoff_attempts-Tells views h.1)
