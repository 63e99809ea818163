-- ===== src/Prelude/Maps.antt =====
-- Go's maps as association lists. An iteration visits the entries in the order of the list, so a
-- statement that must hold for every order ranges over every list.
use Prim.Native.Nat.{suc}
use mathlib.Core.Path.{◌≡◌, refl, ap}
use mathlib.Core.List.{List, [], ◌∷◌, Permᴰ}
use mathlib.Core.Option.{Option, none, some}
use native.Mathlib.Omega.{arith}
use eigenx_kms_go.Prelude.Tests.{if◌then◌else◌}
use eigenx_kms_go.Prelude.Lists.{length}
use eigenx_kms_go.Prelude.Classes.{Eq}

module _ {ℓ κ} {K : Type ℓ} {V : Type κ} ⦃e : Eq K⦄ where
  unfoldable pub lookup : K → List (K × V) → Option V
  lookup k [] = none
  lookup k ((j, v) ∷ m) = if e.beq j k then some v else lookup k m

  -- `m[k] = v`
  unfoldable pub insert : K → V → List (K × V) → List (K × V)
  insert k v [] = (k, v) ∷ []
  insert k v ((j, w) ∷ m) = if e.beq j k then (k, v) ∷ m else (j, w) ∷ insert k v m

  -- `delete(m, k)`
  unfoldable pub delete : K → List (K × V) → List (K × V)
  delete k [] = []
  delete k ((j, w) ∷ m) = if e.beq j k then delete k m else (j, w) ∷ delete k m

  unfoldable pub keys : List (K × V) → List K
  keys [] = []
  keys ((j, w) ∷ m) = j ∷ keys m

  pub lookup-insert :
      (k j : K) (v : V) (m : List (K × V))
      → lookup j (insert k v m) ≡ (if e.beq k j then some v else lookup j m)
  unfolding lookup insert
  lookup-insert k j v [] = refl
  lookup-insert k j v ((i, w) ∷ m) =
      ground (arith, e.beq_iff k j, e.beq_iff i k, e.beq_iff i j, lookup-insert k j v m)

  pub lookup-delete :
      (k j : K) (m : List (K × V))
      → lookup j (delete k m) ≡ (if e.beq k j then none else lookup j m)
  unfolding lookup delete
  lookup-delete k j [] = ground arith
  lookup-delete k j ((i, w) ∷ m) =
      ground (arith, e.beq_iff k j, e.beq_iff i k, e.beq_iff i j, lookup-delete k j m)

  pub keys_perm : {m n : List (K × V)} → Permᴰ m n → Permᴰ (keys m) (keys n)
  unfolding keys
  keys_perm Permᴰ.nil = Permᴰ.nil
  keys_perm (Permᴰ.cons e p) = Permᴰ.cons (ap (λ x. x.0) e) (keys_perm p)
  keys_perm (Permᴰ.swap e d) = Permᴰ.swap (ap (λ x. x.0) e) (ap (λ x. x.0) d)
  keys_perm (Permᴰ.trans p q) = Permᴰ.trans (keys_perm p) (keys_perm q)

  pub length-keys : (m : List (K × V)) → length (keys m) ≡ length m
  unfolding keys
  length-keys [] = refl
  length-keys (x ∷ m) = ap suc (length-keys m)
