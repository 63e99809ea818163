-- ===== src/Prelude/Bytes.antt =====
-- Big-endian bytes of fixed width, and equal concatenations.
use Prim.Native.Nat.{ℕ, zero, suc, ◌/◌, ◌%◌, ◌^◌, ◌<◌}
use mathlib.Core.Path.{◌≡◌, refl, ap}
use mathlib.Core.List.{List, [], ◌∷◌, ◌++◌}
use native.Mathlib.Nat.{pow-suc}
use native.Mathlib.Omega.{arith}
use eigenx_kms_go.Prelude.Lists.{length, length-append}

-- The `k` low bytes of `n`, the most significant first: `binary.BigEndian` for k = 8.
unfoldable pub be_bytes : ℕ → ℕ → List ℕ
be_bytes zero n = []
be_bytes (suc k) n = be_bytes k (n / 256) ++ (n % 256 ∷ [])

pub length-be_bytes : (k n : ℕ) → length (be_bytes k n) ≡ k
unfolding be_bytes
length-be_bytes zero n = refl
length-be_bytes (suc k) n =
    omega (arith, length-append (be_bytes k (n / 256)) (n % 256 ∷ []), length-be_bytes k (n / 256))

-- Two concatenations with tails of one length are equal only part by part.
pub append-injective {ℓ} :
    {A : Type ℓ} (xs ys us vs : List A)
    → length us ≡ length vs
    → xs ++ us ≡ ys ++ vs
    → (xs ≡ ys) × (us ≡ vs)
append-injective [] [] us vs l e = (refl, e)
append-injective [] (y ∷ ys) us vs l e = absurd (omega (arith, ap length e, length-append ys vs))
append-injective (x ∷ xs) [] us vs l e = absurd (omega (arith, ap length e, length-append xs us))
append-injective (x ∷ xs) (y ∷ ys) us vs l e =
    let r = append-injective xs ys us vs l (cc) in let h : x ≡ y = cc in (cc (r.0), r.1)

pub be_bytes-injective :
    (k n m : ℕ) → n < 256 ^ k → m < 256 ^ k → be_bytes k n ≡ be_bytes k m → n ≡ m
unfolding be_bytes
be_bytes-injective zero n m a b e = omega arith
be_bytes-injective (suc k) n m a b e =
    let (h, t) =
      append-injective (be_bytes k (n / 256)) (be_bytes k (m / 256)) (n % 256 ∷ []) (m % 256 ∷ [])
        refl e in
    let q =
      be_bytes-injective k (n / 256) (m / 256) (omega (arith, pow-suc 256 k))
        (omega (arith, pow-suc 256 k)) h in
    let r : n % 256 ≡ m % 256 = cc in omega arith
