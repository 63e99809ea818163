-- ===== src/Recovery/Counted.antt =====
-- The loop of `gcd` in pkg/crypto/bls.go has enough fuel, and `binomial` is capped.
use eigenx_kms_go.Prelude.{ℕ, zero, suc, ◌%◌, ◌<◌, ◌≡◌, refl, arith}
use eigenx_kms_go.Recovery.{gcd_loop, gcd}

gcd_loop_enough : (n m a b : ℕ) → b < n → b < m → gcd_loop n a b ≡ gcd_loop m a b
unfolding gcd_loop
gcd_loop_enough zero m a b h k = absurd (omega arith)
gcd_loop_enough (suc n) zero a b h k = absurd (omega arith)
gcd_loop_enough (suc n) (suc m) a zero h k = refl
gcd_loop_enough (suc n) (suc m) a (suc b) h k =
    gcd_loop_enough n m (suc b) (a % suc b) (omega arith) (omega arith)

-- More fuel than `gcd` takes changes nothing.
pub gcd_enough : (n a b : ℕ) → b < n → gcd_loop n a b ≡ gcd a b
unfolding gcd
gcd_enough n a b h = gcd_loop_enough n (suc b) a b h (omega arith)
