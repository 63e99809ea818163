-- ===== src/Polynomial.antt =====
-- pkg/bls/polynomial.go: polynomials that share a secret, their shares and the interpolation that
-- recovers the secret. `Library` is what the file takes from gnark-crypto and go-ethereum.
pub mod Coefficients
pub mod Interpolation
pub mod Recovered
pub mod Total
use eigenx_kms_go.Prelude.{
  ℕ, zero, suc, ◌+◌, Bool, true, false, Option, none, some, List, [], ◌∷◌, Result, ok, err, ◌>>=◌,
  or_error, ◌==◌, if◌then◌else◌, ◌≡◌, nat_eq,
}
use eigenx_kms_go.Prelude.Maps.{insert, keys}
use eigenx_kms_go.Types.{Address}
use eigenx_kms_go.Crypto.{address_bytes}
use eigenx_kms_go.Field.{Field, ◌⊕◌, ◌⊗◌, ◌⊖◌}

-- `crypto.Keccak256`, `fr.Element.SetBytes` and `polynomial.Polynomial.Eval`. A polynomial is the
-- list of its coefficients, the constant first; `Eval` of no coefficients is left open.
pub record Library {ℓ} (F : Type ℓ) (f : Field F) : Type ℓ where
  pub keccak256 : List ℕ → List ℕ
  pub set_bytes : List ℕ → F
  pub eval : List F → F → F
  pub eval_constant : (c x : F) → eval (c ∷ []) x ≡ c
  pub eval_step :
      (c d : F) (cs : List F) (x : F) → eval (c ∷ d ∷ cs) x ≡ f.add c (f.mul x (eval (d ∷ cs) x))

pub data SecretError : Type 0 where
  no_randomness : SecretError
  secret_is_zero : SecretError

module _ {ℓ} {F : Type ℓ} ⦃f : Field F⦄ where
  -- The draws of `SetRandom`: number `i` fails or gives an element.
  unfoldable pub draw : (ℕ → Option F) → ℕ → ℕ → Result SecretError (List F)
  draw random i zero = ok []
  draw random i (suc n) =
      or_error no_randomness (random i) >>= λ c. draw random (suc i) n >>= λ cs. ok (c ∷ cs)

  unfoldable pub generate_polynomial : (ℕ → Option F) → F → ℕ → Result SecretError (List F)
  unfolding draw
  generate_polynomial random secret degree = draw random 1 degree >>= λ cs. ok (secret ∷ cs)

module _ {ℓ} {F : Type ℓ} ⦃f : Field F⦄ (l : Library F f) where
  unfoldable pub address_to_fr : Address → F
  address_to_fr a = l.set_bytes (l.keccak256 (address_bytes a))

  unfoldable pub evaluate_polynomial : List F → Address → F
  unfolding address_to_fr
  evaluate_polynomial poly a = l.eval poly (address_to_fr a)

  unfoldable pub lagrange_loop : Address → List Address → F → F → F
  unfolding address_to_fr
  lagrange_loop i [] numerator denominator = f.inv denominator ⊗ numerator
  lagrange_loop i (j ∷ js) numerator denominator =
      lagrange_loop i js (if i == j then numerator else numerator ⊗ f.neg (address_to_fr j))
        (if i == j then denominator else denominator ⊗ (address_to_fr i ⊖ address_to_fr j))

  unfoldable pub compute_lagrange_coefficient : Address → List Address → F
  unfolding lagrange_loop
  compute_lagrange_coefficient i participants = lagrange_loop i participants f.one f.one

  unfoldable pub recover_loop : List Address → List (Address × F) → F → F
  unfolding compute_lagrange_coefficient
  recover_loop participants [] secret = secret
  recover_loop participants ((a, share) ∷ m) secret =
      recover_loop participants m (secret ⊕ compute_lagrange_coefficient a participants ⊗ share)

  -- The two loops over the map may visit it in two orders: `first` and `second` of this run.
  unfoldable pub recover_secret :
      (List (Address × F) → List (Address × F))
      → (List (Address × F) → List (Address × F))
      → List (Address × F)
      → Result SecretError F
  unfolding recover_loop
  recover_secret first second shares =
      let secret = recover_loop (keys (first shares)) (second shares) f.zero in
      if f.is_zero secret then err secret_is_zero else ok secret

  unfoldable pub shares_loop : List F → List Address → List (Address × F) → List (Address × F)
  unfolding evaluate_polynomial
  shares_loop poly [] shares = shares
  shares_loop poly (a ∷ rest) shares =
      shares_loop poly rest (insert a (evaluate_polynomial poly a) shares)

  unfoldable pub generate_shares : List F → List Address → List (Address × F)
  unfolding shares_loop
  generate_shares poly participants = shares_loop poly participants []
