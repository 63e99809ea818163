-- ===== src/Prelude/Results.antt =====
-- A value or an error, for the pairs `(value, error)` that Go functions return.
use mathlib.Core.Path.{◌≡◌, refl, sym, ap}
use mathlib.Core.Logic.{◌⊎◌, ◌↔◌, inl, inr}
use mathlib.Core.Bool.{Bool, true, false}
use eigenx_kms_go.Prelude.Tests.{true_and_false}
use mathlib.Core.Option.{Option, none, some}

pub data Result {ℓ κ} (E : Type κ) (A : Type ℓ) : Type (ℓ ⊔ κ) where
  ok : A → Result E A
  err : E → Result E A

infixl 5 ◌>>=◌ ◌>>◌
abbrev pub ◌>>=◌ {ℓ κ μ} :
    {E : Type μ} {A : Type ℓ} {B : Type κ} → Result E A → (A → Result E B) → Result E B
ok a >>= f = f a
err e >>= f = err e

abbrev pub ◌>>◌ {ℓ μ} : {E : Type μ} {B : Type ℓ} → Result E (Unit {0}) → Result E B → Result E B
m >> k = m >>= λ _. k

-- `if !ok { return err }`
abbrev pub guard {μ} : {E : Type μ} → Bool → E → Result E (Unit {0})
guard true e = ok tt
guard false e = err e

-- An error wrapped in another (`fmt.Errorf("...: %w", err)`), and an absent value as an error.
abbrev pub with_error {ℓ κ μ} :
    {E : Type κ} {E' : Type μ} {A : Type ℓ} → (E → E') → Result E A → Result E' A
with_error wrap (ok a) = ok a
with_error wrap (err e) = err (wrap e)

abbrev pub or_error {ℓ κ} : {E : Type κ} {A : Type ℓ} → E → Option A → Result E A
or_error e none = err e
or_error e (some a) = ok a

-- What holds of the value if there is one.
abbrev pub WhenOk {ℓ κ μ} : {E : Type κ} {A : Type ℓ} → (A → Type μ) → Result E A → Type μ
WhenOk P (ok a) = P a
WhenOk P (err e) = Unit

pub ok-injective {ℓ κ} :
    {E : Type κ} {A : Type ℓ} {a b : A} → ◌≡◌ {A = Result E A} (ok a) (ok b) → a ≡ b
ok-injective e = cc

pub bind-WhenOk {ℓ κ μ ν ξ} :
    {E : Type ξ} {A : Type ℓ} {B : Type κ} {P : A → Type μ} (Q : B → Type ν) (r : Result E A)
    (f : A → Result E B)
    → WhenOk P r
    → ((a : A) → P a → WhenOk Q (f a))
    → WhenOk Q (r >>= f)
bind-WhenOk Q (ok a) f h k = k a h
bind-WhenOk Q (err e) f h k = tt

-- A step that succeeds goes on with its value.
pub bind-ok {ℓ κ μ} :
    {E : Type μ} {A : Type ℓ} {B : Type κ} {r : Result E A} {a : A} (f : A → Result E B)
    → r ≡ ok a
    → (r >>= f) ≡ f a
bind-ok f e = ap (λ s. s >>= f) e

pub Result-cases {ℓ κ} :
    {E : Type κ} {A : Type ℓ} (r : Result E A) → ((a : A) × (r ≡ ok a)) ⊎ ((e : E) × (r ≡ err e))
Result-cases (ok a) = inl (a, refl)
Result-cases (err e) = inr (e, refl)

pub ok_or_err {ℓ κ μ} :
    {E : Type κ} {A : Type ℓ} {C : Type μ} {a : A} {e : E} → ◌≡◌ {A = Result E A} (ok a) (err e) → C
ok_or_err h = absurd cc

pub WhenOk-any {ℓ κ} : {E : Type κ} {A : Type ℓ} (r : Result E A) → WhenOk (λ _. Unit {0}) r
WhenOk-any (ok a) = tt
WhenOk-any (err e) = tt

pub guard_iff {ℓ κ} :
    {E : Type ℓ} {Q : Type κ} (b : Bool) (e : E)
    → (b ≡ true) ↔ Q
    → ((guard b e ≡ ok tt) ↔ Q) × (¬ Q → guard b e ≡ err e)
guard_iff true e t = ((λ _. t.0 refl, λ _. refl), λ n. absurd (n (t.0 refl)))
guard_iff false e t =
    ((λ h. ok_or_err (sym h), λ q. absurd (true_and_false (t.1 q) refl)), λ _. refl)
