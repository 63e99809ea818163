-- ===== src/Tests/Scalars.antt =====
-- A field of three elements, with itself as the group, for runs of the modelled code.
use eigenx_kms_go.Prelude.{
  ℕ, ◌%◌, ◌≡◌, ◌≢◌, ◌↔◌, refl, sym, Bool, true, false, Option, none, some, List, [], ◌∷◌, ltb, ◌==◌,
  if◌then◌else◌, arith,
}
use eigenx_kms_go.Field.{Field}
use eigenx_kms_go.Polynomial.{Library}
use eigenx_kms_go.Curve.{Curve, combination}

pub data Scalar : Type 0 where
  nought : Scalar
  unit : Scalar
  twice : Scalar

abbrev pub plus : Scalar → Scalar → Scalar
plus nought b = b
plus unit nought = unit
plus unit unit = twice
plus unit twice = nought
plus twice nought = twice
plus twice unit = nought
plus twice twice = unit

abbrev pub times : Scalar → Scalar → Scalar
times nought b = nought
times unit b = b
times twice nought = nought
times twice unit = twice
times twice twice = unit

abbrev pub minus : Scalar → Scalar
minus nought = nought
minus unit = twice
minus twice = unit

abbrev pub is_nought : Scalar → Bool
is_nought nought = true
is_nought unit = false
is_nought twice = false

pub plus_assoc : (a b c : Scalar) → plus (plus a b) c ≡ plus a (plus b c)
plus_assoc a b c = ground arith

pub plus_comm : (a b : Scalar) → plus a b ≡ plus b a
plus_comm a b = ground arith

pub plus-minus : (a : Scalar) → plus a (minus a) ≡ nought
plus-minus a = ground arith

pub times_assoc : (a b c : Scalar) → times (times a b) c ≡ times a (times b c)
times_assoc a b c = ground arith

pub times_comm : (a b : Scalar) → times a b ≡ times b a
times_comm a b = ground arith

pub times-plus : (a b c : Scalar) → times a (plus b c) ≡ plus (times a b) (times a c)
times-plus a b c = ground arith

pub times-inverse : (a : Scalar) → a ≢ nought → times a a ≡ unit
times-inverse nought n = absurd (n refl)
times-inverse unit n = refl
times-inverse twice n = refl

pub is_nought_iff : (a : Scalar) → (is_nought a ≡ true) ↔ (a ≡ nought)
is_nought_iff a = ground arith

pub unit_ne_nought : unit ≢ nought
unit_ne_nought e = ground arith

instance abbrev pub scalars : Field Scalar
scalars = record {
  zero = nought;
  one = unit;
  add = plus;
  mul = times;
  neg = minus;
  sub = λ a b. plus a (minus b);
  inv = λ a. a;
  is_zero = is_nought;
  add_assoc = plus_assoc;
  add_comm = plus_comm;
  zero-add = λ a. refl;
  add-neg = plus-minus;
  sub_lem = λ a b. refl;
  mul_assoc = times_assoc;
  mul_comm = times_comm;
  one-mul = λ a. refl;
  mul-add = times-plus;
  mul-inv = times-inverse;
  is_zero_iff = is_nought_iff;
}

abbrev pub scalar_of : ℕ → Scalar
scalar_of n = if n % 3 == 0 then nought else (if n % 3 == 1 then unit else twice)

abbrev pub last_byte : List ℕ → Scalar
last_byte [] = nought
last_byte (b ∷ []) = scalar_of b
last_byte (b ∷ d ∷ bs) = last_byte (d ∷ bs)

abbrev pub horner_value : List Scalar → Scalar → Scalar
horner_value [] x = nought
horner_value (c ∷ cs) x = plus c (times x (horner_value cs x))

pub horner_value_constant : (c x : Scalar) → horner_value (c ∷ []) x ≡ c
horner_value_constant c x = ground arith

abbrev pub library : Library Scalar scalars
library = record {
  keccak256 = λ bs. bs;
  set_bytes = last_byte;
  eval = horner_value;
  eval_constant = horner_value_constant;
  eval_step = λ c d cs x. refl;
}

abbrev pub encode : Scalar → List ℕ
encode nought = 0 ∷ []
encode unit = 1 ∷ []
encode twice = 2 ∷ []

abbrev pub decode : List ℕ → Option Scalar
decode [] = none
decode (b ∷ []) = if ltb b 3 then some (scalar_of b) else none
decode (b ∷ d ∷ bs) = none

pub decode-encode : (p : Scalar) → decode (encode p) ≡ some p
decode-encode nought = refl
decode-encode unit = refl
decode-encode twice = refl

pub distribute : (p k m : Scalar) → plus (times p k) (times p m) ≡ times p (plus k m)
distribute p k m = sym (times-plus p k m)

abbrev pub scalar_equal : Scalar → Scalar → Bool
scalar_equal a b = is_nought (plus a (minus b))

pub scalar_equal_iff : (a b : Scalar) → (scalar_equal a b ≡ true) ↔ (a ≡ b)
scalar_equal_iff a b = ground arith

abbrev pub curve : Curve Scalar scalars Scalar
curve = record {
  generator = unit;
  infinity = nought;
  set_bytes = decode;
  bytes = encode;
  marshal = encode;
  is_in_sub_group = λ p. true;
  is_infinity = is_nought;
  point_equal = scalar_equal;
  add = plus;
  scalar_multiplication = times;
  multi_exp = λ ps ks. some (combination plus times nought ps ks);
  generator_in = refl;
  multiple_in = λ p k h. refl;
  set_bytes-bytes = λ p h. decode-encode p;
  set_bytes-marshal = λ p h. decode-encode p;
  add-multiples = λ p k m h. distribute p k m;
  multiple-multiple = λ p k m h. times_assoc p k m;
  multiple-zero = refl;
  multiple_injective = λ k m e. e;
  multi_exp_lem = λ ps ks e. refl;
  is_infinity_iff = is_nought_iff;
  point_equal_iff = scalar_equal_iff;
}

pub twice_ne_nought : twice ≢ nought
twice_ne_nought e = ground arith
