-- ===== src/Crypto/Messages.antt =====
-- crypto/bls.go, node.go: what the hashed and signed byte strings determine.
use eigenx_kms_go.Prelude.{ℕ, ◌^◌, ◌<◌, ◌≡◌, sym, ap, ◌∙◌, List, ◌++◌, arith, length, length-append}
use eigenx_kms_go.Prelude.Int.{ℤ, pos, negsuc}
use eigenx_kms_go.Prelude.Bytes.{be_bytes, be_bytes-injective, length-be_bytes, append-injective}
use eigenx_kms_go.Types.{Address, Hash, G2Point}
use eigenx_kms_go.Crypto.{
  to_uint64, address_bytes, timestamp_bytes, commitment_bytes, hash_reshare_commitment,
  build_acknowledgement_signing_message,
}

-- The values of an int64.
abbrev pub IsInt64 : ℤ → Type 0
IsInt64 (pos n) = n < 2 ^ 63
IsInt64 (negsuc n) = n < 2 ^ 63

-- The values of an address.
abbrev pub IsAddress : Address → Type 0
IsAddress a = a < 256 ^ 20

to_uint64-lt : (v : ℤ) → to_uint64 v < 256 ^ 8
to_uint64-lt (pos n) = omega arith
to_uint64-lt (negsuc n) = omega arith

to_uint64-injective : (v w : ℤ) → IsInt64 v → IsInt64 w → to_uint64 v ≡ to_uint64 w → v ≡ w
to_uint64-injective (pos n) (pos m) a b e = ap pos (omega arith)
to_uint64-injective (pos n) (negsuc m) a b e = absurd (omega arith)
to_uint64-injective (negsuc n) (pos m) a b e = absurd (omega arith)
to_uint64-injective (negsuc n) (negsuc m) a b e = ap negsuc (omega arith)

timestamp_bytes-injective :
    (v w : ℤ) → IsInt64 v → IsInt64 w → timestamp_bytes v ≡ timestamp_bytes w → v ≡ w
timestamp_bytes-injective v w a b e =
    to_uint64-injective v w a b
      (be_bytes-injective 8 (to_uint64 v) (to_uint64 w) (to_uint64-lt v) (to_uint64-lt w) e)

length-fixed : (k n m : ℕ) → length (be_bytes k n) ≡ length (be_bytes k m)
length-fixed k n m = length-be_bytes k n ∙ sym (length-be_bytes k m)

-- Where SHA-256 has no collision, the reshare hash fixes the dealer's source version, and the bytes of
-- its commitments: one hash cannot stand for two source versions in the range of int64.
pub hash_reshare_commitment-binds :
    (sha256 : List ℕ → Hash) (cs ds : List G2Point) (v w : ℤ)
    → ((xs ys : List ℕ) → sha256 xs ≡ sha256 ys → xs ≡ ys)
    → IsInt64 v
    → IsInt64 w
    → hash_reshare_commitment sha256 cs v ≡ hash_reshare_commitment sha256 ds w
    → (v ≡ w) × (commitment_bytes cs ≡ commitment_bytes ds)
unfolding hash_reshare_commitment
hash_reshare_commitment-binds sha256 cs ds v w collision_free a b e =
    let r =
      append-injective (commitment_bytes cs) (commitment_bytes ds) (timestamp_bytes v)
        (timestamp_bytes w) (length-fixed 8 (to_uint64 v) (to_uint64 w)) (collision_free _ _ e) in
    (timestamp_bytes-injective v w a b r.1, r.0)

-- Equal concatenations with heads of one length.
append-injective_left :
    (us vs xs ys : List ℕ) → length us ≡ length vs → us ++ xs ≡ vs ++ ys → (us ≡ vs) × (xs ≡ ys)
append-injective_left us vs xs ys l e =
    append-injective us vs xs ys
      (omega (arith, ap length e, length-append us xs, length-append vs ys)) e

-- The signing message determines each of its fields, for addresses of 20 bytes, epochs in the range of
-- int64 and share hashes of 32 bytes: no acknowledgement can pass for another.
pub build_acknowledgement_signing_message-injective :
    (d d' p p' : Address) (t t' : ℤ) (s s' c c' : Hash)
    → IsAddress d
    → IsAddress d'
    → IsAddress p
    → IsAddress p'
    → IsInt64 t
    → IsInt64 t'
    → length s ≡ 32
    → length s' ≡ 32
    → build_acknowledgement_signing_message d p t s c
      ≡ build_acknowledgement_signing_message d' p' t' s' c'
    → (d ≡ d') × (p ≡ p') × (t ≡ t') × (s ≡ s') × (c ≡ c')
unfolding build_acknowledgement_signing_message
build_acknowledgement_signing_message-injective d d' p p' t t' s s' c c' hd hd' hp hp' ht ht' hs hs'
      e =
    let r₁ =
      append-injective_left (address_bytes d) (address_bytes d') _ _ (length-fixed 20 d d') e in
    let r₂ =
      append-injective_left (address_bytes p) (address_bytes p') _ _ (length-fixed 20 p p') r₁.1 in
    let r₃ =
      append-injective_left (timestamp_bytes t) (timestamp_bytes t') _ _
        (length-fixed 8 (to_uint64 t) (to_uint64 t')) r₂.1 in
    let r₄ = append-injective_left s s' c c' (hs ∙ sym hs') r₃.1 in
    (
      be_bytes-injective 20 d d' hd hd' r₁.0,
      be_bytes-injective 20 p p' hp hp' r₂.0,
      timestamp_bytes-injective t t' ht ht' r₃.0,
      r₄.0,
      r₄.1,
    )
