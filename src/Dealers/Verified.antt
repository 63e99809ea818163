-- ===== src/Dealers/Verified.antt =====
-- reshare.go, VerifyDealerSourceVersions: the dealers whose versions are bound to the chain.
use eigenx_kms_go.Prelude.{
  ℕ, ◌≡◌, refl, sym, ap, ◌∙◌, true, ◌&&◌, Option, none, some, List, [], ◌∷◌, arith, if◌then◌else◌,
  contains, nat_eq, bytes_eq, list_beq_iff, ==_iff,
}
use eigenx_kms_go.Prelude.Int.{ℤ}
use eigenx_kms_go.Types.{Address, G2Point, Hash}
use eigenx_kms_go.Crypto.{hash_reshare_commitment}
use eigenx_kms_go.Crypto.Messages.{hash_reshare_commitment-binds, IsInt64}
use eigenx_kms_go.Dealers.{
  dealer_checks, is_verified, verified_dealers, verified_versions, verify_dealer_source_versions,
}

module _ (sha256 : List ℕ → Hash) (on_chain : Address → Option Hash)
    (commitments_by_dealer : Address → List G2Point) (source_versions : Address → Option ℤ) where
  contains-verified :
      (agreed : List Address) (d : Address)
      → contains (verified_dealers sha256 on_chain commitments_by_dealer source_versions agreed) d
        ≡ (contains agreed d && is_verified sha256 on_chain commitments_by_dealer source_versions d)
  unfolding verified_dealers contains
  contains-verified [] d = refl
  contains-verified (a ∷ agreed) d = ground (arith, contains-verified agreed d, ==_iff a d)

  versions-verified :
      (agreed : List Address) (d : Address)
      → verified_versions sha256 on_chain commitments_by_dealer source_versions agreed d ≡ (
          if contains agreed d
            && is_verified sha256 on_chain commitments_by_dealer source_versions d
          then source_versions d
          else none)
  unfolding verified_versions contains
  versions-verified [] d = refl
  versions-verified (a ∷ agreed) d = ground (arith, versions-verified agreed d, ==_iff a d)

  -- A dealer is verified exactly if it is agreed, its hash is on chain, and its commitments, which are
  -- not empty, and its source version hash to it. Its verified version is the one that it advertised,
  -- and a dealer that is not verified has none.
  pub verify_dealer_source_versions_lem :
      (agreed : List Address) (d : Address)
      → let r =
          verify_dealer_source_versions sha256 on_chain commitments_by_dealer source_versions
            agreed in
        let checks = is_verified sha256 on_chain commitments_by_dealer source_versions d in
        (contains r.0 d ≡ (contains agreed d && checks))
        × (r.1 d ≡ (if contains agreed d && checks then source_versions d else none))
  unfolding verify_dealer_source_versions
  verify_dealer_source_versions_lem agreed d =
      (contains-verified agreed d, versions-verified agreed d)

-- What a dealer that passes has shown.
dealer_checks-true :
    (sha256 : List ℕ → Hash) (h : Hash) (cs : List G2Point) (o : Option ℤ)
    → dealer_checks sha256 (some h) cs o ≡ true
    → (v : ℤ) × (o ≡ some v) × (hash_reshare_commitment sha256 cs v ≡ h)
unfolding dealer_checks
dealer_checks-true sha256 h cs none e = cc
dealer_checks-true sha256 h cs (some v) e =
    (v, refl, (list_beq_iff (hash_reshare_commitment sha256 cs v) h).0 (ground arith))

some_of_checks :
    (sha256 : List ℕ → Hash) (o : Option Hash) (cs : List G2Point) (v : Option ℤ)
    → dealer_checks sha256 o cs v ≡ true
    → (h : Hash) × (o ≡ some h)
unfolding dealer_checks
some_of_checks sha256 none cs v e = cc
some_of_checks sha256 (some h) cs v e = (h, refl)

-- Two nodes that verify one dealer against the same hash on chain hold the same source version of it,
-- whatever the dealer sent to each of them, if SHA-256 has no collision and the versions are in the
-- range of int64.
pub verified_version_agrees :
    (sha256 : List ℕ → Hash) (on_chain : Address → Option Hash) (cs cs' : Address → List G2Point)
    (vs vs' : Address → Option ℤ) (d : Address)
    → ((xs ys : List ℕ) → sha256 xs ≡ sha256 ys → xs ≡ ys)
    → ((v : ℤ) → vs d ≡ some v → IsInt64 v)
    → ((v : ℤ) → vs' d ≡ some v → IsInt64 v)
    → is_verified sha256 on_chain cs vs d ≡ true
    → is_verified sha256 on_chain cs' vs' d ≡ true
    → vs d ≡ vs' d
verified_version_agrees sha256 on_chain cs cs' vs vs' d collision_free range range' a b =
    let (h, e) = some_of_checks sha256 (on_chain d) (cs d) (vs d) a in
    let (v, p, x) = dealer_checks-true sha256 h (cs d) (vs d) (rw e at a) in
    let (w, q, y) = dealer_checks-true sha256 h (cs' d) (vs' d) (rw e at b) in
    let r =
      hash_reshare_commitment-binds sha256 (cs d) (cs' d) v w collision_free (range v p)
        (range' w q) (x ∙ sym y) in
    p ∙ (ap some r.0 ∙ sym q)
