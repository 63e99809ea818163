-- ===== src/Dkg/Finalized.antt =====
-- The key share that pkg/dkg/dkg.go finalizes: a share of the sum of the dealers' polynomials.
use eigenx_kms_go.Prelude.{
  ℕ, zero, suc, ◌<◌, ◌≤◌, ◌≡◌, ◌≢◌, refl, sym, ap, ◌∙◌, true, ◌==◌, some, List, [], ◌∷◌, All, ok,
  err, map, length, length-map, replicate, if◌then◌else◌, arith, nat_eq,
}
use mathlib.Core.List.{Permᴰ}
use mathlib.Core.Option.{some-injective}
use eigenx_kms_go.Prelude.Maps.{keys}
use eigenx_kms_go.Types.{Address, G2Point}
use eigenx_kms_go.Field.{Field, ◌⊕◌, add-zero}
use eigenx_kms_go.Field.Sums.{sum, sum_perm}
use eigenx_kms_go.Polynomial.{
  Library, address_to_fr, evaluate_polynomial, recover_secret, secret_is_zero,
}
use eigenx_kms_go.Polynomial.Interpolation.{value, constant_of, IsSeparated}
use eigenx_kms_go.Polynomial.Recovered.{evaluate-value, evaluate-value_lem, recover_secret-value}
use eigenx_kms_go.Polynomial.Total.{
  plus, total, total_of, length-total_of, value-total_of, constant_of-total_of,
}
use eigenx_kms_go.Curve.{Curve, zero_g2_point}
use eigenx_kms_go.Curve.Multiples.{g2_multiple, add_g2-multiples, add_g2-zero}
use eigenx_kms_go.Dkg.{
  Dkg, add_shares, or_keep, add_each, combine_loop, combine_commitments, finalize_key_share,
  verify_share,
}
use eigenx_kms_go.Dkg.Dealt.{verify_share-multiples}

module _ {F : Type 0} ⦃f : Field F⦄ where
  add_shares_lem : (m : List (Address × F)) (acc : F) → add_shares m acc ≡ acc ⊕ sum m (λ e. e.1)
  unfolding add_shares sum
  add_shares_lem [] acc = sym (add-zero acc)
  add_shares_lem ((a, s) ∷ m) acc =
      add_shares_lem m (acc ⊕ s) ∙ f.add_assoc acc s (sum m (λ e. e.1))

module _ {κ} {F : Type 0} ⦃f : Field F⦄ {P : Type κ} (c : Curve F f P) where
  add_each-multiples :
      (ps ds : List F)
      → add_each c (map (g2_multiple c) ps) (map (g2_multiple c) ds)
        ≡ map (g2_multiple c) (plus ps ds)
  unfolding add_each plus
  add_each-multiples [] ds = refl
  add_each-multiples (p ∷ ps) [] = refl
  add_each-multiples (p ∷ ps) (d ∷ ds) = rw (add_g2-multiples c p d, add_each-multiples ps ds) refl

  length-multiples :
      (n : ℕ) (g : List F) → length g ≡ n → length (map (g2_multiple c) g) == n ≡ true
  length-multiples n g e = ground (arith, length-map (g2_multiple c) g)

  combine_loop-multiples :
      (n : ℕ) (gs : List (List F)) (acc : List F)
      → All (λ g. length g ≡ n) gs
      → combine_loop c n (map (map (g2_multiple c)) gs) (map (g2_multiple c) acc)
        ≡ map (g2_multiple c) (total acc gs)
  unfolding combine_loop total
  combine_loop-multiples n [] acc h = refl
  combine_loop-multiples n (g ∷ gs) acc h =
      let rest = map (map (g2_multiple c)) gs in
      let ps = map (g2_multiple c) acc in
      let ds = map (g2_multiple c) g in
      ap (λ b. combine_loop c n rest (if b then add_each c ps ds else ps))
        (length-multiples n g h.0)
      ∙ (ap (combine_loop c n rest) (add_each-multiples acc g)
          ∙ combine_loop-multiples n gs (plus acc g) h.1)

  add_each-zero :
      (n : ℕ) (ds : List F)
      → length ds ≡ n
      → add_each c (replicate n (zero_g2_point c)) (map (g2_multiple c) ds)
        ≡ map (g2_multiple c) (plus (replicate n f.zero) ds)
  unfolding add_each plus
  add_each-zero zero ds e = refl
  add_each-zero (suc n) [] e = absurd (omega arith)
  add_each-zero (suc n) (d ∷ ds) e =
      ap (λ p. p ∷ add_each c (replicate n (zero_g2_point c)) (map (g2_multiple c) ds))
        (ap (or_keep c (zero_g2_point c)) (add_g2-zero c d))
      ∙ ap (λ ps. g2_multiple c (f.zero ⊕ d) ∷ ps) (add_each-zero n ds (omega arith))

  pub combine_commitments-total :
      (n : ℕ) (g : List F) (gs : List (List F))
      → All (λ g'. length g' ≡ n) (g ∷ gs)
      → combine_commitments c n (map (map (g2_multiple c)) (g ∷ gs))
        ≡ map (g2_multiple c) (total_of n (g ∷ gs))
  unfolding combine_commitments combine_loop total
  combine_commitments-total n g gs h =
      let rest = map (map (g2_multiple c)) gs in
      let ps = replicate n (zero_g2_point c) in
      ap (λ b. combine_loop c n rest (if b then add_each c ps (map (g2_multiple c) g) else ps))
        (length-multiples n g h.0)
      ∙ (ap (combine_loop c n rest) (add_each-zero n g h.0)
          ∙ combine_loop-multiples n gs (plus (replicate n f.zero) g) h.1)

-- What dealer after dealer sends the operator `a`: the share of each dealer's polynomial.
module _ {F : Type 0} ⦃f : Field F⦄ where
  abbrev pub dealt_to : Library F f → Address → List (Address × List F) → List (Address × F)
  dealt_to l a deals = map (λ e. (e.0, evaluate_polynomial l e.1 a)) deals

  abbrev pub polynomials : List (Address × List F) → List (List F)
  polynomials deals = map (λ e. e.1) deals

module _ {κ} {F : Type 0} ⦃f : Field F⦄ (l : Library F f) {P : Type κ} (c : Curve F f P) where
  sum-dealt_to :
      (n : ℕ) (a : Address) (deals : List (Address × List F))
      → 0 < n
      → All (λ g. length g ≡ n) (polynomials deals)
      → sum (dealt_to l a deals) (λ e. e.1)
        ≡ sum (polynomials deals) (λ g. value g (address_to_fr l a))
  unfolding sum
  sum-dealt_to n a [] p h = refl
  sum-dealt_to n a ((d, []) ∷ deals) p h = absurd (omega (arith, h.0))
  sum-dealt_to n a ((d, k ∷ g) ∷ deals) p h =
      rw (evaluate-value l k g a, sum-dealt_to n a deals p h.1) refl

  add_shares-total :
      (n : ℕ) (a : Address) (deals : List (Address × List F)) (shares : List (Address × F))
      → 0 < n
      → All (λ g. length g ≡ n) (polynomials deals)
      → Permᴰ shares (dealt_to l a deals)
      → add_shares shares f.zero ≡ value (total_of n (polynomials deals)) (address_to_fr l a)
  add_shares-total n a deals shares p h q =
      add_shares_lem shares f.zero
      ∙ (f.zero-add _
          ∙ (sum_perm (λ e. e.1) q
              ∙ (sum-dealt_to n a deals p h
                  ∙ sym (value-total_of n (polynomials deals) (address_to_fr l a) h))))

  -- A key share that is finalized passes the node's own check: if the threshold is positive, every
  -- dealer dealt a polynomial with that many coefficients and there is a dealer, then the sum of the
  -- shares dealt to the node, in whatever order they are visited, is accepted against the sum of the
  -- dealers' commitments.
  pub finalize_key_share-verify_share :
      (n : Dkg F) (deal : Address × List F) (deals : List (Address × List F))
      (shares : List (Address × F)) (participant_ids : List Address)
      → 0 < n.threshold
      → All (λ g. length g ≡ n.threshold) (polynomials (deal ∷ deals))
      → Permᴰ shares (dealt_to l n.node_address (deal ∷ deals))
      → let k =
          finalize_key_share l c n shares
            (map (map (g2_multiple c)) (polynomials (deal ∷ deals)))
            participant_ids in
        verify_share l c n k.private_share k.commitments ≡ true
  unfolding finalize_key_share
  finalize_key_share-verify_share n deal deals shares participant_ids p h q =
      let t = n.threshold in
      let gs = polynomials (deal ∷ deals) in
      rw
        (
          combine_commitments-total c t deal.1 (polynomials deals) h,
          add_shares-total t n.node_address (deal ∷ deals) shares p h q,
        )
        (accepted (total_of t gs) (omega (arith, length-total_of t gs)))
    where
      accepted :
          (poly : List F)
          → 0 < length poly
          → verify_share l c n
              (some (value poly (address_to_fr l n.node_address)))
              (map (g2_multiple c) poly)
            ≡ true
      accepted poly h' =
          (verify_share-multiples l c n (value poly (address_to_fr l n.node_address)) poly h').1
            (sym (evaluate-value_lem l poly n.node_address h'))

  finals-value :
      (t : ℕ) (deals : List (Address × List F)) (node : Address → Dkg F)
      (received : Address → List (Address × F)) (all_commitments : List (List G2Point))
      (participant_ids : List Address) (finals : List (Address × F))
      → 0 < t
      → All (λ g. length g ≡ t) (polynomials deals)
      → All (λ e. Permᴰ (received e.0) (dealt_to l e.0 deals)) finals
      → All
          (λ e.
            (finalize_key_share l c
              (node e.0)
              (received e.0)
              all_commitments
              participant_ids).private_share
            ≡ some e.1)
          finals
      → All (λ e. e.1 ≡ value (total_of t (polynomials deals)) (address_to_fr l e.0)) finals
  unfolding finalize_key_share
  finals-value t deals node received all ids [] p h r k = tt
  finals-value t deals node received all ids ((a, s) ∷ finals) p h r k = (
    sym (some-injective _ _ k.0) ∙ add_shares-total t a deals (received a) p h r.0,
    finals-value t deals node received all ids finals p h r.1 k.1,
  )

  -- The key shares that the nodes finalize share the sum of the dealers' secrets: if every dealer
  -- dealt a polynomial with `t` coefficients, for a positive `t`, then `t` or more finalized shares
  -- of nodes with pairwise different identifiers recover the sum of the polynomials' constants,
  -- whichever nodes they are and in whatever orders maps are visited, or are refused if it is zero.
  pub finalize_key_share-recover_secret :
      (t : ℕ) (deals : List (Address × List F)) (node : Address → Dkg F)
      (received : Address → List (Address × F)) (all_commitments : List (List G2Point))
      (participant_ids : List Address) (first second : List (Address × F) → List (Address × F))
      (finals : List (Address × F))
      → f.one ≢ f.zero
      → 0 < t
      → All (λ g. length g ≡ t) (polynomials deals)
      → All (λ e. Permᴰ (received e.0) (dealt_to l e.0 deals)) finals
      → All
          (λ e.
            (finalize_key_share l c
              (node e.0)
              (received e.0)
              all_commitments
              participant_ids).private_share
            ≡ some e.1)
          finals
      → IsSeparated l (keys finals)
      → t ≤ length (keys finals)
      → Permᴰ (first finals) finals
      → Permᴰ (second finals) finals
      → (let secret = sum (polynomials deals) constant_of in
          recover_secret l first second finals
          ≡ (if f.is_zero secret then err secret_is_zero else ok secret))
  unfolding finalize_key_share
  finalize_key_share-recover_secret t deals node received all ids first second finals o p h r k s n
        q q' =
      rw (sym (constant_of-total_of t (polynomials deals) h)) (
        recover_secret-value l first second finals (total_of t (polynomials deals)) o q q'
          (finals-value t deals node received all ids finals p h r k) s
          (omega (arith, length-total_of t (polynomials deals))))
