-- ===== src/Session/Retained.antt =====
-- node.go: the shares that a dealer keeps after a session.
use eigenx_kms_go.Prelude.{
  ◌≤◌, ◌≡◌, refl, sym, ◌∙◌, true, false, ◌||◌, some, List, [], ◌∷◌, ◌++◌, arith, Bool-cases, inl,
  inr, ◌⊎◌, subst, ltb, length, length-append, int_eq, nat_eq, contains, beq_refl,
}
use eigenx_kms_go.Prelude.Int.{ℤ, eqb_ℤ, eqb_ℤ_iff}
use eigenx_kms_go.Prelude.Maps.{lookup, insert, delete, lookup-insert, lookup-delete}
use eigenx_kms_go.Types.{Address}
use eigenx_kms_go.Session.{
  RetainedShares, is_some, evict, retain_generated_shares, get_retained_generated_share,
}

-- No session stands twice in the order.
abbrev pub IsSetOfSessions : List ℤ → Type 0
IsSetOfSessions [] = Unit
IsSetOfSessions (t ∷ ts) = (contains ts t ≡ false) × IsSetOfSessions ts

contains-append :
    (ts : List ℤ) (t x : ℤ) → contains (ts ++ (t ∷ [])) x ≡ (contains ts x || eqb_ℤ t x)
unfolding contains
contains-append [] t x = ground arith
contains-append (y ∷ ts) t x = ground (arith, contains-append ts t x)

append-IsSetOfSessions :
    (ts : List ℤ) (t : ℤ)
    → contains ts t ≡ false
    → IsSetOfSessions ts
    → IsSetOfSessions (ts ++ (t ∷ []))
unfolding contains
append-IsSetOfSessions [] t n h = (refl, tt)
append-IsSetOfSessions (y ∷ ts) t n h = (
  ground (arith, contains-append ts t y, eqb_ℤ_iff t y, eqb_ℤ_iff y t, h.0),
  append-IsSetOfSessions ts t (ground arith) h.1,
)

module _ {F : Type 0} where
  -- At most four sessions are kept, none twice, and they are those with shares.
  pub record IsBounded (n : RetainedShares F) : Type 0 where
    pub few : length n.order ≤ 4
    pub distinct : IsSetOfSessions n.order
    pub listed : (t : ℤ) → is_some (lookup t n.by_session) ≡ contains n.order t

  evict_few :
      (order : List ℤ) (m : List (ℤ × List (Address × F)))
      → length order ≤ 4
      → evict order m ≡ record { by_session = m; order = order }
  unfolding evict
  evict_few [] m h = refl
  evict_few (t ∷ ts) m h = ground arith

  evict_five :
      (t : ℤ) (ts : List ℤ) (m : List (ℤ × List (Address × F)))
      → length ts ≡ 4
      → evict (t ∷ ts) m ≡ record { by_session = delete t m; order = ts }
  unfolding evict
  evict_five t ts m h = ground (arith, evict_few ts (delete t m))

  module _ (t : ℤ) (shares : List (Address × F)) (n : RetainedShares F) where
    retain_known :
        length n.order ≤ 4
        → is_some (lookup t n.by_session) ≡ true
        → retain_generated_shares t shares n
          ≡ record { by_session = insert t shares n.by_session; order = n.order }
    unfolding retain_generated_shares
    retain_known few y = rw y (evict_few n.order (insert t shares n.by_session) few)

    retain_short :
        length n.order ≤ 3
        → is_some (lookup t n.by_session) ≡ false
        → retain_generated_shares t shares n
          ≡ record { by_session = insert t shares n.by_session; order = n.order ++ (t ∷ []) }
    unfolding retain_generated_shares
    retain_short few y = rw y (
        evict_few (n.order ++ (t ∷ [])) (insert t shares n.by_session)
          (omega (arith, length-append n.order (t ∷ []))))

    retain_full :
        (oldest : ℤ) (ts : List ℤ)
        → n.order ≡ oldest ∷ ts
        → length ts ≡ 3
        → is_some (lookup t n.by_session) ≡ false
        → retain_generated_shares t shares n ≡ record {
          by_session = delete oldest (insert t shares n.by_session);
          order = ts ++ (t ∷ []);
        }
    unfolding retain_generated_shares
    retain_full oldest ts e l y =
        rw (y, e)
          (evict_five oldest (ts ++ (t ∷ [])) (insert t shares n.by_session)
            (omega (arith, length-append ts (t ∷ []))))

    short_or_full :
        length n.order ≤ 4
        → (length n.order ≤ 3) ⊎ ((o : ℤ) × (ts : List ℤ) × (n.order ≡ o ∷ ts) × (length ts ≡ 3))
    short_or_full few = split n.order few
      where
        split :
            (xs : List ℤ)
            → length xs ≤ 4
            → (length xs ≤ 3) ⊎ ((o : ℤ) × (ts : List ℤ) × (xs ≡ o ∷ ts) × (length ts ≡ 3))
        split [] h = inl (omega arith)
        split (x ∷ xs) h = elim (Bool-cases (ltb (length xs) 3)) [
          | inl y ↦ inl (ground arith)
          | inr m ↦ inr (x, xs, refl, ground arith)
        ]

    retain-IsBounded : IsBounded n → IsBounded (retain_generated_shares t shares n)
    unfolding contains
    retain-IsBounded h = elim (Bool-cases (is_some (lookup t n.by_session))) [
      | inl y ↦ subst IsBounded (sym (retain_known h.few y)) (record {
        few = h.few;
        distinct = h.distinct;
        listed = λ x. ground (
          arith,
          lookup-insert t x shares n.by_session,
          h.listed x,
          h.listed t,
          eqb_ℤ_iff t x,
          y,
        );
      })
      | inr m ↦ elim (short_or_full h.few) [
        | inl short ↦ subst IsBounded (sym (retain_short short m)) (record {
          few = omega (arith, length-append n.order (t ∷ []), short);
          distinct = append-IsSetOfSessions n.order t (sym (h.listed t) ∙ m) h.distinct;
          listed = λ x. ground (
            arith,
            lookup-insert t x shares n.by_session,
            h.listed x,
            contains-append n.order t x,
          );
        })
        | inr (o, ts, e, l) ↦ subst IsBounded (sym (retain_full o ts e l m)) (full o ts e l m h)
      ]
    ]
      where
        full :
            (o : ℤ) (ts : List ℤ)
            → n.order ≡ o ∷ ts
            → length ts ≡ 3
            → is_some (lookup t n.by_session) ≡ false
            → IsBounded n
            → IsBounded (record {
              by_session = delete o (insert t shares n.by_session);
              order = ts ++ (t ∷ []);
            })
        full o ts e l m h =
            let all =
              append-IsSetOfSessions (o ∷ ts) t (rw e at (sym (h.listed t) ∙ m))
                (rw e at h.distinct) in
            record {
              few = omega (arith, length-append ts (t ∷ []), l);
              distinct = all.1;
              listed = λ x. ground (
                arith,
                lookup-delete o x (insert t shares n.by_session),
                lookup-insert t x shares n.by_session,
                (rw e at h.listed x),
                contains-append ts t x,
                all.0,
                eqb_ℤ_iff o x,
              );
            }

    get_retained_generated_share-retain :
        (recipient : Address)
        → IsBounded n
        → get_retained_generated_share t recipient (retain_generated_shares t shares n)
          ≡ lookup recipient shares
    unfolding get_retained_generated_share
    get_retained_generated_share-retain recipient h = rw (served, get_retained_generated_share) refl
      where
        served : lookup t (retain_generated_shares t shares n).by_session ≡ some shares
        served = elim (Bool-cases (is_some (lookup t n.by_session))) [
          | inl y ↦
              rw (retain_known h.few y)
                (lookup-insert t t shares n.by_session ∙ rw (beq_refl t) refl)
          | inr m ↦ elim (short_or_full h.few) [
            | inl short ↦
                rw (retain_short short m)
                  (lookup-insert t t shares n.by_session ∙ rw (beq_refl t) refl)
            | inr (o, ts, e, l) ↦ rw (retain_full o ts e l m) (
                unfold contains in
                ground (
                  arith,
                  lookup-delete o t (insert t shares n.by_session),
                  lookup-insert t t shares n.by_session,
                  (rw e at h.listed t),
                  eqb_ℤ_iff o t,
                  m,
                ))
          ]
        ]

  -- The shares that a node has dealt, the latest session first.
  pub retained_after : List (ℤ × List (Address × F)) → RetainedShares F
  unfolding retain_generated_shares
  retained_after [] = record { by_session = []; order = [] }
  retained_after ((t, shares) ∷ dealt) = retain_generated_shares t shares (retained_after dealt)

  -- Whatever sessions a node has dealt in, and however often it retained one again, it keeps at most four
  -- of them, none twice, and the sessions in its order are those that it has shares of.
  pub retained_after-IsBounded :
      (dealt : List (ℤ × List (Address × F))) → IsBounded (retained_after dealt)
  unfolding retained_after lookup contains
  retained_after-IsBounded [] = record { few = omega arith; distinct = tt; listed = λ t. refl }
  retained_after-IsBounded ((t, shares) ∷ dealt) =
      retain-IsBounded t shares (retained_after dealt) (retained_after-IsBounded dealt)

  -- A node serves the share that it dealt to a recipient in its latest session, whatever it dealt before.
  pub get_retained_generated_share-latest :
      (t : ℤ) (shares : List (Address × F)) (dealt : List (ℤ × List (Address × F)))
      (recipient : Address)
      → get_retained_generated_share t recipient (retained_after ((t, shares) ∷ dealt))
        ≡ lookup recipient shares
  unfolding retained_after
  get_retained_generated_share-latest t shares dealt recipient =
      get_retained_generated_share-retain t shares (retained_after dealt) recipient
        (retained_after-IsBounded dealt)
