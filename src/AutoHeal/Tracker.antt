-- ===== src/AutoHeal/Tracker.antt =====
-- autoheal.go: the abort tracker against the history of rounds.
use eigenx_kms_go.Prelude.{
  ℕ, suc, ◌≡◌, refl, true, ◌&&◌, List, [], ◌∷◌, arith, leb, Bool-cases, inl, inr, if◌then◌else◌,
}
use eigenx_kms_go.Prelude.Int.{ℤ, eqb_ℤ, eqb_ℤ_iff}
use eigenx_kms_go.AutoHeal.{AbortTracker, new_abort_tracker, record_mpk_abort, record_success}

-- What a round reports to the tracker: an abort, with the active and the majority source version, or
-- a success.
pub data Round : Type 0 where
  aborted : ℤ → ℤ → Round
  validated : Round

after_round : Round → AbortTracker → AbortTracker
unfolding record_success
after_round (aborted active majority) t = (record_mpk_abort active majority t).0
after_round validated t = record_success t

-- A history has its latest round first.
pub tracker_after : List Round → AbortTracker
unfolding after_round
tracker_after [] = new_abort_tracker
tracker_after (r ∷ rs) = after_round r (tracker_after rs)

-- How many aborts of the majority on `v` the history ends with: rounds that aborted with `v` active
-- and another majority do not break the streak; a success or another active version does.
pub streak : ℤ → List Round → ℕ
streak v [] = 0
streak v (validated ∷ rs) = 0
streak v (aborted active majority ∷ rs) =
    let rest = streak v rs in
    if eqb_ℤ active v then (if eqb_ℤ majority v then suc rest else rest) else 0

-- The count, as far as it is about `v`.
abbrev count_for : ℤ → AbortTracker → ℕ
count_for v t = if eqb_ℤ t.tracked_source_version v then t.consecutive_aborts else 0

record_mpk_abort-tracked :
    (active majority : ℤ) (t : AbortTracker)
    → (record_mpk_abort active majority t).0.tracked_source_version ≡ active
unfolding record_mpk_abort
record_mpk_abort-tracked active majority t =
    ground (arith, eqb_ℤ_iff t.tracked_source_version active)

record_mpk_abort-count :
    (active majority : ℤ) (t : AbortTracker)
    → (record_mpk_abort active majority t).0.consecutive_aborts
      ≡ (if eqb_ℤ majority active then suc (count_for active t) else count_for active t)
unfolding record_mpk_abort
record_mpk_abort-count active majority t = ground arith

eqb_self : (v : ℤ) → eqb_ℤ v v ≡ true
eqb_self v = (eqb_ℤ_iff v v).1 refl

tracker_after-streak :
    (v : ℤ) (rs : List Round)
    → (if eqb_ℤ (tracker_after rs).tracked_source_version v
        then (tracker_after rs).consecutive_aborts
        else 0)
      ≡ streak v rs
unfolding tracker_after streak
tracker_after-streak v [] = ground arith
tracker_after-streak v (validated ∷ rs) = ground arith
tracker_after-streak v (aborted active majority ∷ rs) =
    rw (record_mpk_abort-tracked active majority (tracker_after rs))
      (elim (Bool-cases (eqb_ℤ active v)) [
        | inl y ↦
            let e = (eqb_ℤ_iff active v).0 y in
            rw (y, record_mpk_abort-count active majority (tracker_after rs))
              (rw e (rw (tracker_after-streak v rs) refl))
        | inr n ↦ rw n refl
      ])

-- After any history of rounds, an abort demotes the active version exactly if the majority's source
-- version is the active one and it is at least the third such abort of the streak.
pub record_mpk_abort-streak :
    (active majority : ℤ) (rs : List Round)
    → (record_mpk_abort active majority (tracker_after rs)).1
      ≡ (eqb_ℤ majority active && leb 3 (suc (streak active rs)))
unfolding record_mpk_abort
record_mpk_abort-streak active majority rs = ground (arith, tracker_after-streak active rs)
