-- ===== src/Tests/Reshare.antt =====
-- pkg/reshare at four dealers: three dealt from version 300 and one from version 200.
use eigenx_kms_go.Prelude.{ℕ, ◌≡◌, List, [], ◌∷◌, Option, some, arith, if◌then◌else◌, ◌==◌}
use eigenx_kms_go.Prelude.Int.{ℤ, pos}
use eigenx_kms_go.Types.{Address}
use eigenx_kms_go.Reshare.{select_majority_source_version}
use eigenx_kms_go.Reshare.Majority.{select_majority_source_version_deterministic}
use eigenx_kms_go.Reshare.Count.{Selects, select_majority_source_version-Selects}

abbrev four_dealers : List Address
four_dealers = 1 ∷ 2 ∷ 3 ∷ 4 ∷ []

abbrev dealt_from : Address → Option ℤ
dealt_from d = some (if d == 2 then pos 200 else pos 300)

abbrev in_order : List (ℤ × ℕ) → List (ℤ × ℕ)
in_order m = m

select_majority_source_version_deterministic_example :
    select_majority_source_version in_order four_dealers dealt_from 3
    ≡ select_majority_source_version in_order four_dealers dealt_from 3
select_majority_source_version_deterministic_example =
    select_majority_source_version_deterministic in_order in_order four_dealers dealt_from 3
      (λ m e. (λ h. h, λ h. h)) (λ m e. (λ h. h, λ h. h))

select_majority_source_version-Selects_example :
    Selects dealt_from four_dealers 3
      (select_majority_source_version in_order four_dealers dealt_from 3)
select_majority_source_version-Selects_example =
    select_majority_source_version-Selects in_order four_dealers dealt_from 3
      (λ m e. (λ h. h, λ h. h)) (omega arith)
