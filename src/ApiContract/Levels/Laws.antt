-- ===== src/ApiContract/Levels/Laws.antt =====
-- What the release levels obey (scripts/api-contract/levels.ts).
use internal_package_contrac.Shared.{Bool, true, Option, none, some, ◌≡◌, ◌≢◌, ◌≤◌, ◌<◌, ◌↔◌, arith}
use internal_package_contrac.ApiContract.Evidence.{RequiredReleaseLevel, ContractImpact}
use internal_package_contrac.ApiContract.Levels.{max_level, required_level_for, level_rank}
use internal_package_contrac.ApiContract.Classifier.Changes.{impact_rank}

-- Two levels may be taken into account in either order.
pub max_level_swap :
    (a b c : Option RequiredReleaseLevel)
    → max_level (max_level a b) c ≡ max_level (max_level a c) b
unfolding max_level
max_level_swap a b c = ground arith

-- The level that a kind of impact requires: there is none exactly for an unknown impact; before
-- 1.0.0 it is never `major`; and among the known impacts a worse one, in the order `unchanged`,
-- `compatible`, `breaking`, never requires a smaller level, whatever is widened.
pub required_level_for_bounds :
    (impact worse : ContractImpact) (widens widens_too pre_one : Bool) (l k : RequiredReleaseLevel)
    → ((required_level_for impact widens pre_one ≡ none) ↔ (impact ≡ ContractImpact.unknown))
      × (required_level_for impact widens true ≢ some RequiredReleaseLevel.major)
      × (impact_rank impact < impact_rank worse
          → required_level_for impact widens pre_one ≡ some l
          → required_level_for worse widens_too pre_one ≡ some k
          → level_rank l ≤ level_rank k)
unfolding required_level_for
required_level_for_bounds impact worse widens widens_too pre_one l k =
    (ground arith, ground arith, λ a b c. ground arith)
