-- ===== src/ApiContract/Levels.antt =====
-- Release levels (scripts/api-contract/levels.ts).
pub mod Laws
use internal_package_contrac.Shared.{
  ℕ, Bool, true, false, ◌&&◌, ◌||◌, Option, none, some, List, [], ◌∷◌, leb, find?, negate,
  if◌then◌else◌, ◌===◌, option_Eq, Eq, ◌↔◌, ◌≡◌, refl, arith,
}
use internal_package_contrac.ApiContract.Evidence.{
  ContractImpact, RequiredReleaseLevel, no_release, patch, minor, major,
}

abbrev pub levels_descending : List RequiredReleaseLevel
levels_descending = major ∷ minor ∷ patch ∷ no_release ∷ []

abbrev pub level_rank : RequiredReleaseLevel → ℕ
level_rank no_release = 0
level_rank patch = 1
level_rank minor = 2
level_rank major = 3

abbrev pub level_eq : RequiredReleaseLevel → RequiredReleaseLevel → Bool
level_eq no_release no_release = true
level_eq patch patch = true
level_eq minor minor = true
level_eq major major = true
level_eq _ _ = false

pub level_eq_iff : (a b : RequiredReleaseLevel) → (level_eq a b ≡ true) ↔ (a ≡ b)
level_eq_iff a b = ground arith

instance abbrev pub level_Eq : Eq RequiredReleaseLevel
level_Eq = record { same = level_eq; same_iff = level_eq_iff }

unfoldable pub max_level :
    Option RequiredReleaseLevel → Option RequiredReleaseLevel → Option RequiredReleaseLevel
max_level a b = find? (λ level. some level === a || some level === b) levels_descending

unfoldable pub rank_at_least : RequiredReleaseLevel → RequiredReleaseLevel → Bool
rank_at_least declared required = leb (level_rank required) (level_rank declared)

unfoldable pub required_level_for : ContractImpact → Bool → Bool → Option RequiredReleaseLevel
required_level_for ContractImpact.unknown widens_surface pre_one = none
required_level_for ContractImpact.breaking widens_surface pre_one =
    some (if pre_one then minor else major)
required_level_for ContractImpact.compatible widens_surface pre_one =
    some (if widens_surface && negate pre_one then minor else patch)
required_level_for ContractImpact.unchanged widens_surface pre_one = some no_release
