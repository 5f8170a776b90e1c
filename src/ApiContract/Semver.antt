-- ===== src/ApiContract/Semver.antt =====
-- Versions (scripts/api-contract/semver.ts). A number in a version is a natural number; what
-- `Number` makes of digits past 2^53 is left out.
pub mod RoundTrip
pub mod Order
use Prim.Native.Char.{Char, code}
use internal_package_contrac.Shared.{
  true, false, negate, ℕ, ◌+◌, String, Bool, ◌||◌, Option, none, some, [], ◌∷◌, template, ◌===◌,
  nat_Eq, ◌!==◌, if◌then◌else◌,
}
use internal_package_contrac.Shared.Decimals.{decimal, number}
use internal_package_contrac.Shared.Int.{ℤ, sub_ℕ, is_negative}
use internal_package_contrac.Shared.Regex.{is_digit, is_any, at_end, one, star, plus, or_else}
use internal_package_contrac.Shared.Trim.{trim}
use internal_package_contrac.ApiContract.Evidence.{
  RequiredReleaseLevel, no_release, patch, minor, major,
}

pub record Version : Type 0 where
  pub major : ℕ
  pub minor : ℕ
  pub patch : ℕ

abbrev pub is_dot : Char → Bool
is_dot c = code c === b'.'

abbrev pub is_suffix_mark : Char → Bool
is_suffix_mark c = code c === b'-' || code c === b'+'

-- `(?:[-+].*|)$`
unfoldable pub version_suffix : Version → String → Option Version
version_suffix v s = or_else (one is_suffix_mark (star is_any (λ _. at_end v)) s) (at_end v s)

-- `VERSION_PATTERN`, with what `parseVersion` makes of the three groups.
unfoldable pub version_pattern : String → Option Version
version_pattern = plus is_digit λ major_text. one is_dot (
    plus is_digit λ minor_text. one is_dot (
      plus is_digit λ patch_text. version_suffix (record {
        major = number major_text;
        minor = number minor_text;
        patch = number patch_text;
      })))

unfoldable pub parse_version : String → Option Version
parse_version raw = version_pattern (trim raw)

unfoldable pub compare_versions : Version → Version → ℤ
compare_versions a b =
    if a.major !== b.major
    then sub_ℕ a.major b.major
    else if a.minor !== b.minor
    then sub_ℕ a.minor b.minor
    else sub_ℕ a.patch b.patch

unfoldable pub format_version : Version → String
format_version v = template (decimal v.major ∷ "." ∷ decimal v.minor ∷ "." ∷ decimal v.patch ∷ [])

-- The level `none` is excluded by the source's type; its clause is never reached.
unfoldable pub bump_for_level : Version → RequiredReleaseLevel → Version
bump_for_level base major = record { major = base.major + 1; minor = 0; patch = 0 }
bump_for_level base minor = record { major = base.major; minor = base.minor + 1; patch = 0 }
bump_for_level base patch = record {
  major = base.major;
  minor = base.minor;
  patch = base.patch + 1;
}
bump_for_level base no_release = base

unfoldable pub compute_minimum_required_version : Option Version → RequiredReleaseLevel → String
compute_minimum_required_version none level = "0.1.0"
compute_minimum_required_version (some v) no_release = format_version v
compute_minimum_required_version (some v) level = format_version (bump_for_level v level)

abbrev pub is_pre_one : Option Version → Bool
is_pre_one none = false
is_pre_one (some v) = v.major === 0

-- `current !== undefined && compareVersions(current, minimum) >= 0`
abbrev pub has_reached : Option Version → Option Version → Bool
has_reached (some current) (some minimum) = negate (is_negative (compare_versions current minimum))
has_reached _ _ = false
