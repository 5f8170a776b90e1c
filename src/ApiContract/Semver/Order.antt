-- ===== src/ApiContract/Semver/Order.antt =====
-- Versions in order, and the release that a level asks for (scripts/api-contract/semver.ts).
use internal_package_contrac.Shared.{
  Bool, ◌||◌, negate, inl, inr, refl, ◌≤◌, ◌≡◌, true, false, some, arith, ◌<◌, ◌⊎◌, ◌↔◌,
}
use internal_package_contrac.Shared.Int.{is_negative, is_zero}
use internal_package_contrac.ApiContract.Evidence.{
  RequiredReleaseLevel, no_release, patch, minor, major,
}
use internal_package_contrac.ApiContract.Levels.{rank_at_least, level_rank}
use internal_package_contrac.ApiContract.Semver.{
  Version, parse_version, compare_versions, bump_for_level, compute_minimum_required_version,
  has_reached,
}
use internal_package_contrac.ApiContract.Semver.RoundTrip.{parse_version-format_version}

-- `a` precedes `b`: by major, then minor, then patch.
abbrev pub Precedes : Version → Version → Type 0
Precedes a b =
    (a.major < b.major)
    ⊎ ((a.major ≡ b.major) × (a.minor < b.minor))
    ⊎ ((a.major ≡ b.major) × (a.minor ≡ b.minor) × (a.patch < b.patch))

-- The comparison is negative exactly for a version that precedes, and zero exactly for the same one.
pub compare_versions_iff :
    (a b : Version)
    → ((is_negative (compare_versions a b) ≡ true) ↔ Precedes a b)
      × ((is_zero (compare_versions a b) ≡ true) ↔ (a ≡ b))
unfolding compare_versions
compare_versions_iff a b = ground arith

-- `w` is a release of at least that level after `b`.
abbrev pub Releases : RequiredReleaseLevel → Version → Version → Type 0
Releases no_release b w = ¬ Precedes w b
Releases patch b w = Precedes b w
Releases minor b w = (b.major < w.major) ⊎ ((b.major ≡ w.major) × (b.minor < w.minor))
Releases major b w = b.major < w.major

not_negative_iff :
    (level : RequiredReleaseLevel) (b w : Version)
    → (is_negative (compare_versions w (bump_for_level b level)) ≡ false) ↔ Releases level b w
unfolding compare_versions bump_for_level
not_negative_iff no_release b w = ground arith
not_negative_iff patch b w = ground arith
not_negative_iff minor b w = ground arith
not_negative_iff major b w = ground arith

parse_version-minimum :
    (b : Version) (level : RequiredReleaseLevel)
    → parse_version (compute_minimum_required_version (some b) level)
      ≡ some (bump_for_level b level)
unfolding compute_minimum_required_version bump_for_level
parse_version-minimum b no_release = parse_version-format_version _
parse_version-minimum b patch = parse_version-format_version _
parse_version-minimum b minor = parse_version-format_version _
parse_version-minimum b major = parse_version-format_version _

-- The minimum required version of a baseline always parses, and a version reaches it exactly when
-- it is a release of at least the required level after the baseline.
pub compute_minimum_required_version_reached :
    (b w : Version) (level : RequiredReleaseLevel)
    → (m : Version) × (parse_version (compute_minimum_required_version (some b) level) ≡ some m)
      × ((is_negative (compare_versions w m) ≡ false) ↔ Releases level b w)
compute_minimum_required_version_reached b w level =
    (bump_for_level b level, parse_version-minimum b level, not_negative_iff level b w)

either_iff :
    (p : Bool) (q : Bool) (P Q : Type 0)
    → ((p ≡ true) ↔ P)
    → ((q ≡ false) ↔ Q)
    → ((p || negate q) ≡ true) ↔ (P ⊎ Q)
either_iff true q P Q f g = (λ _. inl (f.0 refl), λ _. refl)
either_iff false true P Q f g =
    (λ h. cc, λ h. elim h [ inl p ↦ absurd (cc (f.1 p)) | inr q ↦ absurd (cc (g.1 q)) ])
either_iff false false P Q f g = (λ h. inr (g.0 refl), λ _. refl)

at_least_iff :
    (declared required : RequiredReleaseLevel)
    → (rank_at_least declared required ≡ true) ↔ (level_rank required ≤ level_rank declared)
unfolding rank_at_least
at_least_iff declared required = ground arith

-- The declaration of a level, or the bump itself.
pub declared_or_bumped_iff :
    (declared required : RequiredReleaseLevel) (b w : Version)
    → ((rank_at_least declared required
          || has_reached
              (some w)
              (parse_version (compute_minimum_required_version (some b) required)))
        ≡ true)
      ↔ ((level_rank required ≤ level_rank declared) ⊎ Releases required b w)
declared_or_bumped_iff declared required b w =
    let (m, parsed, reached) = compute_minimum_required_version_reached b w required in
    rw parsed (either_iff _ _ _ _ (at_least_iff declared required) reached)
