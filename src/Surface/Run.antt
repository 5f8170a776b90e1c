-- ===== src/Surface/Run.antt =====
-- The check of the surface and the update of its baseline (scripts/surface-contract/run.ts).
-- What is read is given: the name and the version of package.json, the surface as collected, the
-- committed baseline and the directory of changesets. What is written is returned.
pub mod Satisfied
pub mod Required
pub mod Update
use mathlib.Core.Option
use internal_package_contrac.Shared.{
  String, Bool, true, false, ◌&&◌, ◌||◌, Option, none, some, List, [], ◌∷◌, any, template, ◌===◌,
  string_Eq, nat_Eq, if◌then◌else◌, negate,
}
use internal_package_contrac.Shared.Int.{is_negative, is_zero}
use internal_package_contrac.Shared.Json.{quoted}
use internal_package_contrac.ApiContract.Evidence.{RequiredReleaseLevel, no_release, ContractImpact}
use internal_package_contrac.ApiContract.Levels.{rank_at_least, required_level_for}
use internal_package_contrac.ApiContract.Semver.{
  Version, parse_version, compare_versions, compute_minimum_required_version, is_pre_one,
  has_reached,
}
use internal_package_contrac.ApiContract.Changesets.{
  DeclaredRelease, declared_level_from_changesets,
}
use internal_package_contrac.Surface.Types.{
  Surface, SurfaceChange, SurfaceImpact, breaking, compatible,
}
use internal_package_contrac.Surface.Classify.{classify_surface}
use internal_package_contrac.Surface.Stable.{stable_text, sorted_surface}

abbrev pub baseline_path : String
baseline_path = ".repo-contract/surface-contract/baseline.json"

pub record SurfaceBaseline : Type 0 where
  pub package_name : String
  pub package_version : String
  pub surface : Surface

-- What `readSurfaceBaseline` finds: no file, a file that is not JSON, or a baseline.
pub data CommittedBaseline : Type 0 where
  absent : CommittedBaseline
  invalid : CommittedBaseline
  committed : SurfaceBaseline → CommittedBaseline

-- What a run reads of the package.
pub record Package : Type 0 where
  pub name : String
  pub version : String
  pub surface : Surface
  pub changesets : Option (List (String × String))

pub data SurfaceStatus : Type 0 where
  no_surface initial_baseline missing_baseline compared : SurfaceStatus

pub record SurfaceEvidence : Type 0 where
  pub current_version : String
  pub status : SurfaceStatus
  pub changes : List SurfaceChange
  pub required_level : RequiredReleaseLevel
  pub minimum_required_version : Option String
  pub baseline_version : Option String
  pub declared : DeclaredRelease
  pub satisfied : Bool

-- A run throws, or returns evidence and perhaps writes a baseline.
pub data CheckRun : Type 0 where
  thrown : String → CheckRun
  checked : SurfaceEvidence → Option SurfaceBaseline → CheckRun

abbrev no_entries : {A : Type 0} → List A → Bool
no_entries [] = true
no_entries (x ∷ xs) = false

abbrev has_none : {A : Type 0} → Option A → Bool
has_none none = true
has_none (some a) = false

unfoldable pub is_empty : Surface → Bool
is_empty surface = no_entries surface.cli && no_entries surface.schemas && has_none surface.action

-- The baseline of a package as it is read back after it is written: `stableStringify` sorts the keys of
-- its objects.
abbrev pub baseline_of : (String → String → Bool) → Package → SurfaceBaseline
baseline_of id_le pkg = record {
  package_name = pkg.name;
  package_version = pkg.version;
  surface = sorted_surface id_le pkg.surface;
}

abbrev pub is_breaking : SurfaceChange → Bool
is_breaking c = elim c.impact [ breaking ↦ true | compatible ↦ false ]

-- `requiredLevelFor` answers for both impacts; the absent answer of the others is never taken.
unfoldable pub surface_required_level : List SurfaceChange → Bool → RequiredReleaseLevel
surface_required_level [] pre_one = no_release
surface_required_level (c ∷ changes) pre_one =
    Option.get_or
      (required_level_for
        (if any is_breaking (c ∷ changes)
          then ContractImpact.breaking
          else ContractImpact.compatible)
        (any (λ change. change.widens) (c ∷ changes)) pre_one)
      no_release

-- `evidence(status)`, with the level `none` and no change.
abbrev evidence : Package → DeclaredRelease → SurfaceStatus → Bool → SurfaceEvidence
evidence pkg declared status satisfied = record {
  current_version = pkg.version;
  status = status;
  changes = [];
  required_level = no_release;
  minimum_required_version = none;
  baseline_version = none;
  declared = declared;
  satisfied = satisfied;
}

abbrev unparseable_baseline : String → String
unparseable_baseline version = template (
    baseline_path
    ∷ " records an unparseable version "
    ∷ quoted version
    ∷ "; restore it from git or regenerate it with `internal-package-contract update-baseline`."
    ∷ [])

abbrev invalid_baseline : String
invalid_baseline = template (
    baseline_path
    ∷ " is not valid JSON; restore it from git or regenerate it with `internal-package-contract update-baseline`."
    ∷ [])

module _ (id_le : String → String → Bool) where
  -- The comparison with a baseline whose version is readable.
  unfoldable pub compare_surface :
      Package → DeclaredRelease → SurfaceBaseline → Version → SurfaceEvidence
  compare_surface pkg declared baseline baseline_version =
      let changes = classify_surface id_le baseline.surface pkg.surface in
      let current = parse_version pkg.version in
      let required = surface_required_level changes (is_pre_one current) in
      let minimum_text = compute_minimum_required_version (some baseline_version) required in
      record {
        current_version = pkg.version;
        status = compared;
        changes = changes;
        required_level = required;
        minimum_required_version = some minimum_text;
        baseline_version = some baseline.package_version;
        declared = declared;
        satisfied =
            rank_at_least declared.declared_level required
            || has_reached current (parse_version minimum_text);
      }

  unfoldable pub run_surface_check : Bool → Package → CommittedBaseline → CheckRun
  run_surface_check ci pkg invalid = thrown invalid_baseline
  run_surface_check ci pkg absent =
      let declared = declared_level_from_changesets pkg.changesets pkg.name in
      if is_empty pkg.surface
      then checked (evidence pkg declared no_surface true) none
      else if ci
      then checked (evidence pkg declared missing_baseline false) none
      else checked (evidence pkg declared initial_baseline true) (some (baseline_of id_le pkg))
  run_surface_check ci pkg (committed baseline) =
      let declared = declared_level_from_changesets pkg.changesets pkg.name in
      elim (parse_version baseline.package_version) [
        | none ↦ thrown (unparseable_baseline baseline.package_version)
        | some version ↦ checked (compare_surface pkg declared baseline version) none
      ]

pub data UpdateStatus : Type 0 where
  updated current refused : UpdateStatus

-- An update throws, finds nothing to guard, or ends with a status and a message; it writes a
-- baseline exactly where the last field says so.
pub data UpdateRun : Type 0 where
  failed : String → UpdateRun
  nothing_to_guard : UpdateRun
  ended : UpdateStatus → String → Option SurfaceBaseline → UpdateRun

abbrev unparseable_package : String → String
unparseable_package version = template (
    "Refusing to update: could not parse package.json's version \"" ∷ version
    ∷ "\" as major.minor.patch." ∷ [])

abbrev unparseable_committed : String → String
unparseable_committed version = template (
    "Refusing to update: the committed surface baseline records an unparseable version \"" ∷ version
    ∷ "\"." ∷ [])

abbrev backwards : String → String → String
backwards version was = template (
    "Refusing to update: package.json declares " ∷ version
    ∷ ", older than the committed surface baseline's " ∷ was ∷ "." ∷ [])

abbrev already_current : String → String
already_current version = template (
    "Surface baseline is already at version " ∷ version ∷ " with matching contents; nothing to do."
    ∷ [])

abbrev updated_message : Bool → String → String
updated_message same_version version =
    if same_version
    then template (
        "Surface baseline contents refreshed at version " ∷ version ∷ ". Review " ∷ baseline_path
        ∷ " and commit." ∷ [])
    else template (
        "Surface baseline updated to version " ∷ version ∷ ". Review " ∷ baseline_path
        ∷ " and commit." ∷ [])

module _ (id_le : String → String → Bool) where
  -- The update with a committed baseline, once both versions are readable.
  unfoldable pub update_committed : Package → SurfaceBaseline → Version → Version → UpdateRun
  update_committed pkg baseline version was =
      let delta = compare_versions version was in
      if is_negative delta
      then ended refused (backwards pkg.version baseline.package_version) none
      else if is_zero delta && stable_text id_le baseline.surface === stable_text id_le pkg.surface
      then ended current (already_current pkg.version) none
      else ended updated (updated_message (is_zero delta) pkg.version)
          (some (baseline_of id_le pkg))

  unfoldable pub run_surface_update : Package → CommittedBaseline → UpdateRun
  run_surface_update pkg invalid = failed invalid_baseline
  run_surface_update pkg absent =
      if is_empty pkg.surface then nothing_to_guard else elim (parse_version pkg.version) [
        | none ↦ ended refused (unparseable_package pkg.version) none
        | some version ↦
            ended updated (updated_message false pkg.version) (some (baseline_of id_le pkg))
      ]
  run_surface_update pkg (committed baseline) = elim (parse_version pkg.version) [
    | none ↦ ended refused (unparseable_package pkg.version) none
    | some version ↦ elim (parse_version baseline.package_version) [
      | none ↦ ended refused (unparseable_committed baseline.package_version) none
      | some was ↦ update_committed pkg baseline version was
    ]
  ]
