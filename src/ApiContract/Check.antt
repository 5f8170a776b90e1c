-- ===== src/ApiContract/Check.antt =====
-- The check of the API contract (scripts/api-contract/check.ts, summarize-changes.ts). What the API
-- Extractor yields for a target is given: both sides' members at the threshold and at the lowest
-- tier, and the resolver of assignability.
pub mod Required
pub mod Unordered
use mathlib.Core.Option
use internal_package_contrac.Shared.{
  ℕ, String, Bool, true, false, ◌&&◌, ◌||◌, Option, none, some, List, [], ◌∷◌, ◌++◌, map, filter,
  find?, any, length, template, join, ◌===◌, ◌!==◌, string_Eq, option_Eq, if◌then◌else◌, negate,
}
use internal_package_contrac.Shared.Dicts.{contains}
use internal_package_contrac.Shared.Decimals.{decimal}
use internal_package_contrac.Shared.Sorting.{sort}
use internal_package_contrac.ApiContract.Evidence.{
  ContractImpact, RequiredReleaseLevel, no_release, minor, major, ChangeKind, ApiContractChange,
  ApiContractSnapshot, ApiContractTargetResult, ChangesetAnalysisEvidence, ApiContractEvidence,
}
use internal_package_contrac.ApiContract.Levels.{
  max_level, rank_at_least, required_level_for, level_Eq,
}
use internal_package_contrac.ApiContract.Semver.{
  parse_version, compute_minimum_required_version, is_pre_one, has_reached,
}
use internal_package_contrac.ApiContract.Changesets.{
  DeclaredRelease, declared_level_from_changesets,
}
use internal_package_contrac.ApiContract.Classifier.Changes.{ResolveAssignability}
use internal_package_contrac.ApiContract.Classifier.Classify.{
  Members, change_le, classify_contract_changes,
}
use internal_package_contrac.ApiContract.Drift.{detect_schema_version_drift}

abbrev summarize_initial_baseline : String
summarize_initial_baseline =
    "No historical public API contract exists for this target. This run establishes the initial contract baseline; v0.1.0 is recommended as the initial package version."

abbrev is_unknown : ContractImpact → Bool
is_unknown ContractImpact.unknown = true
is_unknown ContractImpact.unchanged = false
is_unknown ContractImpact.compatible = false
is_unknown ContractImpact.breaking = false

unfoldable pub summarize_changes : List ApiContractChange → ContractImpact → Bool → String
summarize_changes diff impact true = summarize_initial_baseline
summarize_changes [] impact false = "No public API changes detected."
summarize_changes (change ∷ diff) impact false = join "\n" (
    (if is_unknown impact
      then "The public contract changed, but one or more changes could not be classified deterministically:"
      else template
          (decimal (length (change ∷ diff)) ∷ " public contract change(s) detected:" ∷ []))
    ∷ map (λ c. template ("- " ∷ c.explanation ∷ [])) (change ∷ diff))

-- The members of a package at the check's threshold, and at the tier `internal`.
pub record Extracted : Type 0 where
  pub admitted : Members
  pub all_tiers : Members

pub record TargetBaseline : Type 0 where
  pub snapshot : ApiContractSnapshot
  pub package_version : String
  pub extracted : Extracted

pub record Target : Type 0 where
  pub name : String
  pub current : ApiContractSnapshot
  pub extracted : Extracted
  pub baseline : Option TargetBaseline

-- `*-added`, or `release-tag-changed`.
abbrev pub widens_surface : ChangeKind → Bool
widens_surface ChangeKind.export_added = true
widens_surface ChangeKind.parameter_added = true
widens_surface ChangeKind.property_added = true
widens_surface ChangeKind.overload_added = true
widens_surface ChangeKind.enum_member_added = true
widens_surface ChangeKind.release_tag_changed = true
widens_surface _ = false

abbrev pub minimum_for : Option String → Option RequiredReleaseLevel → Option String
minimum_for baseline none = none
minimum_for baseline (some level) = some (
    compute_minimum_required_version
      (elim baseline [ none ↦ none | some version ↦ parse_version version ]) level)

abbrev has_changes : List ApiContractChange → Bool
has_changes [] = false
has_changes (c ∷ changes) = true

module _ (resolve : ResolveAssignability) (id_le : String → String → Bool) where
  -- A target with a committed baseline.
  unfoldable pub compare_target : String → Target → TargetBaseline → ApiContractTargetResult
  compare_target version target baseline =
      let classified =
        classify_contract_changes id_le resolve baseline.extracted.admitted
          target.extracted.admitted in
      let drift =
        detect_schema_version_drift id_le baseline.extracted.admitted target.extracted.admitted in
      let diff = sort (change_le id_le) (classified.changes ++ drift) in
      let all_tiers =
        classify_contract_changes id_le resolve baseline.extracted.all_tiers
          target.extracted.all_tiers in
      let impact = if has_changes drift then ContractImpact.breaking else classified.impact in
      let required =
        required_level_for impact (any (λ c. widens_surface c.kind) diff)
          (is_pre_one (parse_version version)) in
      record {
        target = target.name;
        initial_baseline = false;
        baseline = some baseline.snapshot;
        current = target.current;
        diff = diff;
        lower_tier_diff =
            filter (λ c. negate (contains c.id (map (λ d. d.id) diff))) all_tiers.changes;
        impact = impact;
        required_level = required;
        minimum_required_version = minimum_for (some baseline.package_version) required;
        baseline_version = some baseline.package_version;
        summary = summarize_changes diff impact false;
      }

  -- A target without one: its baseline files are written, which is not part of the result.
  unfoldable pub run_single_target_check : String → Target → ApiContractTargetResult
  run_single_target_check version target = elim target.baseline [
    | some baseline ↦ compare_target version target baseline
    | none ↦ record {
      target = target.name;
      initial_baseline = true;
      baseline = none;
      current = target.current;
      diff = [];
      lower_tier_diff = [];
      impact = ContractImpact.unchanged;
      required_level = some no_release;
      minimum_required_version = some "0.1.0";
      baseline_version = none;
      summary = summarize_initial_baseline;
    }
  ]

abbrev pub is_known : ApiContractTargetResult → Bool
is_known result = negate (is_unknown result.impact)

-- `reduce((worst, level) => maxLevel(worst, level), undefined)`
unfoldable pub worst_level :
    Option RequiredReleaseLevel → List ApiContractTargetResult → Option RequiredReleaseLevel
worst_level worst [] = worst
worst_level worst (result ∷ results) = worst_level (max_level worst result.required_level) results

-- The largest level of the known targets; no level where another target may need a larger one.
unfoldable pub aggregate_level : Bool → List ApiContractTargetResult → Option RequiredReleaseLevel
aggregate_level pre_one results =
    let worst = worst_level none (filter is_known results) in
    if any (λ result. is_unknown result.impact) results
      && worst !== some (if pre_one then minor else major)
    then none
    else worst

abbrev first_baseline_version : List ApiContractTargetResult → Option String
first_baseline_version results = elim (find? (λ result. negate result.initial_baseline) results) [
  | none ↦ none
  | some result ↦ result.baseline_version
]

abbrev reached_minimum : String → Option String → Bool
reached_minimum version none = false
reached_minimum version (some minimum) = has_reached (parse_version version) (parse_version minimum)

abbrev is_satisfied : RequiredReleaseLevel → Option RequiredReleaseLevel → Bool → Option Bool
is_satisfied declared none bumped = none
is_satisfied declared (some required) bumped = some (rank_at_least declared required || bumped)

-- What is made of the targets' results.
unfoldable pub collect_evidence :
    String → DeclaredRelease → List ApiContractTargetResult → ApiContractEvidence
collect_evidence version declared results =
    let required = aggregate_level (is_pre_one (parse_version version)) results in
    let minimum = minimum_for (first_baseline_version results) required in
    record {
      current_version = version;
      targets = results;
      required_level = required;
      minimum_required_version = minimum;
      summary = join "\n\n" (map (λ r. template ("[" ∷ r.target ∷ "] " ∷ r.summary ∷ [])) results);
      changesets = record {
        changeset_count = declared.changeset_count;
        declared_level = declared.declared_level;
        satisfied = is_satisfied declared.declared_level required (reached_minimum version minimum);
      };
    }

unfoldable pub run_api_contract_check :
    ResolveAssignability
    → (String → String → Bool)
    → String
    → String
    → Option (List (String × String))
    → List Target
    → ApiContractEvidence
run_api_contract_check resolve id_le name version changesets targets =
    collect_evidence version (declared_level_from_changesets changesets name)
      (map (run_single_target_check resolve id_le version) targets)
