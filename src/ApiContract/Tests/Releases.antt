-- ===== src/ApiContract/Tests/Releases.antt =====
-- Concrete versions, changesets and evidence, and what the theorems give for them.
use Prim.Native.Nat.{◌≤◌}
use internal_package_contrac.Shared.{
  String, true, false, Option, none, some, List, [], ◌∷◌, ◌≡◌, ◌≢◌, ◌⊎◌, ◌↔◌, refl, Memᴰ, All,
  if◌then◌else◌, string_Eq, length, filter, template,
}
use internal_package_contrac.Shared.Int.{is_negative, is_zero}
use internal_package_contrac.ApiContract.Evidence.{
  RequiredReleaseLevel, no_release, minor, major, ContractImpact, ApiContractChange,
  ApiContractSnapshot, ApiContractTargetResult, ApiContractEvidence,
}
use internal_package_contrac.ApiContract.Semver.{
  compare_versions, compute_minimum_required_version, version_pattern, version_suffix, is_pre_one,
  Version, parse_version, format_version,
}
use internal_package_contrac.ApiContract.Semver.RoundTrip.{parse_version-format_version}
use internal_package_contrac.ApiContract.Semver.Order.{
  Precedes, Releases, compare_versions_iff, compute_minimum_required_version_reached,
}
use internal_package_contrac.ApiContract.Changesets.{
  is_changeset, bump_line, declared_level_from_changesets,
}
use internal_package_contrac.ApiContract.Changesets.Largest.{
  levels_declared, declared_level_from_changesets-largest,
}
use internal_package_contrac.ApiContract.Changesets.Lines
use internal_package_contrac.ApiContract.Changesets.Lines.{bump_line-written}
use internal_package_contrac.ApiContract.Check.{
  worst_level, is_known, aggregate_level, collect_evidence,
}
use internal_package_contrac.ApiContract.Check.Required.{
  aggregate_level-covers, collect_evidence_satisfied_iff,
}
use internal_package_contrac.ApiContract.Policy.Verdict.{api_contract_policy-fails_closed}
use internal_package_contrac.Checks.Shared.{warn, fail, CheckEvidence}
use internal_package_contrac.ApiContract.Levels.{level_rank, max_level}
use internal_package_contrac.ApiContract.Policy.{
  evaluate_api_contract_policy, evaluate_determinant, get_api_contract_determinant,
  api_contract_policy,
}
use internal_package_contrac.Shared.Trim.{trim}
use internal_package_contrac.Shared.Decimals.{number}
use internal_package_contrac.Shared.Regex.{is_digit, is_any, at_end, one, star, plus, is_space}
use mathlib.Core.List.{Permᴰ}
use internal_package_contrac.Shared.{◌<◌}
use internal_package_contrac.ApiContract.Levels.{required_level_for}
use internal_package_contrac.ApiContract.Levels.Laws.{required_level_for_bounds}
use internal_package_contrac.ApiContract.Classifier.Changes.{impact_rank}
use internal_package_contrac.ApiContract.Check.Unordered.{aggregate_level_unordered}

abbrev v_1_2_3 : Version
v_1_2_3 = record { major = 1; minor = 2; patch = 3 }

abbrev v_1_3_0 : Version
v_1_3_0 = record { major = 1; minor = 3; patch = 0 }

parse_version-format_version_example : parse_version (format_version v_1_2_3) ≡ some v_1_2_3
parse_version-format_version_example = parse_version-format_version v_1_2_3

compare_versions_iff_example :
    ((is_negative (compare_versions v_1_2_3 v_1_3_0) ≡ true) ↔ Precedes v_1_2_3 v_1_3_0)
    × ((is_zero (compare_versions v_1_2_3 v_1_3_0) ≡ true) ↔ (v_1_2_3 ≡ v_1_3_0))
compare_versions_iff_example = compare_versions_iff v_1_2_3 v_1_3_0

compute_minimum_required_version_reached_example :
    (m : Version) × (parse_version (compute_minimum_required_version (some v_1_2_3) minor) ≡ some m)
    × ((is_negative (compare_versions v_1_3_0 m) ≡ false) ↔ Releases minor v_1_2_3 v_1_3_0)
compute_minimum_required_version_reached_example =
    compute_minimum_required_version_reached v_1_2_3 v_1_3_0 minor

parsed_1_2_3 : parse_version "1.2.3" ≡ some v_1_2_3
unfolding parse_version version_pattern version_suffix trim number is_digit is_any at_end one star
    plus is_space
parsed_1_2_3 = refl

parsed_1_3_0 : parse_version "1.3.0" ≡ some v_1_3_0
unfolding parse_version version_pattern version_suffix trim number is_digit is_any at_end one star
    plus is_space
parsed_1_3_0 = refl

abbrev changeset_files : List (String × String)
changeset_files =
    ("README.md", "---\n\"pkg\": major\n---\n")
    ∷ ("a.md", "---\n\"pkg\": patch\n---\nA fix.\n")
    ∷ ("b.md", "---\n\"pkg\": minor\n---\nA feature.\n")
    ∷ []

declared_level_from_changesets-largest_example :
    let levels = levels_declared "pkg" (filter (λ file. is_changeset file.0) changeset_files) in
    let r = declared_level_from_changesets (some changeset_files) "pkg" in
    (r.changeset_count ≡ length levels)
    × All (λ l. level_rank l ≤ level_rank r.declared_level) levels
    × ((r.declared_level ≡ no_release) ⊎ Memᴰ r.declared_level levels)
declared_level_from_changesets-largest_example =
    declared_level_from_changesets-largest "pkg" changeset_files

bump_line-written_example :
    bump_line (template ("\"" ∷ "pkg" ∷ "\": " ∷ Lines.level_text minor ∷ [])) ≡ some ("pkg", minor)
bump_line-written_example = bump_line-written "pkg" minor tt (refl, (refl, (refl, tt))) (λ h. cc)

abbrev snapshot : ApiContractSnapshot
snapshot = record {
  package_name = "pkg";
  api_extractor_version = "7.52.0";
  api_json_schema_version = 1011;
  api_json_hash = "0";
  api_report_path = none;
}

abbrev result_of :
    String
    → ContractImpact
    → Option RequiredReleaseLevel
    → List ApiContractChange
    → ApiContractTargetResult
result_of name impact level diff = record {
  target = name;
  initial_baseline = false;
  baseline = some snapshot;
  current = snapshot;
  diff = diff;
  lower_tier_diff = [];
  impact = impact;
  required_level = level;
  minimum_required_version = none;
  baseline_version = some "1.2.3";
  summary = "";
}

abbrev widened : ApiContractTargetResult
widened = result_of "index" ContractImpact.compatible (some minor) []

abbrev two_results : List ApiContractTargetResult
two_results = widened ∷ result_of "cli" ContractImpact.unchanged (some no_release) [] ∷ []

two_results-level : aggregate_level false two_results ≡ some minor
unfolding aggregate_level worst_level max_level
two_results-level = refl

aggregate_level-covers_example :
    ((l : RequiredReleaseLevel)
      → is_known widened ≡ true
      → widened.required_level ≡ some l
      → level_rank l ≤ level_rank minor)
    × (is_known widened ≡ false → minor ≡ (if false then minor else major))
aggregate_level-covers_example =
    aggregate_level-covers false two_results minor two_results-level widened (Memᴰ.head refl)

collect_evidence_satisfied_iff_example :
    ((collect_evidence "1.3.0"
        (record { changeset_count = 0; declared_level = no_release })
        two_results).changesets.satisfied
      ≡ some true)
    ↔ ((r : RequiredReleaseLevel) × (aggregate_level
            (is_pre_one (parse_version "1.3.0"))
            two_results
          ≡ some r)
        × ((level_rank r ≤ level_rank no_release) ⊎ Releases r v_1_2_3 v_1_3_0))
collect_evidence_satisfied_iff_example =
    collect_evidence_satisfied_iff "1.3.0" "1.2.3"
      (record { changeset_count = 0; declared_level = no_release }) two_results v_1_2_3 v_1_3_0
      parsed_1_3_0 refl parsed_1_2_3

abbrev some_evidence : ApiContractEvidence
some_evidence = record {
  current_version = "1.2.3";
  targets = result_of "index" ContractImpact.unknown none [] ∷ [];
  required_level = none;
  minimum_required_version = none;
  summary = "";
  changesets = record { changeset_count = 0; declared_level = no_release; satisfied = none };
}

some_evidence-warns : (evaluate_api_contract_policy some_evidence).outcome ≡ warn
unfolding evaluate_api_contract_policy evaluate_determinant get_api_contract_determinant
some_evidence-warns = refl

abbrev timed_out : CheckEvidence ApiContractEvidence
timed_out = record {
  status = "timed_out";
  spawn_error_code = none;
  spawn_error = none;
  stdout = "";
  stderr = "";
  output = some some_evidence;
}

api_contract_policy-fails_closed_example :
    (timed_out.status ≢ "completed" → (api_contract_policy timed_out).outcome ≡ fail)
    × (timed_out.output ≡ none → (api_contract_policy timed_out).outcome ≡ fail)
    × ((evidence : ApiContractEvidence)
        → timed_out.status ≡ "completed"
        → timed_out.output ≡ some evidence
        → api_contract_policy timed_out ≡ evaluate_api_contract_policy evidence)
api_contract_policy-fails_closed_example = api_contract_policy-fails_closed timed_out

required_level_for_bounds_example :
    ((required_level_for ContractImpact.compatible true false ≡ none)
      ↔ (ContractImpact.compatible ≡ ContractImpact.unknown))
    × (required_level_for ContractImpact.compatible true true ≢ some major)
    × (impact_rank ContractImpact.compatible < impact_rank ContractImpact.breaking
        → required_level_for ContractImpact.compatible true false ≡ some minor
        → required_level_for ContractImpact.breaking false false ≡ some major
        → level_rank minor ≤ level_rank major)
required_level_for_bounds_example =
    required_level_for_bounds ContractImpact.compatible ContractImpact.breaking true false false
      minor major

abbrev settled : ApiContractTargetResult
settled = result_of "cli" ContractImpact.unchanged (some no_release) []

aggregate_level_unordered_example :
    aggregate_level false (widened ∷ settled ∷ []) ≡ aggregate_level false (settled ∷ widened ∷ [])
aggregate_level_unordered_example = aggregate_level_unordered false (Permᴰ.swap refl refl)
