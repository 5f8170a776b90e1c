-- ===== src/Report.antt =====
-- The record of a contract's run and its exit code (scripts/contract-report.mjs, and the end of
-- scripts/contract-run.mjs). The results are in the order of the run; the durations of the checks
-- come with them, as the evidence holds them.
pub mod Counting
pub mod Passed
mod Tests
use internal_package_contrac.Shared.{
  ℕ, ◌+◌, String, Bool, true, false, ◌&&◌, ◌||◌, Option, none, some, List, [], ◌∷◌, ◌++◌, map,
  length, negate, ltb, ◌===◌, ◌!==◌, string_Eq, option_Eq, if◌then◌else◌,
}
use internal_package_contrac.Shared.Dicts.{get, contains}
use internal_package_contrac.Shared.Regex.{starts_with}
use internal_package_contrac.Checks.Shared.{Outcome, pass, warn, fail, PolicyResult}
use internal_package_contrac.Adoption.{Adoption, active, advisory_failures}

abbrev pub not_evaluated_accepted : String
not_evaluated_accepted = "Not evaluated (accepted by"

abbrev pub not_evaluated_unexcepted : String
not_evaluated_unexcepted = "Not evaluated (no exception recorded"

pub data ResultClass : Type 0 where
  passed warned not_evaluated unexcepted failed skipped : ResultClass

abbrev class_of_warning : String → ResultClass
class_of_warning rationale =
    if starts_with rationale not_evaluated_accepted
    then not_evaluated
    else if starts_with rationale not_evaluated_unexcepted
    then unexcepted
    else warned

abbrev class_of : Outcome → String → ResultClass
class_of pass rationale = passed
class_of fail rationale = failed
class_of warn rationale = class_of_warning rationale

unfoldable pub classify_result : PolicyResult → ResultClass
classify_result result = class_of result.outcome result.rationale

-- One check in the report; `none` is the outcome `skipped`.
pub record ReportedCheck : Type 0 where
  pub id : String
  pub outcome : Option Outcome
  pub result_class : ResultClass
  pub rationale : String
  pub duration_ms : ℕ

pub record Counts : Type 0 where
  pub pass_count : ℕ
  pub warn_count : ℕ
  pub not_evaluated_count : ℕ
  pub unexcepted_count : ℕ
  pub fail_count : ℕ
  pub skipped_count : ℕ

abbrev no_counts : Counts
no_counts = record {
  pass_count = 0;
  warn_count = 0;
  not_evaluated_count = 0;
  unexcepted_count = 0;
  fail_count = 0;
  skipped_count = 0;
}

-- `counts[class] += 1`
abbrev pub count_one : ResultClass → Counts → Counts
count_one passed c = record c { pass_count = c.pass_count + 1 }
count_one warned c = record c { warn_count = c.warn_count + 1 }
count_one not_evaluated c = record c { not_evaluated_count = c.not_evaluated_count + 1 }
count_one unexcepted c = record c { unexcepted_count = c.unexcepted_count + 1 }
count_one failed c = record c { fail_count = c.fail_count + 1 }
count_one skipped c = record c { skipped_count = c.skipped_count + 1 }

unfoldable pub count_all : List ReportedCheck → Counts → Counts
count_all [] c = c
count_all (check ∷ checks) c = count_all checks (count_one check.result_class c)

abbrev duration_in : List (String × ℕ) → String → ℕ
duration_in durations id = elim (get id durations) [ none ↦ 0 | some ms ↦ ms ]

abbrev pub reported : List (String × ℕ) → String × PolicyResult → ReportedCheck
reported durations (id, result) = record {
  id = id;
  outcome = some result.outcome;
  result_class = classify_result result;
  rationale = result.rationale;
  duration_ms = duration_in durations id;
}

abbrev not_run : String → ReportedCheck
not_run id = record {
  id = id;
  outcome = none;
  result_class = skipped;
  rationale = "Not run: it spends scarce quota, so it runs only after every other check passed.";
  duration_ms = 0;
}

abbrev total_duration : List ReportedCheck → ℕ
total_duration [] = 0
total_duration (check ∷ checks) = check.duration_ms + total_duration checks

pub record Report : Type 0 where
  pub strict : Bool
  pub is_passed : Bool
  pub counts : Counts
  pub advisory : List String
  pub total_duration_ms : ℕ
  pub checks : List ReportedCheck

unfoldable pub build_report :
    List (String × PolicyResult) → List (String × ℕ) → List String → Bool → List String → Report
build_report results durations skipped_ids strict advisory =
    let checks = map (reported durations) results ++ map not_run skipped_ids in
    let counts = count_all checks no_counts in
    let is_failed =
      ltb (length advisory) counts.fail_count || (strict && ltb 0 counts.unexcepted_count) in
    record {
      strict = strict;
      is_passed = negate is_failed;
      counts = counts;
      advisory = advisory;
      total_duration_ms = total_duration checks;
      checks = checks;
    }

abbrev is_truthy : Option String → Bool
is_truthy none = false
is_truthy (some ci) = ci !== "" && (ci !== "false" && ci !== "0")

unfoldable pub is_ci : List (String × String) → Bool
is_ci env = is_truthy (get "CI" env) || (get "GITHUB_ACTIONS" env === some "true")

unfoldable pub is_strict : List String → List (String × String) → Bool
is_strict argv env =
    if contains "--no-strict" argv then false else contains "--strict" argv || is_ci env

abbrev pub is_active : Adoption → Bool
is_active (active file left) = true
is_active _ = false

abbrev pub outcome_of : String × PolicyResult → String × Outcome
outcome_of (id, result) = (id, result.outcome)

-- The report of a run in a package that may be adopting the standard.
unfoldable pub report_run :
    List (String × PolicyResult) → List (String × ℕ) → List String → Bool → Adoption → Report
report_run results durations skipped_ids strict adoption =
    build_report results durations skipped_ids (strict && negate (is_active adoption))
      (advisory_failures (map outcome_of results) adoption)

unfoldable pub exit_code : Report → ℕ
exit_code report = if report.is_passed then 0 else 1
