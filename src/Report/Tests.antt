-- ===== src/Report/Tests.antt =====
-- A run with a failure that is advisory, and one whose result is not evaluated.
use internal_package_contrac.Shared.{
  String, true, false, none, List, [], ◌∷◌, ◌≡◌, ◌≢◌, ◌↔◌, refl, All, string_Eq, option_Eq,
}
use internal_package_contrac.Shared.Dicts.{get}
use internal_package_contrac.Shared.Regex.{starts_with}
use internal_package_contrac.Checks.Shared.{PolicyResult, pass, warn, fail}
use internal_package_contrac.Adoption.{Adoption, absent, active, is_failing, advisory_failures}
use internal_package_contrac.Report.{
  unexcepted, classify_result, count_all, build_report, report_run, is_active, exit_code, is_ci,
  is_strict,
}
use internal_package_contrac.Report.Passed.{is_excused, report_run-passed_iff}

abbrev results : List (String × PolicyResult)
results =
    ("Lint", record { outcome = pass; rationale = "clean" })
    ∷ ("Docs", record { outcome = fail; rationale = "2 dead links" })
    ∷ (
      "Pa11y",
      record { outcome = warn; rationale = "Not evaluated (no exception recorded): no Chrome" },
    )
    ∷ []

abbrev adopting : Adoption
adopting =
    active (record { started_at = "2026-01-01"; expires_at = "2026-03-01"; enforce = "Lint" ∷ [] })
      none

report_run-passed_iff_example : ((report_run results [] [] true adopting).is_passed ≡ true) ↔ (
    All (λ p. is_failing p.1.outcome ≡ true → is_excused adopting p ≡ true) results
    × (true ≡ true
        → is_active adopting ≡ false
        → All (λ p. classify_result p.1 ≢ unexcepted) results))
report_run-passed_iff_example = report_run-passed_iff results [] [] true adopting

adopting-passes : exit_code (report_run results [] [] true adopting) ≡ 0
unfolding exit_code report_run build_report count_all classify_result advisory_failures starts_with
    get
adopting-passes = refl

enforcing-fails : exit_code (report_run results [] ("CodeRabbit" ∷ []) false absent) ≡ 1
unfolding exit_code report_run build_report count_all classify_result advisory_failures starts_with
    get
enforcing-fails = refl

strict_in_ci : is_strict [] (("CI", "1") ∷ []) ≡ true
unfolding is_strict is_ci get
strict_in_ci = refl

not_strict : is_strict ("--no-strict" ∷ []) (("CI", "1") ∷ []) ≡ false
unfolding is_strict is_ci get
not_strict = refl
