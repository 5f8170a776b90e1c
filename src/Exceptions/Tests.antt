-- ===== src/Exceptions/Tests.antt =====
-- A check that could not run, with and without a record of it.
use internal_package_contrac.Shared.{
  String, false, List, [], ◌∷◌, ◌≡◌, ◌↔◌, ◌⊎◌, refl, string_Eq, template, join,
}
use internal_package_contrac.Shared.Dicts.{get, set, map_of}
use internal_package_contrac.Shared.Regex.{starts_with, is_digit, is_space, at_end, one}
use internal_package_contrac.Shared.Trim.{trim}
use internal_package_contrac.Shared.CodeUnits.{code_units, text_le}
use internal_package_contrac.Adoption.{date_pattern}
use internal_package_contrac.Report.{
  not_evaluated, unexcepted, failed, classify_result, ResultClass,
}
use internal_package_contrac.Exceptions.{v1, v2, ExceptionRecord, is_expired, is_iso_date}
use internal_package_contrac.Exceptions.Registry.{record_field_value}
use internal_package_contrac.Exceptions.Findings.{Loaded, records_of, load_errors}
use internal_package_contrac.Exceptions.Environment.{
  degraded, incomplete_fields, blank_fields, unaccepted, environment_exception_id, ids_of,
}
use internal_package_contrac.Exceptions.Environment.Accepts.{AreAccepted, degraded-class}

abbrev in_ci : String → ExceptionRecord
in_ci expires = record {
  id = "environment:CodeRabbit:ci";
  version = v2;
  fields =
      ("justification", "Reviews run in the App.")
      ∷ ("check", "CodeRabbit")
      ∷ ("code", "ci")
      ∷ ("ruleBroken", "Findings are addressed.")
      ∷ ("attempted", "Installing the CLI.")
      ∷ ("constraint", "No key in CI.")
      ∷ ("whyPreferable", "Threads block a merge.")
      ∷ ("residualRisk", "A finding that is not raised.")
      ∷ ("revisitWhen", "The CLI has a CI mode.")
      ∷ ("expires", expires)
      ∷ [];
}

abbrev loaded : String → Loaded
loaded expires = records_of (in_ci expires ∷ [])

degraded-class_example :
    ((errors : List String) × (loaded "" ≡ load_errors errors)
      × (classify_result (degraded "CodeRabbit" ("ci" ∷ []) "no CLI" (loaded "") "2026-05-01")
          ≡ failed))
    ⊎ ((records : List ExceptionRecord) × (loaded "" ≡ records_of records)
        × ((classify_result (degraded "CodeRabbit" ("ci" ∷ []) "no CLI" (loaded "") "2026-05-01")
              ≡ not_evaluated)
            ↔ AreAccepted records "2026-05-01" (ids_of "CodeRabbit" ("ci" ∷ [])))
        × ((classify_result (degraded "CodeRabbit" ("ci" ∷ []) "no CLI" (loaded "") "2026-05-01")
              ≡ unexcepted)
            ↔ ¬ AreAccepted records "2026-05-01" (ids_of "CodeRabbit" ("ci" ∷ []))))
degraded-class_example = degraded-class "CodeRabbit" ("ci" ∷ []) "no CLI" (loaded "") "2026-05-01"

class_of_run : String → ResultClass
class_of_run expires =
    classify_result (degraded "CodeRabbit" ("ci" ∷ []) "no CLI" (loaded expires) "2026-05-01")

accepted-run : class_of_run "" ≡ not_evaluated
unfolding class_of_run classify_result degraded unaccepted get map_of set environment_exception_id
    template incomplete_fields blank_fields trim is_space is_expired is_iso_date date_pattern
    starts_with join
accepted-run = refl

expired-run : class_of_run "2026-04-30" ≡ unexcepted
unfolding class_of_run classify_result degraded unaccepted get map_of set environment_exception_id
    template incomplete_fields blank_fields trim is_space is_expired is_iso_date date_pattern
    is_digit one at_end text_le code_units starts_with join
expired-run = refl

due_today : is_expired "2026-05-01" "2026-05-01" ≡ false
unfolding is_expired is_iso_date date_pattern is_digit one at_end text_le code_units
due_today = refl

legacy-value :
    record_field_value
      (record { id = "mutation:a"; version = v1; fields = ("justification", "same") ∷ [] })
      "attempted"
    ≡ "(legacy version 1 record)"
unfolding record_field_value get
legacy-value = refl
