-- ===== src/Exceptions/Environment.antt =====
-- Exceptions for "this check could not run here" (checks/environment-exceptions.ts). The registry as
-- it was loaded and the date of the clock are arguments.
pub mod Accepts
use internal_package_contrac.Shared.{
  ℕ, String, Bool, true, false, Option, none, some, List, [], ◌∷◌, ◌++◌, map, template, join, ◌===◌,
  string_Eq, if◌then◌else◌,
}
use internal_package_contrac.Shared.Dicts.{get, map_of}
use internal_package_contrac.Shared.Json.{Fields, lookup}
use internal_package_contrac.Shared.Trim.{trim}
use internal_package_contrac.Checks.Shared.{warn, fail, PolicyResult}
use internal_package_contrac.Report.{not_evaluated_accepted, not_evaluated_unexcepted}
use internal_package_contrac.Exceptions.{
  ExceptionRecord, ExceptionRegistrySchema, Checked, v2_field_keys, is_expired,
}
use internal_package_contrac.Exceptions.FieldChecks.{
  both, and_then, is_valid_non_empty_string_field,
}
use internal_package_contrac.Exceptions.Security.{field_place, derived_record}
use internal_package_contrac.Exceptions.Findings.{Loaded, records_of, load_errors}
use internal_package_contrac.Exceptions.Active.{active_by_id}

abbrev pub registry_path : String
registry_path = ".repo-contract/exceptions/environment.json"

unfoldable pub environment_exception_id : String → String → String
environment_exception_id check code = template ("environment:" ∷ check ∷ ":" ∷ code ∷ [])

abbrev environment_record : String → String → ℕ → String × String → Checked ExceptionRecord
environment_record id justification index (check, code) =
    derived_record (environment_exception_id check code) "check and code" id justification index
      (("check", check) ∷ ("code", code) ∷ [])

abbrev pub environment_exception_schema : ExceptionRegistrySchema
environment_exception_schema = record {
  namespace = "environment:";
  metadata_keys = "check" ∷ "code" ∷ [];
  validate_record = λ id justification raw index.
      and_then
        (both (is_valid_non_empty_string_field (lookup "check" raw) (field_place index "check"))
          (is_valid_non_empty_string_field (lookup "code" raw) (field_place index "code")))
        (environment_record id justification index);
}

-- Missing, or nothing but white space.
abbrev is_blank : Option String → Bool
is_blank none = true
is_blank (some s) = trim s === ""

unfoldable pub blank_fields : ExceptionRecord → List String → List String
blank_fields r [] = []
blank_fields r (key ∷ keys) =
    if is_blank (get key r.fields) then key ∷ blank_fields r keys else blank_fields r keys

abbrev expired_field : Option String → String → List String
expired_field none today = []
expired_field (some expires) today =
    if is_expired expires today
    then template ("expires (" ∷ expires ∷ " has passed)" ∷ []) ∷ []
    else []

unfoldable pub incomplete_fields : ExceptionRecord → String → List String
incomplete_fields r today =
    blank_fields r ("justification" ∷ v2_field_keys) ++ expired_field (get "expires" r.fields) today

abbrev missing_of : String → List String → List String
missing_of id [] = []
missing_of id (key ∷ keys) = template (id ∷ " (missing: " ∷ join ", " (key ∷ keys) ∷ ")" ∷ []) ∷ []

abbrev unaccepted_of : List ExceptionRecord → String → String → List String
unaccepted_of records today id = elim (active_by_id records id) [
  | none ↦ template (id ∷ " (no record)" ∷ []) ∷ []
  | some r ↦ missing_of id (incomplete_fields r today)
]

unfoldable pub unaccepted : List ExceptionRecord → String → List String → List String
unaccepted records today [] = []
unaccepted records today (id ∷ ids) = unaccepted_of records today id ++ unaccepted records today ids

abbrev warning : List String → List String → String → PolicyResult
warning ids [] rationale = record {
  outcome = warn;
  rationale = template (not_evaluated_accepted ∷ " " ∷ join ", " ids ∷ "): " ∷ rationale ∷ []);
}
warning ids (u ∷ us) rationale = record {
  outcome = warn;
  rationale = template (
      not_evaluated_unexcepted
      ∷ "; add or complete in "
      ∷ registry_path
      ∷ ": "
      ∷ join "; " (u ∷ us)
      ∷ "): "
      ∷ rationale
      ∷ []);
}

abbrev error_line : String → String
error_line error = template ("- " ∷ error ∷ [])

abbrev pub ids_of : String → List String → List String
ids_of check = map (environment_exception_id check)

unfoldable pub degraded : String → List String → String → Loaded → String → PolicyResult
degraded check codes rationale (load_errors errors) today = record {
  outcome = fail;
  rationale = join "\n" (
      template (
        registry_path ∷ " failed to load, so \"" ∷ check ∷ " could not run\" cannot be judged:"
        ∷ [])
      ∷ map error_line errors);
}
degraded check codes rationale (records_of records) today =
    warning (ids_of check codes) (unaccepted records today (ids_of check codes)) rationale
