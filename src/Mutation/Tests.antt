-- ===== src/Mutation/Tests.antt =====
-- A report with a mutant that was killed and one that survived, as a record says.
use internal_package_contrac.Shared.{
  ℕ, String, false, Option, none, some, List, [], ◌∷◌, ◌≡◌, ◌≢◌, ◌⊎◌, refl, All, string_Eq, nat_Eq,
  template,
}
use internal_package_contrac.Shared.CodeUnits.{text_le, code_units}
use internal_package_contrac.Shared.Dicts.{get, set, set_of}
use internal_package_contrac.Shared.Json.{
  Json, number, text, array, object, item, no_items, field, no_fields,
}
use internal_package_contrac.Checks.Shared.{pass, CheckEvidence, abnormal_termination}
use internal_package_contrac.Exceptions.{
  ExceptionRecord, is_in_namespace, allowed_keys, validate_known, spread,
}
use internal_package_contrac.Exceptions.Registry.{
  RegistryResult, accepted, rejected, record_field_value, validate_exception_registry,
  validate_items, accept, validate_one, validate_object,
}
use internal_package_contrac.Shared.Regex.{starts_with}
use internal_package_contrac.Exceptions.FieldChecks.{
  both, and_then, text_or, is_valid_non_empty_string_field,
}
use internal_package_contrac.Exceptions.Findings.{Loaded, records_of, load_errors}
use internal_package_contrac.Exceptions.Evaluation.{evaluate, evaluate-IsEvaluation}
use internal_package_contrac.Mutation.{
  matches_record, resolve_record_outcome, apply_exception_registry,
}
use internal_package_contrac.Mutation.Report.{
  mutation_fields, derive_mutation_id, Mutant, MutationReport, extract_span, resolve_mutants,
}
use internal_package_contrac.Mutation.Score.{judge_report, summarize_mutation_score}
use internal_package_contrac.Mutation.Policy.{
  mutation_policy, MayPass, names_report, registry_validation, shard_spec_of,
  mutation_policy-MayPass,
}

abbrev mutant : String → String → Mutant
mutant status replacement = record {
  status = status;
  mutator_name = some "ConditionalExpression";
  replacement = some replacement;
  location =
      some
        (record { start = record { line = 2; column = 4 }; end = record { line = 2; column = 9 } });
}

abbrev report : MutationReport
report = record {
  files = some (
      (
        "src/index.ts",
        record {
          mutants = some (mutant "Killed" "true" ∷ mutant "Survived" "false" ∷ []);
          source = some "f =\n  (a < b)";
        },
      )
      ∷ []);
}

-- The registry, whose one record describes the mutant that survived.
abbrev registry : Json
registry = array (
    item
      (object (
        field "id" (text "mutation:src/index.ts:ConditionalExpression:0123456789ab") (
          field "version" (number "1") (
            field "justification" (text "Equal for each input.") (
              field "file" (text "src/index.ts") (
                field "mutator" (text "ConditionalExpression") (
                  field "original" (text "a < b")
                    (field "replacement" (text "false") no_fields))))))))
      no_items)

abbrev percent : ℕ → ℕ → String
percent detected valid = "100.00"

abbrev digest : String → String → String
digest original replacement = "0123456789abcdef"

abbrev affected : Option (List String)
affected = none

abbrev loaded_of : RegistryResult → Loaded
loaded_of (accepted records) = records_of records
loaded_of (rejected errors) = load_errors errors

abbrev load : (Json → RegistryResult) → Loaded
load validate = loaded_of (validate registry)

abbrev result : CheckEvidence String
result = record {
  status = "completed";
  spawn_error_code = none;
  spawn_error = none;
  stdout = "";
  stderr = "";
  output = none;
}

policy-passes :
    (mutation_policy digest text_le percent evaluate affected none none result
      (some report)
      load).outcome
    ≡ pass
unfolding mutation_policy abnormal_termination validate_exception_registry validate_items accept
    validate_one validate_object is_in_namespace starts_with code_units allowed_keys set_of
    validate_known and_then mutation_fields both is_valid_non_empty_string_field text_or
    derive_mutation_id spread shard_spec_of resolve_mutants extract_span judge_report
    summarize_mutation_score apply_exception_registry matches_record resolve_record_outcome get set
    record_field_value template
policy-passes = refl

mutation_policy-MayPass_example :
    ((affected ≡ some []) × (names_report none ≡ false))
    ⊎ ((read : MutationReport) × (records : List ExceptionRecord) × (abnormal_termination result
            "Stryker"
          ≡ none)
        × (some report ≡ some read)
        × (load (registry_validation digest) ≡ records_of records)
        × (resolve_mutants read ≢ [])
        × All (MayPass records) (resolve_mutants read))
mutation_policy-MayPass_example =
    mutation_policy-MayPass digest text_le percent evaluate evaluate-IsEvaluation affected none none
      result (some report) load policy-passes
