-- ===== src/Security/Tests.antt =====
-- A scan of each kind.
use internal_package_contrac.Shared.{
  String, false, none, some, List, [], ◌∷◌, ◌++◌, ◌≡◌, ◌↔◌, refl, All, string_Eq, nat_Eq, template,
}
use internal_package_contrac.Shared.Dicts.{get, set, map_of, set_of}
use internal_package_contrac.Shared.Regex.{starts_with, literal, one, optional, at_end}
use internal_package_contrac.Shared.CodeUnits.{code_units}
use internal_package_contrac.Shared.Json.{
  Json, number, text, array, object, Items, item, no_items, field, no_fields,
}
use internal_package_contrac.Checks.Shared.{pass, search}
use internal_package_contrac.Exceptions.{
  ExceptionRecord, v1, allowed_keys, validate_known, is_in_namespace, spread,
}
use internal_package_contrac.Exceptions.Registry.{
  validate_exception_registry, validate_items, validate_one, validate_object, accept, accepted,
  record_field_value,
}
use internal_package_contrac.Exceptions.FieldChecks.{
  both, and_then, text_or, is_valid_non_empty_string_field, is_valid_optional_enum_field,
}
use internal_package_contrac.Exceptions.Security.{validate_security_exception_fields}
use internal_package_contrac.Exceptions.Accepted.{
  HasUniqueIds, Validates, validate_exception_registry-accepted_iff,
}
use internal_package_contrac.Exceptions.Findings.{
  Reconcile, reconciled, WriteResult, stored, records_of, persisted, PersistedExceptionRegistry,
  load_and_reconcile_exception_registry, reconcile_and_persist_exception_registry,
  evaluate_finding_verdict,
}
use internal_package_contrac.Exceptions.Evaluation.{evaluate, evaluate-IsEvaluation}
use internal_package_contrac.Security.Socket.{
  NormalizedSocketAlert, socket_exception_schema, socket_fields, derive_socket_exception_id,
  create_socket_stub, evaluate_alert, parse_example, around_last_at, without_ecosystem,
}
use internal_package_contrac.Security.Socket.Run.{scanned}
use internal_package_contrac.Security.Socket.Policy.{security_socket_policy, evaluate_final_verdict}
use internal_package_contrac.Security.Socket.Sound.{
  IsSocketRecord, socket_exception_schema-IsSettled, validate_exception_registry-IsSocketRecord,
}
use internal_package_contrac.Security.Socket.Permitted.{MayStand, security_socket_policy-MayStand}
use internal_package_contrac.Security.CodeScanning.{
  CodeScanningAlert, create_dev_stub, is_dev_path, test_file, without_glob, derive_code_scanning_id,
}
use internal_package_contrac.Security.CodeScanning.Policy.{judge_alerts, findings_of, registry_path}
use internal_package_contrac.Security.CodeScanning.DevOnly.{IsRejected, judge_alerts-IsRejected}

abbrev keep_all : {F : Type 0} → Reconcile F
keep_all existing findings id stub =
    reconciled (record { active_records = existing; stale_records = []; new_stub_ids = [] })

abbrev store : List ExceptionRecord → WriteResult
store records = stored

abbrev new_package : NormalizedSocketAlert
new_package = record {
  id = "socket:demo@self:unpopularPackage";
  package_name = "demo";
  version = "self";
  type = "unpopularPackage";
  severity = "middle";
  category = "quality";
}

abbrev fields_of : String → List (String × String)
fields_of exception_type =
    ("justification", "New.")
    ∷ ("alternatives", "None.")
    ∷ ("remediation", "Adoption.")
    ∷ ("method", "independent-human-review")
    ∷ ("exceptionType", exception_type)
    ∷ ("package", "demo")
    ∷ ("packageVersion", "self")
    ∷ ("type", "unpopularPackage")
    ∷ ("severity", "middle")
    ∷ []

abbrev known : ExceptionRecord
known = record { id = new_package.id; version = v1; fields = fields_of "accepted-risk" }

known-passes :
    (security_socket_policy evaluate keep_all store
      (records_of (known ∷ []))
      []
      (scanned (new_package ∷ []) "")).outcome
    ≡ pass
unfolding security_socket_policy load_and_reconcile_exception_registry
    reconcile_and_persist_exception_registry evaluate_final_verdict evaluate_alert
    evaluate_finding_verdict get map_of set record_field_value
known-passes = refl

security_socket_policy-MayStand_example :
    (existing : List ExceptionRecord) × (registry : PersistedExceptionRegistry) × (records_of
        (known ∷ [])
      ≡ records_of existing)
    × (keep_all existing (new_package ∷ []) (λ alert. alert.id) create_socket_stub
        ≡ reconciled registry)
    × (store (registry.active_records ++ registry.stale_records) ≡ stored)
    × All (MayStand registry.active_records) (new_package ∷ [])
    × (registry.stale_records ≡ [])
security_socket_policy-MayStand_example =
    security_socket_policy-MayStand evaluate evaluate-IsEvaluation keep_all store
      (records_of (known ∷ [])) [] (new_package ∷ []) "" known-passes

abbrev entry_of : String → Json
entry_of exception_type = object (
    field "id" (text "socket:demo@self:unpopularPackage") (
      field "version" (number "1") (
        field "justification" (text "New.") (
          field "alternatives" (text "None.") (
            field "remediation" (text "Adoption.") (
              field "method" (text "independent-human-review") (
                field "exceptionType" (text exception_type) (
                  field "package" (text "demo") (
                    field "packageVersion" (text "self") (
                      field "type" (text "unpopularPackage")
                        (field "severity" (text "middle") no_fields)))))))))))

abbrev entries : Items
entries = item (entry_of "accepted-risk") no_items

known-accepted :
    validate_exception_registry socket_exception_schema (array entries) ≡ accepted (known ∷ [])
unfolding validate_exception_registry validate_items accept validate_one validate_object
    is_in_namespace starts_with code_units allowed_keys set_of validate_known and_then socket_fields
    both validate_security_exception_fields text_or is_valid_optional_enum_field
    is_valid_non_empty_string_field get set template derive_socket_exception_id
known-accepted = refl

validate_exception_registry-IsSocketRecord_example :
    All IsSocketRecord (known ∷ []) × HasUniqueIds (known ∷ [])
validate_exception_registry-IsSocketRecord_example =
    validate_exception_registry-IsSocketRecord entries (known ∷ []) known-accepted

validate_exception_registry-accepted_iff_example :
    (validate_exception_registry socket_exception_schema (array entries) ≡ accepted (known ∷ []))
    ↔ (Validates socket_exception_schema 0 entries (known ∷ []) × HasUniqueIds (known ∷ []))
validate_exception_registry-accepted_iff_example =
    validate_exception_registry-accepted_iff socket_exception_schema
      socket_exception_schema-IsSettled entries (known ∷ [])

abbrev in_test : CodeScanningAlert
in_test = record {
  number = 7;
  rule = "js/bad-tag-filter";
  severity = "error";
  path = "lib/banner.test.ts";
  line = 3;
  message = "Bad filter.";
}

abbrev in_test_record : ExceptionRecord
in_test_record =
    create_dev_stub
      (record {
        id = "code-scanning:js/bad-tag-filter@lib/banner.test.ts";
        rule = in_test.rule;
        path = in_test.path;
      })
      "code-scanning:js/bad-tag-filter@lib/banner.test.ts"

in_test-passes :
    (judge_alerts evaluate keep_all store
      (records_of (in_test_record ∷ []))
      ("dist" ∷ [])
      (in_test ∷ [])).outcome
    ≡ pass
unfolding judge_alerts is_dev_path without_glob literal starts_with template search test_file one
    optional at_end load_and_reconcile_exception_registry reconcile_and_persist_exception_registry
    findings_of map_of set evaluate_finding_verdict get record_field_value spread create_dev_stub
    derive_code_scanning_id
in_test-passes = refl

judge_alerts-IsRejected_example :
    (registry : PersistedExceptionRegistry) × ((load_and_reconcile_exception_registry keep_all store
        (records_of (in_test_record ∷ []))
        registry_path
        (findings_of (in_test ∷ []))
        (λ finding. finding.id)
        create_dev_stub).result
      ≡ persisted registry)
    × All (IsRejected ("dist" ∷ []) registry.active_records) (in_test ∷ [])
judge_alerts-IsRejected_example =
    judge_alerts-IsRejected evaluate evaluate-IsEvaluation keep_all store
      (records_of (in_test_record ∷ [])) ("dist" ∷ []) (in_test ∷ []) in_test-passes

published_scripts : is_dev_path "scripts/run.mjs" ("./scripts/**" ∷ []) ≡ false
unfolding is_dev_path without_glob literal starts_with template
published_scripts = refl

scoped : parse_example "npm/@scope/pkg@1.2.3" ≡ some ("@scope/pkg", "1.2.3")
unfolding parse_example around_last_at without_ecosystem literal
scoped = refl

unversioned : parse_example "npm/@scope" ≡ none
unfolding parse_example around_last_at without_ecosystem literal
unversioned = refl
