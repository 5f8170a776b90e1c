-- ===== src/Security/Socket.antt =====
-- The alerts of Socket.dev, their exception records and the policy for them
-- (checks/security-socket.ts).
pub mod Guidance
pub mod Run
pub mod Policy
pub mod Sound
pub mod Permitted
use Prim.Native.Char.{Char, code}
use Prim.Native.String
use internal_package_contrac.Shared.{
  ℕ, suc, String, Bool, true, false, ◌||◌, Option, none, some, List, [], ◌∷◌, ◌++◌, template, ◌===◌,
  string_Eq, nat_Eq, option_Eq, if◌then◌else◌,
}
use internal_package_contrac.Shared.Json.{
  Json, object, Items, no_items, item, Fields, lookup, string_of,
}
use internal_package_contrac.Shared.Regex.{literal, starts_with}
use internal_package_contrac.Checks.Shared.{literal_any_case}
use internal_package_contrac.Exceptions.{
  ExceptionRecord, ExceptionRegistrySchema, v2, v2_field_keys, empty_v2_fields, Checked,
}
use internal_package_contrac.Exceptions.FieldChecks.{
  both, and_then, is_valid_non_empty_string_field, is_valid_optional_enum_field,
}
use internal_package_contrac.Exceptions.Security.{
  SecurityExceptionFields, security_exception_field_keys, security_entries, socket_exception_types,
  validate_security_exception_fields, field_place, derived_record,
}
use internal_package_contrac.Exceptions.Findings.{
  ExceptionPolicy, forbidding, requiring, GroupPolicy, Evaluate, Determinant,
  evaluate_finding_verdict,
}

pub record NormalizedSocketAlert : Type 0 where
  pub id : String
  pub package_name : String
  pub version : String
  pub type : String
  pub severity : String
  pub category : String

abbrev record_severity_values : List String
record_severity_values = "critical" ∷ "high" ∷ "middle" ∷ "low" ∷ "unknown" ∷ []

-- The id of a package, its version and an alert's type.
unfoldable pub derive_socket_exception_id : String → String → String → String
derive_socket_exception_id package_name package_version type =
    template ("socket:" ∷ package_name ∷ "@" ∷ package_version ∷ ":" ∷ type ∷ [])

unfoldable pub create_socket_stub : NormalizedSocketAlert → String → ExceptionRecord
create_socket_stub alert id = record {
  id = id;
  version = v2;
  fields =
      ("justification", "")
      ∷ ("alternatives", "")
      ∷ ("remediation", "")
      ∷ ("method", "")
      ∷ ("exceptionType", "")
      ∷ (empty_v2_fields
          ++ (("package", alert.package_name)
              ∷ ("packageVersion", alert.version)
              ∷ ("type", alert.type)
              ∷ ("severity", alert.severity)
              ∷ []));
}

-- The fields of an entry, validated one by one.
abbrev pub SocketFields : Type 0
SocketFields = SecurityExceptionFields × (String × (String × (String × String)))

unfoldable pub socket_fields : Fields → ℕ → Checked SocketFields
socket_fields raw index =
    both (validate_security_exception_fields raw index socket_exception_types) (
      both (is_valid_non_empty_string_field (lookup "package" raw) (field_place index "package")) (
        both
          (is_valid_non_empty_string_field (lookup "packageVersion" raw)
            (field_place index "packageVersion"))
          (both (is_valid_non_empty_string_field (lookup "type" raw) (field_place index "type")) (
            is_valid_optional_enum_field (lookup "severity" raw) (field_place index "severity")
              record_severity_values))))

abbrev pub socket_record : String → String → ℕ → SocketFields → Checked ExceptionRecord
socket_record id justification index (security, (package_name, (version, (type, severity)))) =
    derived_record (derive_socket_exception_id package_name version type)
      "package/packageVersion/type" id justification index
      (security_entries security
        ++ ("package", package_name)
          ∷ ("packageVersion", version)
          ∷ ("type", type)
          ∷ ("severity", severity)
          ∷ [])

abbrev pub socket_exception_schema : ExceptionRegistrySchema
socket_exception_schema = record {
  namespace = "socket:";
  metadata_keys =
      security_exception_field_keys ++ ("package" ∷ "packageVersion" ∷ "type" ∷ "severity" ∷ []);
  validate_record = λ id justification raw index.
      and_then (socket_fields raw index) (socket_record id justification index);
}

abbrev pub authoring_requirements_full : List String
authoring_requirements_full =
    "justification" ∷ "alternatives" ∷ "remediation" ∷ "method" ∷ "exceptionType" ∷ v2_field_keys

abbrev full : ExceptionPolicy
full = requiring authoring_requirements_full

abbrev pub socket_policy : List (String × GroupPolicy)
socket_policy =
    (
      "socket",
      record {
        default_policy = none;
        rules =
            ("critical", forbidding)
            ∷ ("high", forbidding)
            ∷ ("middle", full)
            ∷ ("low", full)
            ∷ ("unknown", full)
            ∷ [];
      },
    )
    ∷ []

unfoldable pub evaluate_alert :
    Evaluate → NormalizedSocketAlert → Option ExceptionRecord → Determinant
evaluate_alert evaluate alert r =
    evaluate_finding_verdict evaluate r (record { group = "socket"; category = alert.severity })
      socket_policy full

abbrev is_at : Char → Bool
is_at c = code c === b'@'

-- What stands before and after the last `@`.
unfoldable pub around_last_at : String → Option (String × String)
around_last_at String.[] = none
around_last_at (String.◌∷◌ c s) = elim (around_last_at s) [
  | some (before, after) ↦ some (String.◌∷◌ c before, after)
  | none ↦ if is_at c then some ("", s) else none
]

-- Without the ecosystem `npm/`.
unfoldable pub without_ecosystem : String → String
without_ecosystem example = elim (literal "npm/" some example) [ some rest ↦ rest | none ↦ example ]

-- A package and its version.
unfoldable pub parse_example : String → Option (String × String)
parse_example example = elim (around_last_at (without_ecosystem example)) [
  | none ↦ none
  | some (name, version) ↦ if name === "" || version === "" then none else some (name, version)
]

abbrev is_empty : String → Bool
is_empty s = s === ""

-- A raw severity, in whatever case, or `unknown`.
abbrev severity_in : List String → String → String
severity_in [] raw = "unknown"
severity_in (word ∷ words) raw =
    if literal_any_case word is_empty raw then word else severity_in words raw

unfoldable pub severity_of : Option Json → String
severity_of v = elim (string_of v) [
  | none ↦ "unknown"
  | some raw ↦ severity_in ("critical" ∷ "high" ∷ "middle" ∷ "low" ∷ []) raw
]

abbrev pub safe_string : Option Json → String
safe_string v = elim (string_of v) [ none ↦ "" | some s ↦ s ]

abbrev alert_of : String → String → String → String → String → NormalizedSocketAlert
alert_of package_name version type severity category = record {
  id = derive_socket_exception_id package_name version type;
  package_name = package_name;
  version = version;
  type = type;
  severity = severity;
  category = category;
}

-- The alert's own package, under the version `self`, or a dependency's version.
abbrev version_of : Fields → String → String → String → String
version_of raw self_package name version =
    if (string_of (lookup "scope" raw) === some "self") || name === self_package
    then "self"
    else version

unfoldable pub normalize_alert : Json → String → Option NormalizedSocketAlert
normalize_alert (object raw) self_package = elim (string_of (lookup "name" raw)) [
  | none ↦ none
  | some name ↦ if name === "" then none else elim (string_of (lookup "example" raw)) [
    | none ↦ none
    | some example ↦ elim (parse_example example) [
      | none ↦ none
      | some (subject, version) ↦ some (
          alert_of subject (version_of raw self_package subject version) name
            (severity_of (lookup "severity" raw)) (safe_string (lookup "category" raw)))
    ]
  ]
]
normalize_alert _ self_package = none
