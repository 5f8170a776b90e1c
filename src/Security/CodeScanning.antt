-- ===== src/Security/CodeScanning.antt =====
-- Code-scanning alerts, judged by where they are (checks/code-scanning.ts): development-only paths,
-- the standing record for a finding in one, and the registry's schema.
pub mod Policy
pub mod DevOnly
use Prim.Native.Char.{Char, code}
use Prim.Native.String
use internal_package_contrac.Shared.{
  ℕ, String, Bool, true, false, ◌&&◌, ◌||◌, Option, none, some, List, [], ◌∷◌, ◌++◌, any, negate,
  template, ◌===◌, string_Eq, nat_Eq, if◌then◌else◌,
}
use internal_package_contrac.Shared.Json.{Fields, lookup}
use internal_package_contrac.Shared.Regex.{
  literal, star, one, optional, at_end, or_else, starts_with,
}
use internal_package_contrac.Checks.Shared.{search, is_present}
use internal_package_contrac.Exceptions.{
  ExceptionRecord, ExceptionRegistrySchema, v2, v2_field_keys, empty_v2_fields, spread, Checked,
}
use internal_package_contrac.Exceptions.FieldChecks.{
  both, and_then, is_valid_non_empty_string_field,
}
use internal_package_contrac.Exceptions.Security.{
  SecurityExceptionFields, security_exception_field_keys, security_entries,
  code_scanning_exception_types, validate_security_exception_fields, field_place, derived_record,
}

unfoldable pub derive_code_scanning_id : String → String → String
derive_code_scanning_id rule path = template ("code-scanning:" ∷ rule ∷ "@" ∷ path ∷ [])

-- Whether a pattern matches somewhere.
abbrev matches : (String → Option (Unit {0})) → String → Bool
matches pattern = search (λ s. is_present (pattern s))

abbrev is_char : ℕ → Char → Bool
is_char n c = code c === n

abbrev is_c_or_m : Char → Bool
is_c_or_m c = code c === b'c' || code c === b'm'

abbrev is_j_or_t : Char → Bool
is_j_or_t c = code c === b'j' || code c === b't'

abbrev done : String → Option (Unit {0})
done = at_end tt

-- `\.[cm]?[jt]s`
abbrev script_extension : (String → Option (Unit {0})) → String → Option (Unit {0})
script_extension k = one (is_char b'.') (optional is_c_or_m (one is_j_or_t (one (is_char b's') k)))

-- `\.(?:test|spec)\.[cm]?[jt]sx?$`
unfoldable pub test_file : String → Option (Unit {0})
test_file = one (is_char b'.') λ s.
    or_else (literal "test" (script_extension (optional (is_char b'x') done)) s)
      (literal "spec" (script_extension (optional (is_char b'x') done)) s)

-- A pattern at the beginning or after a slash.
abbrev at_segment : (String → Option (Unit {0})) → String → Bool
at_segment pattern s = is_present (pattern s) || matches (one (is_char b'/') pattern) s

-- `__(?:tests|mocks)__\/`
unfoldable pub test_directory : String → Option (Unit {0})
test_directory =
    literal "__" λ s. or_else (literal "tests__/" some_unit s) (literal "mocks__/" some_unit s)
  where
    some_unit : String → Option (Unit {0})
    some_unit s = some tt

abbrev is_in_segment : Char → Bool
is_in_segment c = negate (code c === b'/')

-- `[^/]*\.config\.[cm]?[jt]s$`
unfoldable pub config_file : String → Option (Unit {0})
config_file = star is_in_segment λ _. literal ".config" (script_extension done)

abbrev pub dev_prefixes : List String
dev_prefixes =
    "test/" ∷ "tests/" ∷ "examples/" ∷ "benchmarks/" ∷ "docs/" ∷ ".github/" ∷ "scripts/" ∷ []

abbrev pub matches_dev_pattern : String → Bool
matches_dev_pattern path =
    matches test_file path || (at_segment test_directory path || at_segment config_file path)

-- `.replace(/^\.\//, "")`
abbrev without_dot_slash : String → String
without_dot_slash entry = elim (literal "./" some entry) [ none ↦ entry | some rest ↦ rest ]

-- What is left is `/`, `/*` or `/**`.
abbrev is_glob_tail : String → Bool
is_glob_tail s = s === "/" || (s === "/*" || s === "/**")

-- `.replace(/\/(?:\*\*?)?$/, "")`
unfoldable pub without_glob : String → String
without_glob String.[] = ""
without_glob (String.◌∷◌ c s) =
    let rest = without_glob s in if is_glob_tail (String.◌∷◌ c s) then "" else String.◌∷◌ c rest

-- A published entry names the file, or a directory above it.
abbrev pub covers : String → String → Bool
covers path entry =
    let bare = without_glob (without_dot_slash entry) in
    path === bare || starts_with path (template (bare ∷ "/" ∷ []))

unfoldable pub is_dev_path : String → List String → Bool
is_dev_path path published =
    if any (covers path) published
    then false
    else any (starts_with path) dev_prefixes || matches_dev_pattern path

pub record CodeScanningAlert : Type 0 where
  pub number : ℕ
  pub rule : String
  pub severity : String
  pub path : String
  pub line : ℕ
  pub message : String

pub record Finding : Type 0 where
  pub id : String
  pub rule : String
  pub path : String

unfoldable pub create_dev_stub : Finding → String → ExceptionRecord
unfolding spread
create_dev_stub finding id = record {
  id = id;
  version = v2;
  fields =
      spread
        ((
          "justification",
          "Development-only code (tests, scripts, docs, CI configuration) is never built, run by users or published, so a finding in it cannot reach anyone.",
        )
          ∷ ("alternatives", "Rewrite the flagged code to satisfy the rule.")
          ∷ ("remediation", "None needed while the code stays development-only.")
          ∷ ("method", "policy-rule")
          ∷ ("exceptionType", "dev-only-not-shipped")
          ∷ empty_v2_fields)
        (("ruleBroken", "Every open code-scanning alert must be fixed before merge.")
          ∷ (
            "attempted",
            "Judged by location, not by alert: the file is development-only (a dev directory or file pattern, and not covered by package.json `files`). No per-alert fix was attempted.",
          )
          ∷ (
            "constraint",
            "The flagged code only exists to test, document, configure or automate the package; it often contains the flagged pattern on purpose (a fixture, an example).",
          )
          ∷ (
            "whyPreferable",
            "Rewriting test and tooling code to satisfy a rule meant for shipped code costs more than the nothing it protects: no user ever runs it.",
          )
          ∷ (
            "residualRisk",
            "None for users, since the file is never built or published. A contributor running the code locally could still exercise the flagged behavior.",
          )
          ∷ (
            "revisitWhen",
            "The file is added to package.json `files`, or moves under src/ or bin/ (the check then rejects the alert with no exception).",
          )
          ∷ ("rule", finding.rule)
          ∷ ("path", finding.path)
          ∷ []);
}

abbrev CodeScanningFields : Type 0
CodeScanningFields = SecurityExceptionFields × (String × String)

unfoldable pub code_scanning_fields : Fields → ℕ → Checked CodeScanningFields
code_scanning_fields raw index =
    both (validate_security_exception_fields raw index code_scanning_exception_types) (
      both (is_valid_non_empty_string_field (lookup "rule" raw) (field_place index "rule"))
        (is_valid_non_empty_string_field (lookup "path" raw) (field_place index "path")))

abbrev code_scanning_record : String → String → ℕ → CodeScanningFields → Checked ExceptionRecord
code_scanning_record id justification index (security, (rule, path)) =
    derived_record (derive_code_scanning_id rule path) "rule and path" id justification index
      (security_entries security ++ ("rule", rule) ∷ ("path", path) ∷ [])

abbrev pub code_scanning_schema : ExceptionRegistrySchema
code_scanning_schema = record {
  namespace = "code-scanning:";
  metadata_keys = security_exception_field_keys ++ "rule" ∷ "path" ∷ [];
  validate_record = λ id justification raw index.
      and_then (code_scanning_fields raw index) (code_scanning_record id justification index);
}

abbrev pub requirements : List String
requirements =
    "justification" ∷ "alternatives" ∷ "remediation" ∷ "method" ∷ "exceptionType" ∷ v2_field_keys
