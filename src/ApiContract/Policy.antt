-- ===== src/ApiContract/Policy.antt =====
-- The policy of the check ApiContract (checks/api-contract.ts).
pub mod Verdict
use mathlib.Core.Option
use internal_package_contrac.Shared.{
  ℕ, ◌+◌, String, Bool, true, false, Option, none, some, List, [], ◌∷◌, ◌++◌, map, filter, length,
  template, join, ◌===◌, nat_Eq, if◌then◌else◌, option_Eq, bool_Eq, ltb,
}
use internal_package_contrac.Shared.Decimals.{decimal}
use internal_package_contrac.ApiContract.Evidence.{
  RequiredReleaseLevel, no_release, patch, minor, major, Compatibility, ChangeKind,
  ApiContractChange, ApiContractTargetResult, ApiContractEvidence,
}
use internal_package_contrac.Checks.Shared.{
  PolicyResult, pass, warn, fail, CheckEvidence, abnormal_termination, unparseable_rationale,
}

abbrev pub level_text : RequiredReleaseLevel → String
level_text no_release = "none"
level_text patch = "patch"
level_text minor = "minor"
level_text major = "major"

abbrev level_text_or : Option RequiredReleaseLevel → String → String
level_text_or none absent = absent
level_text_or (some level) absent = level_text level

unfoldable pub format_changesets_line : ApiContractEvidence → String
format_changesets_line evidence =
    let count = evidence.changesets.changeset_count in
    template (
      "Release level: "
      ∷ (if count === 1
          then "1 changeset declares"
          else template (decimal count ∷ " changeset(s) declare" ∷ []))
      ∷ " `"
      ∷ level_text evidence.changesets.declared_level
      ∷ "`; the API diff requires `"
      ∷ level_text_or evidence.required_level "unknown"
      ∷ "`."
      ∷ [])

abbrev lower_tier_total : List ApiContractTargetResult → ℕ
lower_tier_total [] = 0
lower_tier_total (t ∷ targets) = length t.lower_tier_diff + lower_tier_total targets

unfoldable pub format_lower_tier_line : ApiContractEvidence → Option String
format_lower_tier_line evidence =
    let total = lower_tier_total evidence.targets in
    if total === 0
    then none
    else some (
        template (
          decimal total
          ∷ " non-public change(s) also detected across "
          ∷ decimal (length evidence.targets)
          ∷ " target(s) (informational only)."
          ∷ []))

pub record ApiContractDeterminant : Type 0 where
  pub summary : String
  pub stale_literal_explanations : List String
  pub impact_unknown : Bool
  pub current_version : String
  pub minimum_version_line : Option String
  pub required_level : Option RequiredReleaseLevel
  pub declared_level : RequiredReleaseLevel
  pub changesets_satisfied : Option Bool
  pub changesets_line : String
  pub breaking_change_paths : List String
  pub lower_tier_line : Option String

-- A change with its target: `{ ...change, target: t.target }`.
abbrev pub diff_of : String → List ApiContractChange → List (String × ApiContractChange)
diff_of target [] = []
diff_of target (change ∷ changes) = (target, change) ∷ diff_of target changes

abbrev pub all_diff : List ApiContractTargetResult → List (String × ApiContractChange)
all_diff [] = []
all_diff (t ∷ targets) = diff_of t.target t.diff ++ all_diff targets

abbrev pub is_stale : ChangeKind → Bool
is_stale ChangeKind.schema_version_literal_stale = true
is_stale _ = false

abbrev pub is_breaking : Compatibility → Bool
is_breaking Compatibility.breaking = true
is_breaking _ = false

abbrev is_absent : Option RequiredReleaseLevel → Bool
is_absent none = true
is_absent (some level) = false

abbrev labelled : String → String → String
labelled target text = template ("[" ∷ target ∷ "] " ∷ text ∷ [])

unfoldable pub get_api_contract_determinant : ApiContractEvidence → ApiContractDeterminant
get_api_contract_determinant evidence = record {
  summary = evidence.summary;
  stale_literal_explanations =
      map (λ c. labelled c.0 c.1.explanation)
        (filter (λ c. is_stale c.1.kind) (all_diff evidence.targets));
  impact_unknown = is_absent evidence.required_level;
  current_version = evidence.current_version;
  minimum_version_line = elim evidence.minimum_required_version [
    | none ↦ none
    | some version ↦
        some (template ("Minimum required version if released now: " ∷ version ∷ "." ∷ []))
  ];
  required_level = evidence.required_level;
  declared_level = evidence.changesets.declared_level;
  changesets_satisfied = evidence.changesets.satisfied;
  changesets_line = format_changesets_line evidence;
  breaking_change_paths =
      map (λ c. labelled c.0 c.1.path)
        (filter (λ c. is_breaking c.1.compatibility) (all_diff evidence.targets));
  lower_tier_line = format_lower_tier_line evidence;
}

abbrev pub remediation_for_level : Option RequiredReleaseLevel → String
remediation_for_level (some major) =
    "Run `npx changeset add` and declare a `major` bump for this change"
remediation_for_level (some minor) =
    "Run `npx changeset add` and declare a `minor` bump for this change"
remediation_for_level (some patch) =
    "Run `npx changeset add` and declare a `patch` bump for this change"
remediation_for_level _ = "Run `npx changeset add` and declare the required bump for this change"

abbrev after_blank : Option String → List String
after_blank none = []
after_blank (some line) = "" ∷ line ∷ []

abbrev line_of : Option String → List String
line_of none = []
line_of (some line) = line ∷ []

abbrev is_nonempty_list : List String → Bool
is_nonempty_list [] = false
is_nonempty_list (x ∷ xs) = true

unfoldable pub evaluate_determinant : ApiContractDeterminant → PolicyResult
evaluate_determinant d =
    let impact_line = template ("Contract impact: " ∷ d.summary ∷ []) in
    if is_nonempty_list d.stale_literal_explanations
    then record {
      outcome = fail;
      rationale = join "\n" (
          impact_line
          ∷ ""
          ∷ "Internal schema-version consistency violation(s):"
          ∷ (map (λ explanation. template ("- " ∷ explanation ∷ [])) d.stale_literal_explanations
              ++ after_blank d.lower_tier_line));
    }
    else if d.changesets_satisfied === some false
    then record {
      outcome = fail;
      rationale = join "\n" (
          impact_line
          ∷ ""
          ∷ d.changesets_line
          ∷ ((if is_nonempty_list d.breaking_change_paths
                then ""
                  ∷ template (
                      "Breaking public-API change(s): "
                      ∷ join ", "
                          (map (λ path. template ("`" ∷ path ∷ "`" ∷ [])) d.breaking_change_paths)
                      ∷ "."
                      ∷ [])
                  ∷ []
                else [])
              ++ (""
                  ∷ template (
                      "The changesets on this branch do not declare a `"
                      ∷ level_text_or d.required_level "?"
                      ∷ "` release. "
                      ∷ remediation_for_level d.required_level
                      ∷ ", so Changesets bumps the version correctly."
                      ∷ [])
                  ∷ after_blank d.lower_tier_line)));
    }
    else if d.impact_unknown
    then record {
      outcome = warn;
      rationale = join "\n" (
          impact_line
          ∷ ""
          ∷ template (
              "The public contract could not be deterministically classified, so no minimum required level can be established. The branch's changesets declare `"
              ∷ level_text d.declared_level
              ∷ "`. Manually confirm that is an appropriate bump for this change."
              ∷ [])
          ∷ after_blank d.lower_tier_line);
    }
    else record {
      outcome = pass;
      rationale = join "\n" (
          impact_line
          ∷ ""
          ∷ (line_of d.minimum_version_line
              ++ (d.changesets_line ∷ after_blank d.lower_tier_line)));
    }

unfoldable pub evaluate_api_contract_policy : ApiContractEvidence → PolicyResult
evaluate_api_contract_policy evidence = evaluate_determinant (get_api_contract_determinant evidence)

-- The policy of a package that has a typedoc.json.
unfoldable pub api_contract_policy : CheckEvidence ApiContractEvidence → PolicyResult
api_contract_policy result = elim (abnormal_termination result "the api-contract check") [
  | some terminated ↦ record { outcome = fail; rationale = terminated }
  | none ↦ elim result.output [
    | none ↦ record { outcome = fail; rationale = unparseable_rationale "ApiContract:" result }
    | some evidence ↦ evaluate_api_contract_policy evidence
  ]
]
