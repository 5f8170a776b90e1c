-- ===== src/Checks/SurfaceContract.antt =====
-- The policy of the check SurfaceContract (checks/surface-contract.ts).
pub mod Verdict
use internal_package_contrac.Shared.{
  ℕ, String, Bool, true, false, Option, none, some, List, [], ◌∷◌, ◌++◌, map, template, join,
  if◌then◌else◌,
}
use internal_package_contrac.Shared.Decimals.{decimal}
use internal_package_contrac.ApiContract.Changesets.{DeclaredRelease}
use internal_package_contrac.ApiContract.Policy.{level_text}
use internal_package_contrac.Checks.Shared.{
  PolicyResult, pass, fail, CheckEvidence, abnormal_termination, unparseable_rationale,
}
use internal_package_contrac.Surface.Types.{SurfaceChange, SurfaceImpact, breaking, compatible}
use internal_package_contrac.Surface.Run.{
  SurfaceEvidence, SurfaceStatus, no_surface, initial_baseline, missing_baseline, compared,
  baseline_path,
}

abbrev string_or_undefined : Option String → String
string_or_undefined none = "undefined"
string_or_undefined (some s) = s

abbrev impact_text : SurfaceImpact → String
impact_text breaking = "breaking"
impact_text compatible = "compatible"

abbrev change_line : SurfaceChange → String
change_line c =
    template ("- [" ∷ impact_text c.impact ∷ "] " ∷ c.explanation ∷ " (" ∷ c.id ∷ ")" ∷ [])

unfoldable pub surface_lines : SurfaceEvidence → List String
surface_lines evidence =
    template (
      "SurfaceContract: the CLI, schema or action surface changed since "
      ∷ string_or_undefined evidence.baseline_version
      ∷ ":"
      ∷ [])
    ∷ (map change_line evidence.changes
        ++ (""
            ∷ template (
                "Release level: "
                ∷ decimal evidence.declared.changeset_count
                ∷ " changeset(s) declare `"
                ∷ level_text evidence.declared.declared_level
                ∷ "`; the surface change requires `"
                ∷ level_text evidence.required_level
                ∷ "`."
                ∷ [])
            ∷ []))

unfoldable pub evaluate_changed : SurfaceEvidence → PolicyResult
evaluate_changed evidence =
    if evidence.satisfied
    then record {
      outcome = pass;
      rationale = join "\n" (
          surface_lines evidence
          ++ (template (
                "Minimum required version if released now: "
                ∷ string_or_undefined evidence.minimum_required_version
                ∷ "."
                ∷ [])
              ∷ []));
    }
    else record {
      outcome = fail;
      rationale = join "\n" (
          surface_lines evidence
          ++ (template (
                "Run `npx changeset add` and declare a `"
                ∷ level_text evidence.required_level
                ∷ "` bump for this change, so Changesets bumps the version correctly."
                ∷ [])
              ∷ []));
    }

abbrev evaluate_compared : SurfaceEvidence → List SurfaceChange → PolicyResult
evaluate_compared evidence [] = record {
  outcome = pass;
  rationale = template (
      "SurfaceContract: the CLI, schema and action surface is unchanged since "
      ∷ string_or_undefined evidence.baseline_version
      ∷ "."
      ∷ []);
}
evaluate_compared evidence (c ∷ changes) = evaluate_changed evidence

unfoldable pub evaluate_surface_policy : SurfaceEvidence → PolicyResult
evaluate_surface_policy evidence = elim evidence.status [
  | no_surface ↦ record {
    outcome = pass;
    rationale = "SurfaceContract: no CLI, exported JSON Schema or GitHub Action to guard.";
  }
  | initial_baseline ↦ record {
    outcome = pass;
    rationale = template (
        "SurfaceContract: no baseline existed, so " ∷ baseline_path
        ∷ " was created from the current surface; commit it." ∷ []);
  }
  | missing_baseline ↦ record {
    outcome = fail;
    rationale = template (
        "SurfaceContract: this package has a CLI, schema or action but " ∷ baseline_path
        ∷ " is not committed. Run `npx internal-package-contract update-baseline` locally and commit the result; CI never creates it."
        ∷ []);
  }
  | compared ↦ evaluate_compared evidence evidence.changes
]

unfoldable pub surface_contract_policy : CheckEvidence SurfaceEvidence → PolicyResult
surface_contract_policy result = elim (abnormal_termination result "the surface-contract check") [
  | some terminated ↦ record { outcome = fail; rationale = terminated }
  | none ↦ elim result.output [
    | none ↦ record { outcome = fail; rationale = unparseable_rationale "SurfaceContract:" result }
    | some evidence ↦ evaluate_surface_policy evidence
  ]
]
