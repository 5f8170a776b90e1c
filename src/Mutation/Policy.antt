-- ===== src/Mutation/Policy.antt =====
-- The policy of the check `Mutation` (checks/mutation.ts), with what it reads of the environment
-- (scripts/mutation/adopt.mjs, scripts/mutation/shard.mjs). The sources that an affected scope
-- leaves to mutate, the report that was read, if it could be parsed, and the load of the registry, which
-- is handed its validation, are arguments.
use internal_package_contrac.Shared.{
  ℕ, String, Bool, Option, none, some, List, [], ◌∷◌, map, template, join, true, false, ◌===◌, ◌≡◌,
  ◌≢◌, ◌⊎◌, inl, inr, refl, All, string_Eq, if◌then◌else◌, Option-cases, Bool-cases,
}
use internal_package_contrac.Shared.Trim.{trim}
use internal_package_contrac.Shared.Json.{Json}
use internal_package_contrac.Checks.Shared.{
  pass, fail, PolicyResult, CheckEvidence, abnormal_termination, combined_output, is_nonempty,
}
use internal_package_contrac.Exceptions.{ExceptionRecord}
use internal_package_contrac.Exceptions.Registry.{RegistryResult, validate_exception_registry}
use internal_package_contrac.Exceptions.Findings.{
  Evaluate, IsEvaluation, Loaded, records_of, load_errors,
}
use internal_package_contrac.Mutation.{ResolvedMutant, registry_path, is_survived_like}
use internal_package_contrac.Mutation.Report.{
  MutationReport, resolve_mutants, mutation_exception_schema, last_units,
}
use internal_package_contrac.Mutation.Score.{judge_report}
use internal_package_contrac.Mutation.Suppressed.{IsWaived}
use internal_package_contrac.Mutation.Passed.{judge_report-IsWaived}

-- A variable of the environment, trimmed, where it is set to some text.
abbrev set_to : Option String → Option String
set_to none = none
set_to (some value) = if trim value === "" then none else some (trim value)

unfoldable pub shard_spec_of : Option String → Option String
shard_spec_of variable = set_to variable

unfoldable pub names_report : Option String → Bool
names_report variable = elim (set_to variable) [ none ↦ false | some named ↦ true ]

abbrev failed : String → PolicyResult
failed rationale = record { outcome = fail; rationale = rationale }

-- No source is affected by the change.
abbrev nothing_affected : Bool → PolicyResult
nothing_affected true =
    failed
      "Mutation: IPC_MUTATION_REPORT names a report, but no source file is affected by this change, so there is nothing to judge it against."
nothing_affected false = record {
  outcome = pass;
  rationale = "Mutation: no source file is affected by this change, so nothing was mutated.";
}

abbrev error_line : String → String
error_line e = template ("- " ∷ e ∷ [])

-- What a passing report has shown of a mutant.
abbrev pub MayPass : List ExceptionRecord → ResolvedMutant → Type 0
MayPass records m =
    (m.status ≢ "Timeout") × ((is_survived_like m.status ≡ false) ⊎ IsWaived records m)

abbrev pub registry_validation : (String → String → String) → Json → RegistryResult
registry_validation digest = validate_exception_registry (mutation_exception_schema digest)

loaded_cases :
    (l : Loaded)
    → ((errors : List String) × (l ≡ load_errors errors))
      ⊎ ((records : List ExceptionRecord) × (l ≡ records_of records))
loaded_cases (load_errors errors) = inl (errors, refl)
loaded_cases (records_of records) = inr (records, refl)

-- `hashRequirementFields` on two fields, the order of names, the score and the evaluation of records.
module _ (digest : String → String → String) (name_le : String → String → Bool)
    (score : ℕ → ℕ → String) (evaluate : Evaluate) where
  abbrev on_loaded : Bool → Option String → MutationReport → Loaded → PolicyResult
  on_loaded narrowed shard report (load_errors errors) = failed (
      join "\n"
        (template ("Mutation: " ∷ registry_path ∷ " failed to load:" ∷ []) ∷ map error_line errors))
  on_loaded narrowed shard report (records_of records) =
      judge_report name_le score evaluate narrowed shard (resolve_mutants report) records

  module _ {ℓ} {Output : Type ℓ} where
    abbrev no_report : CheckEvidence Output → PolicyResult
    no_report result =
        let tail = last_units 3000 (combined_output result) in
        failed (
          template (
            "Mutation: Stryker did not produce reports/mutation/mutation.json."
            ∷ (if is_nonempty tail then template ("\n" ∷ tail ∷ []) else "")
            ∷ []))

    abbrev on_ended :
        Bool
        → Option String
        → CheckEvidence Output
        → Option MutationReport
        → ((Json → RegistryResult) → Loaded)
        → PolicyResult
    on_ended narrowed shard result read load = elim (abnormal_termination result "Stryker") [
      | some terminated ↦ failed terminated
      | none ↦ elim read [
        | none ↦ no_report result
        | some report ↦ on_loaded narrowed shard report (load (registry_validation digest))
      ]
    ]

    unfoldable pub mutation_policy :
        Option (List String)
        → Option String
        → Option String
        → CheckEvidence Output
        → Option MutationReport
        → ((Json → RegistryResult) → Loaded)
        → PolicyResult
    mutation_policy (some []) report_variable shard_variable result read load =
        nothing_affected (names_report report_variable)
    mutation_policy none report_variable shard_variable result read load =
        on_ended false (shard_spec_of shard_variable) result read load
    mutation_policy (some (source ∷ sources)) report_variable shard_variable result read load =
        on_ended true (shard_spec_of shard_variable) result read load

  module _ {ℓ} {Output : Type ℓ} (laws : IsEvaluation evaluate) where
    on_ended-MayPass :
        (narrowed : Bool) (shard : Option String) (result : CheckEvidence Output)
        (read : Option MutationReport) (load : (Json → RegistryResult) → Loaded)
        → (on_ended narrowed shard result read load).outcome ≡ pass
        → (report : MutationReport) × (records : List ExceptionRecord) × (abnormal_termination
              result "Stryker"
            ≡ none)
          × (read ≡ some report)
          × (load (registry_validation digest) ≡ records_of records)
          × (resolve_mutants report ≢ [])
          × All (MayPass records) (resolve_mutants report)
    on_ended-MayPass narrowed shard result read load h =
        elim (Option-cases (abnormal_termination result "Stryker")) [
          | inr (terminated, e) ↦ cc (rw (e, on_ended) at h)
          | inl ended ↦ elim (Option-cases read) [
            | inl unread ↦ cc (rw (ended, unread, on_ended) at h)
            | inr (report, r) ↦ elim (loaded_cases (load (registry_validation digest))) [
              | inl (errors, l) ↦ cc (rw (ended, r, l, on_ended) at h)
              | inr (records, l) ↦
                  let (some_mutant, all) =
                    judge_report-IsWaived name_le score evaluate laws narrowed shard
                      (resolve_mutants report) records (rw (ended, r, l, on_ended) at h) in
                  (report, records, ended, r, l, some_mutant, all)
            ]
          ]
        ]

    -- Where the policy passes, either no source is affected by the change and no report is named; or
    -- the run has ended, its report was read, the registry was loaded through its validation, the report
    -- has some mutant, and each of its mutants that survived or that no test covers is described by a
    -- loaded record with every required field written, while none of them has timed out. A
    -- record of version 1 that has no text for one of the structured fields of version 2 is let off
    -- that field. The evaluation of records decides, and permits only what has a value, the
    -- placeholder of version 1 included, for each required field.
    pub mutation_policy-MayPass :
        (affected : Option (List String)) (report_variable shard_variable : Option String)
        (result : CheckEvidence Output) (read : Option MutationReport)
        (load : (Json → RegistryResult) → Loaded)
        → (mutation_policy affected report_variable shard_variable result read load).outcome ≡ pass
        → ((affected ≡ some []) × (names_report report_variable ≡ false))
          ⊎ ((report : MutationReport) × (records : List ExceptionRecord) × (abnormal_termination
                  result "Stryker"
                ≡ none)
              × (read ≡ some report)
              × (load (registry_validation digest) ≡ records_of records)
              × (resolve_mutants report ≢ [])
              × All (MayPass records) (resolve_mutants report))
    unfolding mutation_policy
    mutation_policy-MayPass none report_variable shard_variable result read load h =
        inr (on_ended-MayPass false (shard_spec_of shard_variable) result read load h)
    mutation_policy-MayPass (some (s ∷ ss)) report_variable shard_variable result read load h =
        inr (on_ended-MayPass true (shard_spec_of shard_variable) result read load h)
    mutation_policy-MayPass (some []) report_variable shard_variable result read load h =
        elim (Bool-cases (names_report report_variable)) [
          | inl named ↦ cc (rw named at h)
          | inr free ↦ inl (refl, free)
        ]
