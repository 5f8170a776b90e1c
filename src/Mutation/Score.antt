-- ===== src/Mutation/Score.antt =====
-- The score and the verdict of a run (checks/mutation.ts).
use internal_package_contrac.Shared.{
  ℕ, zero, suc, ◌+◌, ◌-◌, String, Bool, true, false, ◌&&◌, ◌||◌, Option, none, some, List, [], ◌∷◌,
  ◌++◌, map, filter, length, take, negate, ltb, template, join, ◌===◌, string_Eq, nat_Eq,
  if◌then◌else◌,
}
use internal_package_contrac.Shared.Decimals.{decimal}
use internal_package_contrac.Shared.Trim.{trim}
use internal_package_contrac.Shared.Regex.{is_space}
use internal_package_contrac.Shared.CodeUnits.{code_units}
use internal_package_contrac.Checks.Shared.{pass, fail, PolicyResult}
use internal_package_contrac.Exceptions.{ExceptionRecord}
use internal_package_contrac.Exceptions.Findings.{Evaluate}
use internal_package_contrac.Mutation.{
  ResolvedMutant, Key, has, count, apply_exception_registry, describe_ignored, registry_path,
  is_survived_like,
}

-- Each run of white space is one space; `inside` says that a run has begun.
collapsed : Bool → String → String
collapsed inside String.[] = ""
collapsed inside (String.◌∷◌ c s) =
    let next = collapsed true s in
    let rest = collapsed false s in
    if is_space c then (if inside then next else template (" " ∷ next ∷ [])) else String.◌∷◌ c rest

-- The first characters of a text, counted in UTF-16 code units.
abbrev pub first_units : ℕ → String → String
first_units n String.[] = ""
first_units n (String.◌∷◌ c s) =
    let width = length (code_units (String.◌∷◌ c "")) in
    let rest = first_units (n - width) s in if ltb n width then "" else String.◌∷◌ c rest

unfoldable pub truncate_snippet : String → String
unfolding collapsed
truncate_snippet s =
    let short = trim (collapsed false s) in
    if ltb 80 (length (code_units short)) then template (first_units 80 short ∷ "…" ∷ []) else short

abbrev offender_line : ResolvedMutant → String
offender_line m = template (
    "- "
    ∷ m.file
    ∷ ":"
    ∷ decimal m.line
    ∷ " ["
    ∷ m.status
    ∷ " "
    ∷ m.mutator
    ∷ "] \""
    ∷ truncate_snippet m.original
    ∷ "\" -> \""
    ∷ truncate_snippet m.replacement
    ∷ "\""
    ∷ [])

unfoldable pub format_offending_mutants : List ResolvedMutant → String
format_offending_mutants offenders = join "\n" (
    map offender_line (take 25 offenders)
    ++ (if ltb 25 (length offenders)
        then template ("... and " ∷ decimal (length offenders - 25) ∷ " more." ∷ []) ∷ []
        else []))

abbrev is_offender : List Key → ResolvedMutant → Bool
is_offender suppressed m =
    negate (has suppressed m) && (is_survived_like m.status || m.status === "Timeout")

abbrev suppressed_note : ℕ → String
suppressed_note zero = ""
suppressed_note (suc n) = template (
    " ("
    ∷ decimal (suc n)
    ∷ " known Stryker false positive"
    ∷ (if n === 0 then "" else "s")
    ∷ " excluded, see "
    ∷ registry_path
    ∷ ")"
    ∷ [])

abbrev pub is_zero : ℕ → Bool
is_zero n = n === 0

abbrev pub for_shard : Option String → PolicyResult → PolicyResult
for_shard none verdict = verdict
for_shard (some shard) verdict = record {
  outcome = verdict.outcome;
  rationale = template ("Mutation (shard " ∷ shard ∷ "):" ∷ first_after 9 verdict.rationale ∷ []);
}
  where
    first_after : ℕ → String → String
    first_after n String.[] = ""
    first_after zero s = s
    first_after (suc n) (String.◌∷◌ c s) = first_after n s

abbrev pub is_full_run : Bool → Option String → Bool
is_full_run narrowed none = negate narrowed
is_full_run narrowed (some shard) = false

-- A verdict that no problem of the registry comes before is told of the shard.
abbrev pub concluded : Option String → List String → List String → PolicyResult → PolicyResult
concluded shard [] [] verdict = for_shard shard verdict
concluded shard lacking stale verdict = verdict

-- The order of two names, and the score of so many detected mutants in so many valid ones.
module _ (name_le : String → String → Bool) (score : ℕ → ℕ → String) where
  abbrev pub verdict_of : List ResolvedMutant → List Key → ℕ → ℕ → ℕ → ℕ → ℕ → PolicyResult
  verdict_of mutants suppressed killed crashed survived uncovered timeout =
      let detected = killed + crashed in
      let valid = detected + survived + uncovered + timeout in
      let note = describe_ignored name_le mutants in
      let summary = template (
        "score "
        ∷ score detected valid
        ∷ "% (killed "
        ∷ decimal killed
        ∷ ", timeout "
        ∷ decimal timeout
        ∷ ", survived "
        ∷ decimal survived
        ∷ ", no-coverage "
        ∷ decimal uncovered
        ∷ ")"
        ∷ suppressed_note (length (filter (has suppressed) mutants))
        ∷ note
        ∷ []) in
      if is_zero valid
      then record {
        outcome = pass;
        rationale = template (
            "Mutation: every mutant in the report ("
            ∷ decimal (length mutants)
            ∷ ") was excluded by a known Stryker false positive, see "
            ∷ registry_path
            ∷ note
            ∷ "."
            ∷ []);
      }
      else if is_zero survived && (is_zero uncovered && is_zero timeout)
      then record { outcome = pass; rationale = template ("Mutation: " ∷ summary ∷ "." ∷ []) }
      else record {
        outcome = fail;
        rationale = join "\n" (
            template (
              "Mutation: "
              ∷ summary
              ∷ " -- "
              ∷ decimal survived
              ∷ " survived, "
              ∷ decimal uncovered
              ∷ " no-coverage, "
              ∷ decimal timeout
              ∷ " timeout must all be zero."
              ∷ [])
            ∷ format_offending_mutants (filter (is_offender suppressed) mutants)
            ∷ []);
      }

  unfoldable pub summarize_mutation_score : List ResolvedMutant → List Key → PolicyResult
  summarize_mutation_score mutants suppressed =
      verdict_of mutants suppressed (count suppressed "Killed" mutants)
        (count suppressed "RuntimeError" mutants + count suppressed "CompileError" mutants)
        (count suppressed "Survived" mutants) (count suppressed "NoCoverage" mutants)
        (count suppressed "Timeout" mutants)

  abbrev problem_line : String → String
  problem_line s = template ("- " ∷ s ∷ [])

  -- The problems of the registry, else the score.
  abbrev pub judged : List ResolvedMutant → List String → List String → List Key → PolicyResult
  judged mutants [] [] suppressed = summarize_mutation_score mutants suppressed
  judged mutants lacking stale suppressed = record {
    outcome = fail;
    rationale = join "\n" (
        template (
          "Mutation: "
          ∷ registry_path
          ∷ " has "
          ∷ decimal (length stale + length lacking)
          ∷ " problem(s):"
          ∷ [])
        ∷ (map problem_line lacking ++ map problem_line stale));
  }

  -- The end of the policy, on a report that was read and a registry that was loaded; `narrowed` says
  -- that the run was narrowed to what a change affects.
  unfoldable pub judge_report :
      Evaluate → Bool → Option String → List ResolvedMutant → List ExceptionRecord → PolicyResult
  judge_report evaluate narrowed shard [] records = record {
    outcome = fail;
    rationale = "Mutation: Stryker report contains 0 valid mutants.";
  }
  judge_report evaluate narrowed shard (m ∷ mutants) records =
      let applied = apply_exception_registry evaluate (m ∷ mutants) records in
      let stale = if is_full_run narrowed shard then applied.stale else [] in
      let verdict = judged (m ∷ mutants) applied.lacking stale applied.suppressed in
      concluded shard applied.lacking stale verdict
