-- ===== src/ApiContract/Policy/Verdict.antt =====
-- The verdicts of the policy of ApiContract (checks/api-contract.ts).
use internal_package_contrac.Shared.{
  String, Bool, true, none, some, List, map, filter, ◌≡◌, ◌≢◌, refl, inl, inr, if◌then◌else◌, Memᴰ,
  Option-cases, option_Eq, bool_Eq, string_Eq,
}
use internal_package_contrac.ApiContract.Evidence.{ApiContractChange, ApiContractEvidence}
use internal_package_contrac.ApiContract.Policy.{
  evaluate_api_contract_policy, api_contract_policy, all_diff, is_stale, labelled,
}
use internal_package_contrac.Checks.Shared.Ended.{abnormal_termination-none_iff}
use internal_package_contrac.Checks.Shared.{
  Outcome, PolicyResult, pass, warn, fail, CheckEvidence, abnormal_termination,
}

-- A change of one of the targets reports a schema version literal that was not bumped.
abbrev pub HasStaleLiteral : ApiContractEvidence → Type 0
HasStaleLiteral evidence =
    (c : String × ApiContractChange) × Memᴰ c (all_diff evidence.targets)
    × (is_stale c.1.kind ≡ true)

abbrev stale_texts : List (String × ApiContractChange) → List String
stale_texts changes =
    map (λ c. labelled c.0 c.1.explanation) (filter (λ c. is_stale c.1.kind) changes)

-- The three tests of the policy, in order.
abbrev verdict : Bool → Bool → Bool → Outcome
verdict stale unmet absent =
    if stale then fail else if unmet then fail else if absent then warn else pass

-- Only the outcome counts.
abbrev chosen : Bool → Bool → Bool → (a b c d : String) → PolicyResult
chosen stale unmet absent a b c d =
    if stale
    then record { outcome = fail; rationale = a }
    else if unmet
    then record { outcome = fail; rationale = b }
    else if absent
    then record { outcome = warn; rationale = c }
    else record { outcome = pass; rationale = d }

-- A run that did not complete, or whose output is no evidence, fails whatever the evidence says;
-- any other gets the verdict of its evidence.
pub api_contract_policy-fails_closed :
    (result : CheckEvidence ApiContractEvidence)
    → ((result.status ≢ "completed" → (api_contract_policy result).outcome ≡ fail)
        × (result.output ≡ none → (api_contract_policy result).outcome ≡ fail)
        × ((evidence : ApiContractEvidence)
            → result.status ≡ "completed"
            → result.output ≡ some evidence
            → api_contract_policy result ≡ evaluate_api_contract_policy evidence))
unfolding api_contract_policy
api_contract_policy-fails_closed result =
    elim (Option-cases (abnormal_termination result "the api-contract check")) [
      | inr (terminated, broke) ↦ (
        λ _. rw (broke, api_contract_policy) refl,
        λ _. rw (broke, api_contract_policy) refl,
        λ evidence completed output. absurd (
            cc
              (broke, (abnormal_termination-none_iff result "the api-contract check").1 completed)),
      )
      | inl ended ↦ (
        λ broken.
            absurd
              (broken ((abnormal_termination-none_iff result "the api-contract check").0 ended)),
        λ empty. rw (ended, empty, api_contract_policy) refl,
        λ evidence completed output. rw (ended, output, api_contract_policy) refl,
      )
    ]
