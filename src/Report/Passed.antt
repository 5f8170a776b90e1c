-- ===== src/Report/Passed.antt =====
-- When a run passes.
use internal_package_contrac.Shared.{
  ℕ, ◌+◌, ◌≤◌, String, Bool, true, false, ◌&&◌, ◌||◌, List, ◌++◌, ◌≡◌, ◌≢◌, ◌↔◌, refl, sym, ◌∙◌,
  arith, map, filter, length, All, negate, ltb, All-weaken, and-eq-true, false_of_negate,
}
use internal_package_contrac.Checks.Shared.{Outcome, pass, warn, fail, PolicyResult}
use internal_package_contrac.Adoption.{
  Adoption, absent, invalid, active, expired, advisory_failures, is_advisory, is_failing,
}
use internal_package_contrac.Report.Counting.{
  is_failed, is_unexcepted, number, count_all-failed, number-append, number-map, number-none,
  number-cong, number-All_not, length-map, length-filter, number-All, All-number,
}
use internal_package_contrac.Report.{
  ResultClass, passed, warned, not_evaluated, unexcepted, failed, skipped, classify_result,
  class_of, ReportedCheck, count_all, reported, not_run, build_report, report_run, is_active,
  outcome_of, no_counts,
}

-- Whether a failure is one that adoption makes advisory.
abbrev pub is_excused : Adoption → String × PolicyResult → Bool
is_excused (active file left) p = is_advisory file.enforce (outcome_of p)
is_excused _ p = false

abbrev is_failure : String × PolicyResult → Bool
is_failure p = is_failing p.1.outcome

abbrev is_unexplained : String × PolicyResult → Bool
is_unexplained p = is_unexcepted (classify_result p.1)

advisory-number :
    (results : List (String × PolicyResult)) (adoption : Adoption)
    → length (advisory_failures (map outcome_of results) adoption)
      ≡ number (is_excused adoption) results
unfolding advisory_failures
advisory-number results absent = sym (number-none _ results (λ x. refl))
advisory-number results (invalid what) = sym (number-none _ results (λ x. refl))
advisory-number results (expired file left) = sym (number-none _ results (λ x. refl))
advisory-number results (active file left) =
    length-map (λ r. r.0) (filter (is_advisory file.enforce) (map outcome_of results))
    ∙ length-filter (is_advisory file.enforce) (map outcome_of results)
    ∙ number-map (is_advisory file.enforce) outcome_of results

failed-class_of :
    (o : Outcome) (rationale : String) → is_failed (class_of o rationale) ≡ is_failing o
failed-class_of pass rationale = refl
failed-class_of fail rationale = refl
failed-class_of warn rationale = ground arith

failed-is_failing : (p : String × PolicyResult) → is_failed (classify_result p.1) ≡ is_failure p
unfolding classify_result
failed-is_failing p = failed-class_of p.1.outcome p.1.rationale

excused-is_failure :
    (adoption : Adoption) (p : String × PolicyResult)
    → is_excused adoption p ≡ true
    → is_failure p ≡ true
excused-is_failure absent p h = cc
excused-is_failure (invalid what) p h = cc
excused-is_failure (expired file left) p h = cc
excused-is_failure (active file left) p h = ground (arith, h)

unexcepted_of : (k : ResultClass) → (is_unexcepted k ≡ false) ↔ (k ≢ unexcepted)
unexcepted_of passed = (λ h e. cc, λ h. refl)
unexcepted_of warned = (λ h e. cc, λ h. refl)
unexcepted_of not_evaluated = (λ h e. cc, λ h. refl)
unexcepted_of unexcepted = (λ h e. cc h, λ h. absurd (h refl))
unexcepted_of failed = (λ h e. cc, λ h. refl)
unexcepted_of skipped = (λ h e. cc, λ h. refl)

unexplained_iff :
    (results : List (String × PolicyResult))
    → (number is_unexplained results ≡ 0) ↔ All (λ p. classify_result p.1 ≢ unexcepted) results
unexplained_iff results =
    let (to, from) = number-All_not is_unexplained results in
    (
      λ h.
          All-weaken (λ p. is_unexplained p ≡ false) (λ p. classify_result p.1 ≢ unexcepted) results
            (λ p. (unexcepted_of (classify_result p.1)).0) (to h),
      λ h. from (
          All-weaken (λ p. classify_result p.1 ≢ unexcepted) (λ p. is_unexplained p ≡ false) results
            (λ p. (unexcepted_of (classify_result p.1)).1) h),
    )

passes_iff :
    (advisory failures unexplained : ℕ) (strict : Bool)
    → (negate (ltb advisory failures || (strict && ltb 0 unexplained)) ≡ true)
      ↔ ((failures ≤ advisory) × (strict ≡ true → unexplained ≡ 0))
passes_iff advisory failures unexplained strict = ground arith

module _ (results : List (String × PolicyResult)) (durations : List (String × ℕ))
    (skipped_ids : List String) where
  -- The checks that were not run count for nothing.
  number-append_skipped :
      (p : ReportedCheck → Bool)
      → ((id : String) → p (not_run id) ≡ false)
      → 0 + number p (map (reported durations) results ++ map not_run skipped_ids)
        ≡ number (λ r. p (reported durations r)) results
  number-append_skipped p h =
      let parts = number-append p (map (reported durations) results) (map not_run skipped_ids) in
      let left = number-map p (reported durations) results in
      let right = number-map p not_run skipped_ids in
      let gone = number-none (λ id. p (not_run id)) skipped_ids h in omega arith

  fail_count :
      (count_all (map (reported durations) results ++ map not_run skipped_ids) no_counts).fail_count
      ≡ number is_failure results
  fail_count =
      (count_all-failed _ no_counts).0
      ∙ number-append_skipped (λ k. is_failed k.result_class) (λ id. refl)
      ∙ number-cong _ is_failure results failed-is_failing

  unexcepted_count :
      (count_all
        (map (reported durations) results ++ map not_run skipped_ids)
        no_counts).unexcepted_count
      ≡ number is_unexplained results
  unexcepted_count =
      (count_all-failed _ no_counts).1
      ∙ number-append_skipped (λ k. is_unexcepted k.result_class) (λ id. refl)

  -- A run passes exactly if each failure is one that adoption excuses, and, where the run is strict and
  -- the package is not adopting, no result is an unexplained "not evaluated".
  pub report_run-passed_iff :
      (strict : Bool) (adoption : Adoption)
      → ((report_run results durations skipped_ids strict adoption).is_passed ≡ true) ↔ (
          All (λ p. is_failing p.1.outcome ≡ true → is_excused adoption p ≡ true) results
          × (strict ≡ true
              → is_active adoption ≡ false
              → All (λ p. classify_result p.1 ≢ unexcepted) results))
  unfolding report_run build_report
  report_run-passed_iff strict adoption =
      let excused = is_excused adoption in
      rw (advisory-number results adoption, fail_count, unexcepted_count)
        (let (to, from) =
            passes_iff (number excused results) (number is_failure results)
              (number is_unexplained results) (strict && negate (is_active adoption)) in
          let subset = excused-is_failure adoption in
          (
            λ h.
                let (fits, explained) = to h in
                (
                  number-All excused is_failure subset results fits,
                  λ s a. (unexplained_iff results).0 (explained (rw (s, a) refl)),
                ),
            λ (covered, explained). from (
              All-number excused is_failure subset results covered,
              λ e.
                  let (s, a) = and-eq-true strict (negate (is_active adoption)) e in
                  (unexplained_iff results).1
                    (explained s (false_of_negate (is_active adoption) a)),
            ),
          ))
