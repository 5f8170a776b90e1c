-- ===== src/Checks/Shared/Headline.antt =====
-- What a headline changes of a verdict (checks/shared.ts).
use internal_package_contrac.Shared.{
  String, true, false, none, some, [], ◌∷◌, ◌≡◌, ◌≢◌, ap, ◌⊎◌, inl, inr, refl, template,
  Option-cases, Bool-cases,
}
use internal_package_contrac.Checks.Shared.{
  Outcome, PolicyResult, CheckEvidence, fail, crash_line, first_line, includes, says_nothing_usable,
  is_fail, led_by_error,
}

is_fail-cases : (o : Outcome) → (is_fail o ≡ false) ⊎ (o ≡ fail)
is_fail-cases Outcome.pass = inl refl
is_fail-cases Outcome.warn = inl refl
is_fail-cases Outcome.fail = inr refl

module _ {Output : Type 0} (id : String) (policy : CheckEvidence Output → PolicyResult)
    (result : CheckEvidence Output) where
  -- The verdict with the headline in front of its whole rationale.
  abbrev pub headlined : String → PolicyResult
  headlined crash = record (policy result) {
    rationale = template (
        id
        ∷ ": the tool stopped with an error before it produced a result: "
        ∷ crash
        ∷ "\n"
        ∷ (policy result).rationale
        ∷ []);
  }

  -- The tool did not die with an error, or the verdict is not a failure, or its first line does not say
  -- that nothing usable came, or that line has the error already.
  abbrev pub NeedsNoHeadline : Type 0
  NeedsNoHeadline =
      (crash_line result ≡ none)
      ⊎ (((policy result).outcome ≢ fail)
          ⊎ ((says_nothing_usable (first_line (policy result).rationale) ≡ false)
              ⊎ ((crash : String) × (crash_line result ≡ some crash)
                  × (includes (first_line (policy result).rationale) crash ≡ true))))

  -- Where the verdict is a failure, the tool died with an error, and the first line of the rationale
  -- says that nothing usable came and not that error, the error stands in front of the whole
  -- rationale; in every other case the verdict is the policy's own. The outcome is the policy's own
  -- in all of them.
  pub led_by_error-cases :
      ((led_by_error id policy result).outcome ≡ (policy result).outcome)
      × (((led_by_error id policy result ≡ policy result) × NeedsNoHeadline)
          ⊎ ((crash : String) × (crash_line result ≡ some crash)
              × ((policy result).outcome ≡ fail)
              × (says_nothing_usable (first_line (policy result).rationale) ≡ true)
              × (includes (first_line (policy result).rationale) crash ≡ false)
              × (led_by_error id policy result ≡ headlined crash)))
  unfolding led_by_error
  led_by_error-cases = elim (Option-cases (crash_line result)) [
    | inl quiet ↦ rw (quiet, led_by_error) (refl, inl (refl, inl refl))
    | inr (crash, died) ↦ elim (is_fail-cases (policy result).outcome) [
      | inl other ↦
          rw (died, other, led_by_error)
            (refl, inl (refl, inr (inl (λ e. cc (other, ap is_fail e)))))
      | inr fails ↦ elim (Bool-cases (says_nothing_usable (first_line (policy result).rationale))) [
        | inr usable ↦
            rw (died, fails, usable, led_by_error) (refl, inl (refl, inr (inr (inl refl))))
        | inl blames ↦ elim (Bool-cases (includes (first_line (policy result).rationale) crash)) [
          | inl said ↦
              rw (died, fails, blames, said, led_by_error)
                (refl, inl (refl, inr (inr (inr (crash, refl, said)))))
          | inr unsaid ↦
              rw (died, fails, blames, unsaid, led_by_error)
                (refl, inr (crash, refl, refl, refl, unsaid, refl))
        ]
      ]
    ]
  ]
