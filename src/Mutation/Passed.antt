-- ===== src/Mutation/Passed.antt =====
-- What a run that passes has seen of each mutant.
use internal_package_contrac.Shared.{
  ℕ, ◌+◌, String, Bool, true, false, ◌&&◌, Option, none, some, List, [], ◌∷◌, ◌≡◌, ◌≢◌, ◌⊎◌, inl,
  inr, refl, sym, ◌∙◌, arith, negate, All, All-of_mem, Memᴰ, ◌===◌, string_Eq, nat_Eq, option_Eq,
  pair_Eq, if◌then◌else◌, Bool-cases, and-eq-true, eq_of_same, same_refl,
}
use internal_package_contrac.Checks.Shared.{pass, PolicyResult}
use internal_package_contrac.Exceptions.{ExceptionRecord}
use internal_package_contrac.Exceptions.Findings.{Evaluate, IsEvaluation}
use internal_package_contrac.Mutation.{
  ResolvedMutant, Key, is_survived_like, apply_exception_registry, has, count,
}
use internal_package_contrac.Mutation.Score.{
  verdict_of, summarize_mutation_score, judged, for_shard, judge_report, is_full_run, is_zero,
  concluded,
}
use internal_package_contrac.Mutation.Suppressed.{IsWaived, none_left, has-IsWaived}

-- With none of a status counted, each mutant of it is suppressed.
count-zero :
    (suppressed : List Key) (status : String) (mutants : List ResolvedMutant) {m : ResolvedMutant}
    → count suppressed status mutants ≡ 0
    → Memᴰ m mutants
    → m.status ≡ status
    → has suppressed m ≡ true
count-zero suppressed status mutants {m} none_of here e =
    let out =
      none_left (λ k. negate (has suppressed k) && k.status === status) mutants none_of here in
    elim (Bool-cases (has suppressed m)) [
      | inl there ↦ there
      | inr absent ↦ cc (rw (absent, e, same_refl status) at out)
    ]

for_shard-outcome :
    (shard : Option String) (v : PolicyResult) → (for_shard shard v).outcome ≡ v.outcome
for_shard-outcome none v = refl
for_shard-outcome (some shard) v = refl

concluded-outcome :
    (shard : Option String) (lacking stale : List String) (v : PolicyResult)
    → (concluded shard lacking stale v).outcome ≡ v.outcome
concluded-outcome shard [] [] v = for_shard-outcome shard v
concluded-outcome shard [] (s ∷ stale) v = refl
concluded-outcome shard (s ∷ lacking) stale v = refl

zero-IsWaived :
    (evaluate : Evaluate) (laws : IsEvaluation evaluate) (mutants : List ResolvedMutant)
    (records : List ExceptionRecord) (m : ResolvedMutant)
    → (count (apply_exception_registry evaluate mutants records).suppressed "Survived" mutants ≡ 0)
      × (count (apply_exception_registry evaluate mutants records).suppressed "NoCoverage" mutants
          ≡ 0)
      × (count (apply_exception_registry evaluate mutants records).suppressed "Timeout" mutants ≡ 0)
    → Memᴰ m mutants
    → (m.status ≢ "Timeout") × ((is_survived_like m.status ≡ false) ⊎ IsWaived records m)
zero-IsWaived evaluate laws mutants records m (survived, uncovered, timeout) here =
    let waived = has-IsWaived evaluate laws mutants records m in
    let seen : (s : String) → _ → m.status ≡ s → _ =
      λ s none_of e. waived (count-zero _ s mutants none_of here e) in
    (
      λ e. cc (rw e at (seen "Timeout" timeout e).1),
      elim (Bool-cases (m.status === "Survived")) [
        | inl s ↦ inr (seen "Survived" survived (eq_of_same m.status "Survived" s)).0
        | inr s ↦ elim (Bool-cases (m.status === "NoCoverage")) [
          | inl n ↦ inr (seen "NoCoverage" uncovered (eq_of_same m.status "NoCoverage" n)).0
          | inr n ↦ inl (ground (arith, s, n))
        ]
      ],
    )

module _ (name_le : String → String → Bool) (score : ℕ → ℕ → String) where
  verdict_of-zero :
      (mutants : List ResolvedMutant) (suppressed : List Key)
      (killed crashed survived uncovered timeout : ℕ)
      → (verdict_of name_le score mutants suppressed killed crashed survived uncovered
          timeout).outcome
        ≡ pass
      → (survived ≡ 0) × (uncovered ≡ 0) × (timeout ≡ 0)
  verdict_of-zero mutants suppressed killed crashed survived uncovered timeout h =
      elim (Bool-cases (is_zero (killed + crashed + survived + uncovered + timeout))) [
        | inl nothing ↦
            let e = eq_of_same (killed + crashed + survived + uncovered + timeout) 0 nothing in
            (omega arith, omega arith, omega arith)
        | inr something ↦
            elim (Bool-cases (is_zero survived && (is_zero uncovered && is_zero timeout))) [
              | inl clean ↦
                  let (s, rest) = and-eq-true (is_zero survived) _ clean in
                  let (u, t) = and-eq-true (is_zero uncovered) (is_zero timeout) rest in
                  (eq_of_same survived 0 s, eq_of_same uncovered 0 u, eq_of_same timeout 0 t)
              | inr dirty ↦ cc (rw (something, dirty) at h)
            ]
      ]

  judged-zero :
      (mutants : List ResolvedMutant) (lacking stale : List String) (suppressed : List Key)
      → (judged name_le score mutants lacking stale suppressed).outcome ≡ pass
      → (count suppressed "Survived" mutants ≡ 0)
        × (count suppressed "NoCoverage" mutants ≡ 0)
        × (count suppressed "Timeout" mutants ≡ 0)
  unfolding summarize_mutation_score
  judged-zero mutants [] [] suppressed h = verdict_of-zero mutants suppressed _ _ _ _ _ h
  judged-zero mutants [] (s ∷ stale) suppressed h = cc h
  judged-zero mutants (s ∷ lacking) stale suppressed h = cc h

  -- A run that passes has seen some mutant, and each of its mutants that survived or that no test
  -- covers is described by a record of the registry with every required field written, while none of
  -- them has timed out; the evaluation of records decides, and permits only what has a value for each
  -- required field.
  pub judge_report-IsWaived :
      (evaluate : Evaluate) (laws : IsEvaluation evaluate) (narrowed : Bool) (shard : Option String)
      (mutants : List ResolvedMutant) (records : List ExceptionRecord)
      → (judge_report name_le score evaluate narrowed shard mutants records).outcome ≡ pass
      → (mutants ≢ [])
        × All
            (λ m.
              (m.status ≢ "Timeout") × ((is_survived_like m.status ≡ false) ⊎ IsWaived records m))
            mutants
  unfolding judge_report
  judge_report-IsWaived evaluate laws narrowed shard [] records h = cc h
  judge_report-IsWaived evaluate laws narrowed shard (m ∷ mutants) records h =
      let applied = apply_exception_registry evaluate (m ∷ mutants) records in
      let stale = if is_full_run narrowed shard then applied.stale else [] in
      let zero_counts =
        judged-zero (m ∷ mutants) applied.lacking stale applied.suppressed
          (sym (concluded-outcome shard applied.lacking stale _) ∙ h) in
      (
        (λ e. cc e),
        All-of_mem _ (m ∷ mutants)
            (λ k here. zero-IsWaived evaluate laws (m ∷ mutants) records k zero_counts here),
      )
