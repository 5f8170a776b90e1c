-- ===== src/Security/CodeScanning/DevOnly.antt =====
-- What a check that passes on a report has seen.
use internal_package_contrac.Shared.{
  String, Bool, true, false, ◌⊎◌, List, [], ◌∷◌, ◌≡◌, inl, inr, refl, sym, ap, ◌∙◌, All-mem,
  All-of_mem, map, any, All, Memᴰ, string_Eq, Option-cases, Bool-cases,
}
use internal_package_contrac.Shared.Dicts.{get, map_of, mem_of_get, mem_of_get_map_of, get-map_of}
use internal_package_contrac.Shared.Regex.{starts_with}
use internal_package_contrac.Checks.Shared.{pass, PolicyResult}
use internal_package_contrac.Exceptions.{ExceptionRecord}
use internal_package_contrac.Exceptions.Registry.{record_field_value}
use internal_package_contrac.Exceptions.Written.{IsWritten, All-IsWritten}
use internal_package_contrac.Exceptions.Findings.{
  permitted, Evaluate, IsEvaluation, forbidding, evaluate_finding_verdict,
  PersistedExceptionRegistry, Reconcile, WriteResult, Loaded, persisted,
  load_and_reconcile_exception_registry,
}
use internal_package_contrac.Exceptions.Active.{
  by_id, active_by_id, is_permitted, mem_of_by_id, is_permitted-eq, Persisted-cases,
}
use internal_package_contrac.Security.CodeScanning.{
  derive_code_scanning_id, is_dev_path, dev_prefixes, matches_dev_pattern, covers,
  CodeScanningAlert, Finding, create_dev_stub, requirements,
}
use internal_package_contrac.Security.CodeScanning.Policy.{
  shipped_of, finding_of, findings_of, keyed, verdict_of, incomplete, judge, of_persisted,
  by_shipped, judge_alerts, registry_path, dev, policy,
}

-- A file of development alone: no published entry covers it, and it stands below one of the
-- directories of development or matches one of the patterns for tests and configuration.
abbrev pub IsDevOnly : String → List String → Type 0
IsDevOnly path published =
    (any (covers path) published ≡ false)
    × (((prefix : String) × Memᴰ prefix dev_prefixes × (starts_with path prefix ≡ true))
        ⊎ (matches_dev_pattern path ≡ true))

found_of_any :
    (p : String → Bool) (xs : List String)
    → any p xs ≡ true
    → (x : String) × Memᴰ x xs × (p x ≡ true)
found_of_any p [] h = cc h
found_of_any p (x ∷ xs) h = elim (Bool-cases (p x)) [
  | inl here ↦ (x, Memᴰ.head refl, here)
  | inr later ↦
      let (y, there, holds) = found_of_any p xs (rw later at h) in (y, Memᴰ.tail there, holds)
]

pub is_dev_path-IsDevOnly :
    (path : String) (published : List String)
    → is_dev_path path published ≡ true
    → IsDevOnly path published
unfolding is_dev_path
is_dev_path-IsDevOnly path published h = elim (Bool-cases (any (covers path) published)) [
  | inl covered ↦ cc (rw covered at h)
  | inr free ↦ elim (Bool-cases (any (starts_with path) dev_prefixes)) [
    | inl below ↦ (free, inl (found_of_any (starts_with path) dev_prefixes below))
    | inr above ↦ (free, inr (rw (free, above) at h))
  ]
]

-- What a passing check says of an alert: its file is of development alone, and the registry has an
-- active record of its rule and file with each required field written.
abbrev pub IsRejected : List String → List ExceptionRecord → CodeScanningAlert → Type 0
IsRejected published active alert =
    IsDevOnly alert.path published
    × ((r : ExceptionRecord) × Memᴰ r active
        × (r.id ≡ derive_code_scanning_id alert.rule alert.path)
        × All (IsWritten r) requirements)

mem_of_keyed :
    (alerts : List CodeScanningAlert) {k : String} {f : Finding}
    → Memᴰ (k, f) (map keyed alerts)
    → f.id ≡ k
mem_of_keyed [] m = elim m [ ]
mem_of_keyed (a ∷ alerts) (Memᴰ.head e) = rw (ap (λ p. p.1) e) (sym (ap (λ p. p.0) e))
mem_of_keyed (a ∷ alerts) (Memᴰ.tail m) = mem_of_keyed alerts m

mem-map {ℓ κ} :
    {A : Type ℓ} {B : Type κ} (f : A → B) {a : A} (xs : List A) → Memᴰ a xs → Memᴰ (f a) (map f xs)
mem-map f [] m = elim m [ ]
mem-map f (x ∷ xs) (Memᴰ.head e) = Memᴰ.head (ap f e)
mem-map f (x ∷ xs) (Memᴰ.tail m) = Memᴰ.tail (mem-map f xs m)

-- Each alert is among the findings, by its rule and file.
mem-findings_of :
    (alerts : List CodeScanningAlert) {a : CodeScanningAlert}
    → Memᴰ a alerts
    → (f : Finding) × Memᴰ f (findings_of alerts) × (f.id ≡ derive_code_scanning_id a.rule a.path)
unfolding findings_of
mem-findings_of alerts {a} m =
    let k = derive_code_scanning_id a.rule a.path in
    let (f, e) = get-map_of k {v = finding_of a} (map keyed alerts) (mem-map keyed alerts m) in
    (
      f,
      mem-map (λ p. p.1) _ (mem_of_get k (map_of (map keyed alerts)) e),
      mem_of_keyed alerts (mem_of_get_map_of k (map keyed alerts) e),
    )

verdict_of-IsWritten :
    (evaluate : Evaluate) (laws : IsEvaluation evaluate) (active : List ExceptionRecord)
    (f : Finding)
    → verdict_of evaluate active f ≡ permitted
    → (r : ExceptionRecord) × Memᴰ r active × (r.id ≡ f.id) × All (IsWritten r) requirements
unfolding evaluate_finding_verdict get
verdict_of-IsWritten evaluate laws active f h = elim (Option-cases (active_by_id active f.id)) [
  | inl absent ↦ cc (rw (absent, verdict_of) at h)
  | inr (r, e) ↦
      let (there, same) = mem_of_by_id active (mem_of_get_map_of f.id (map by_id active) e) in
      (
        r,
        there,
        same,
        All-IsWritten r requirements (
            laws.permits r dev policy forbidding record_field_value requirements refl
              (rw (e, verdict_of) at h)),
      )
]

module _ (evaluate : Evaluate) (laws : IsEvaluation evaluate) where
  no_incomplete :
      (active : List ExceptionRecord) (findings : List Finding)
      → incomplete evaluate active findings ≡ []
      → All (λ f. verdict_of evaluate active f ≡ permitted) findings
  no_incomplete active [] h = tt
  no_incomplete active (f ∷ findings) h =
      elim (Bool-cases (is_permitted (verdict_of evaluate active f))) [
        | inl fine ↦ (is_permitted-eq _ fine, no_incomplete active findings (rw fine at h))
        | inr not_fine ↦ cc (rw not_fine at h)
      ]

  no_shipped :
      (published : List String) (alerts : List CodeScanningAlert)
      → shipped_of published alerts ≡ []
      → All (λ a. is_dev_path a.path published ≡ true) alerts
  no_shipped published [] h = tt
  no_shipped published (a ∷ alerts) h = elim (Bool-cases (is_dev_path a.path published)) [
    | inl fine ↦ (fine, no_shipped published alerts (rw fine at h))
    | inr not_fine ↦ cc (rw not_fine at h)
  ]

  by_shipped-pass :
      (shipped : List CodeScanningAlert) (verdict : PolicyResult)
      → (by_shipped shipped verdict).outcome ≡ pass
      → (shipped ≡ []) × (verdict.outcome ≡ pass)
  by_shipped-pass [] verdict h = (refl, h)
  by_shipped-pass (a ∷ shipped) verdict h = cc

  judge-pass :
      (alerts : List CodeScanningAlert) (findings : List Finding)
      → (judge alerts findings).outcome ≡ pass
      → findings ≡ []
  judge-pass alerts [] h = refl
  judge-pass alerts (f ∷ fs) h = cc

  -- Where the evaluation of records permits only what has the fields that a policy requires: if the
  -- alerts of a branch pass, each is in a file of development alone, which no published entry covers
  -- and which stands below a directory of development or matches a pattern for tests and
  -- configuration; and the reconciled registry has, for each, an active record of its rule and file
  -- with every required field written. A record of version 1 that has no text for one of the
  -- structured fields of version 2 is let off that field.
  pub judge_alerts-IsRejected :
      (reconcile : Reconcile Finding) (write : List ExceptionRecord → WriteResult) (loaded : Loaded)
      (published : List String) (alerts : List CodeScanningAlert)
      → (judge_alerts evaluate reconcile write loaded published alerts).outcome ≡ pass
      → (registry : PersistedExceptionRegistry) × ((load_and_reconcile_exception_registry reconcile
            write loaded registry_path
            (findings_of alerts)
            (λ finding. finding.id)
            create_dev_stub).result
          ≡ persisted registry)
        × All (IsRejected published registry.active_records) alerts
  unfolding judge_alerts
  judge_alerts-IsRejected reconcile write loaded published alerts h =
      let run =
        load_and_reconcile_exception_registry reconcile write loaded registry_path
          (findings_of alerts) (λ finding. finding.id) create_dev_stub in
      let (none_shipped, passed) =
        by_shipped-pass (shipped_of published alerts) (of_persisted evaluate alerts run.result) h in
      elim (Persisted-cases run.result) [
        | inl (rationale, e) ↦ cc (rw e at passed)
        | inr (registry, e) ↦
            let active = registry.active_records in
            let written = no_incomplete active (findings_of alerts) (
              judge-pass alerts (incomplete evaluate active (findings_of alerts))
                (rw e at passed)) in
            (
              registry,
              e,
              All-of_mem (IsRejected published active) alerts λ a m.
                  let (f, there, id) = mem-findings_of alerts m in
                  let (r, inside, same, All-IsWritten) =
                    verdict_of-IsWritten evaluate laws active f (
                      All-mem (λ g. verdict_of evaluate active g ≡ permitted) (findings_of alerts)
                        written there) in
                  (
                    is_dev_path-IsDevOnly a.path published (
                        All-mem (λ b. is_dev_path b.path published ≡ true) alerts
                          (no_shipped published alerts none_shipped) m),
                    (r, inside, same ∙ id, All-IsWritten),
                  ),
            )
      ]
