-- ===== src/Security/Socket/Permitted.antt =====
-- What a check that passes on a scan has seen.
use internal_package_contrac.Shared.{
  ℕ, String, List, [], ◌∷◌, ◌++◌, ◌≡◌, ◌≢◌, ◌⊎◌, inl, inr, refl, sym, map, filter, All, Memᴰ,
  string_Eq, ◌===◌, Option-cases, Bool-cases, ne_of_same,
}
use internal_package_contrac.Shared.Dicts.{get, mem_of_get_map_of}
use internal_package_contrac.Checks.Shared.{pass}
use internal_package_contrac.Exceptions.{ExceptionRecord}
use internal_package_contrac.Exceptions.Registry.{record_field_value}
use internal_package_contrac.Exceptions.Written.{IsWritten, All-IsWritten}
use internal_package_contrac.Exceptions.Findings.{
  permitted, Evaluate, IsEvaluation, forbidding, resolved, evaluate_finding_verdict, Reconcile,
  WriteResult, stored, Loaded, records_of, PersistedExceptionRegistry, reconciled,
  load_and_reconcile_exception_registry, load_and_reconcile-persisted,
}
use internal_package_contrac.Exceptions.Active.{
  by_id, active_by_id, is_permitted, mem_of_by_id, is_permitted-eq, Persisted-cases,
}
use internal_package_contrac.Security.Socket.{
  NormalizedSocketAlert, create_socket_stub, evaluate_alert, socket_policy,
  authoring_requirements_full, full,
}
use internal_package_contrac.Security.Socket.Run.{scanned, registry_path}
use internal_package_contrac.Security.Socket.Policy.{
  is_offender, determinants, judge, evaluate_final_verdict, security_socket_policy, Judged,
}

-- An alert that may stand: not above medium severity, with a record in the registry that has
-- each required field written; a record of version 1 has no structured fields to write.
abbrev pub MayStand : List ExceptionRecord → NormalizedSocketAlert → Type 0
MayStand active alert =
    (alert.severity ≢ "critical")
    × (alert.severity ≢ "high")
    × ((r : ExceptionRecord) × Memᴰ r active
        × (r.id ≡ alert.id)
        × All (IsWritten r) authoring_requirements_full)

-- The policy of a severity.
resolved-socket :
    (severity : String)
    → ((resolved (record { group = "socket"; category = severity }) socket_policy full
        ≡ forbidding))
      ⊎ ((severity ≢ "critical")
          × (severity ≢ "high")
          × (resolved (record { group = "socket"; category = severity }) socket_policy full ≡ full))
unfolding get
resolved-socket severity = elim (Bool-cases ("critical" === severity)) [
  | inl worst ↦ inl (rw worst refl)
  | inr not_worst ↦ elim (Bool-cases ("high" === severity)) [
    | inl high ↦ inl (rw (not_worst, high) refl)
    | inr not_high ↦ inr (
      λ e. ne_of_same "critical" severity not_worst (sym e),
      λ e. ne_of_same "high" severity not_high (sym e),
      rw (not_worst, not_high)
          (elim (Bool-cases ("middle" === severity)) [
            | inl middle ↦ rw middle refl
            | inr not_middle ↦ elim (Bool-cases ("low" === severity)) [
              | inl low ↦ rw (not_middle, low) refl
              | inr not_low ↦ elim (Bool-cases ("unknown" === severity)) [
                | inl unknown ↦ rw (not_middle, not_low, unknown) refl
                | inr other ↦ rw (not_middle, not_low, other) refl
              ]
            ]
          ]),
    )
  ]
]

evaluate_alert-MayStand :
    (evaluate : Evaluate) (laws : IsEvaluation evaluate) (active : List ExceptionRecord)
    (alert : NormalizedSocketAlert)
    → (evaluate_alert evaluate alert (active_by_id active alert.id)).verdict ≡ permitted
    → MayStand active alert
unfolding evaluate_alert evaluate_finding_verdict
evaluate_alert-MayStand evaluate laws active alert h =
    elim (Option-cases (active_by_id active alert.id)) [
      | inl absent ↦ cc (rw absent at h)
      | inr (r, e) ↦
          let (there, same) =
            mem_of_by_id active (mem_of_get_map_of alert.id (map by_id active) e) in
          let p = rw e at h in
          elim (resolved-socket alert.severity) [
            | inl no_way ↦ cc (p, laws.forbids r _ socket_policy full record_field_value no_way)
            | inr (not_worst, not_high, way) ↦ (
              not_worst,
              not_high,
              (
                r,
                there,
                same,
                All-IsWritten r authoring_requirements_full (
                    laws.permits r _ socket_policy full record_field_value
                      authoring_requirements_full way p),
              ),
            )
          ]
    ]

module _ (evaluate : Evaluate) (laws : IsEvaluation evaluate) where
  no_offenders :
      (active : List ExceptionRecord) (alerts : List NormalizedSocketAlert)
      → filter is_offender (determinants evaluate active alerts) ≡ []
      → All (MayStand active) alerts
  no_offenders active [] h = tt
  no_offenders active (alert ∷ alerts) h =
      let verdict = (evaluate_alert evaluate alert (active_by_id active alert.id)).verdict in
      elim (Bool-cases (is_permitted verdict)) [
        | inl fine ↦ (
          evaluate_alert-MayStand evaluate laws active alert (is_permitted-eq verdict fine),
          no_offenders active alerts (rw fine at h),
        )
        | inr not_fine ↦ cc (rw not_fine at h)
      ]

  judge-pass :
      (count : ℕ) (stubs : List String) (offenders : List Judged) (stale : List ExceptionRecord)
      → (judge count stubs offenders stale).outcome ≡ pass
      → (offenders ≡ []) × (stale ≡ [])
  judge-pass count stubs [] [] h = (refl, refl)
  judge-pass count stubs [] (r ∷ rs) h = cc
  judge-pass count stubs (d ∷ ds) stale h = cc

  evaluate_final_verdict-pass :
      (config_errors : List String) (alerts : List NormalizedSocketAlert)
      (registry : PersistedExceptionRegistry)
      → (evaluate_final_verdict evaluate config_errors alerts registry).outcome ≡ pass
      → All (MayStand registry.active_records) alerts × (registry.stale_records ≡ [])
  unfolding evaluate_final_verdict
  evaluate_final_verdict-pass (e ∷ es) alerts registry h = cc
  evaluate_final_verdict-pass [] alerts registry h =
      let (fine, fresh) = judge-pass _ _ _ registry.stale_records h in
      (no_offenders registry.active_records alerts fine, fresh)

  -- Where the evaluation of records forbids and permits as its policies say: a scan that passes has
  -- no alert above medium severity, and for each alert the reconciled registry, which was stored,
  -- has an active record of the alert's id with every required field written, and no stale record. A
  -- record of version 1 that has no text for one of the structured fields of version 2 is let off
  -- that field.
  pub security_socket_policy-MayStand :
      (reconcile : Reconcile NormalizedSocketAlert) (write : List ExceptionRecord → WriteResult)
      (loaded : Loaded) (config_errors : List String) (alerts : List NormalizedSocketAlert)
      (note : String)
      → (security_socket_policy evaluate reconcile write loaded config_errors
          (scanned alerts note)).outcome
        ≡ pass
      → (existing : List ExceptionRecord) × (registry : PersistedExceptionRegistry) × (loaded
          ≡ records_of existing)
        × (reconcile existing alerts (λ alert. alert.id) create_socket_stub ≡ reconciled registry)
        × (write (registry.active_records ++ registry.stale_records) ≡ stored)
        × All (MayStand registry.active_records) alerts
        × (registry.stale_records ≡ [])
  unfolding security_socket_policy
  security_socket_policy-MayStand reconcile write loaded config_errors alerts note h =
      let run =
        load_and_reconcile_exception_registry reconcile write loaded registry_path alerts
          (λ alert. alert.id) create_socket_stub in
      elim (Persisted-cases run.result) [
        | inl (rationale, e) ↦ cc (rw e at h)
        | inr (registry, e) ↦
            let (fine, fresh) =
              evaluate_final_verdict-pass config_errors alerts registry (rw e at h) in
            let (existing, l, r, w) =
              load_and_reconcile-persisted reconcile write loaded registry_path alerts
                (λ alert. alert.id) create_socket_stub e in
            (existing, registry, l, r, w, fine, fresh)
      ]
