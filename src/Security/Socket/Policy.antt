-- ===== src/Security/Socket/Policy.antt =====
-- From the script's evidence to the check's verdict (checks/security-socket.ts). What `JSON.parse`
-- makes of the standard output is an argument, `none` where it throws; so are the text of the exit
-- code, and what `validateExceptionPolicyConfig` finds wrong with the policy.
use internal_package_contrac.Shared.{
  ℕ, ◌+◌, String, Bool, true, false, Option, none, some, List, [], ◌∷◌, ◌++◌, map, filter, length,
  negate, template, join, string_Eq,
}
use internal_package_contrac.Shared.Decimals.{decimal}
use internal_package_contrac.Shared.Json.{Json, null, boolean, object, Fields, lookup, quoted}
use internal_package_contrac.Checks.Shared.{
  pass, fail, PolicyResult, CheckEvidence, abnormal_termination,
}
use internal_package_contrac.Exceptions.{ExceptionRecord}
use internal_package_contrac.Exceptions.Findings.{
  Verdict, forbidden, unmatched, Evaluate, Determinant, PersistedExceptionRegistry, Reconcile,
  WriteResult, Loaded, Persisted, persisted, not_persisted, load_and_reconcile_exception_registry,
}
use internal_package_contrac.Exceptions.Active.{active_by_id, is_permitted}
use internal_package_contrac.Security.Socket.{
  NormalizedSocketAlert, create_socket_stub, evaluate_alert,
}
use internal_package_contrac.Security.Socket.Guidance.{socket_guidance}
use internal_package_contrac.Security.Socket.Run.{
  SocketRunOutcome, stopped, scanned, classify_problem, interpret_data, of_failure, registry_path,
}

abbrev unparsed :
    String → String → List (String × String) → Option (String × String) → SocketRunOutcome
unparsed stderr exit_code env repo = elim (classify_problem stderr none) [
  | none ↦ stopped fail (
      template (
        "The Socket score script produced no parseable JSON output (exit code " ∷ exit_code ∷ ")."
        ∷ []))
  | some problem ↦ stopped fail (socket_guidance problem env repo)
]

abbrev unrecognized : SocketRunOutcome
unrecognized =
    stopped fail "The Socket score script produced JSON with no recognized \"ok\" boolean field."

-- The envelope by its field `ok`.
abbrev by_ok :
    String
    → List (String × String)
    → Option (String × String)
    → Fields
    → Option Json
    → SocketRunOutcome
by_ok stderr env repo envelope (some (boolean true)) = interpret_data (lookup "data" envelope)
by_ok stderr env repo envelope (some (boolean false)) =
    of_failure envelope env repo (classify_problem stderr (some (object envelope)))
by_ok stderr env repo envelope _ = unrecognized

abbrev interpret_envelope :
    String
    → String
    → List (String × String)
    → Option (String × String)
    → Option Json
    → SocketRunOutcome
interpret_envelope stderr exit_code env repo none = unparsed stderr exit_code env repo
interpret_envelope stderr exit_code env repo (some null) = unparsed stderr exit_code env repo
interpret_envelope stderr exit_code env repo (some (object envelope)) =
    by_ok stderr env repo envelope (lookup "ok" envelope)
interpret_envelope stderr exit_code env repo _ = unrecognized

unfoldable pub interpret_socket_run :
    {Output : Type 0}
    → CheckEvidence Output
    → Option Json
    → String
    → List (String × String)
    → Option (String × String)
    → SocketRunOutcome
interpret_socket_run result parsed exit_code env repo =
    elim (abnormal_termination result "socket-package-score") [
      | some terminated ↦ stopped fail terminated
      | none ↦ interpret_envelope result.stderr exit_code env repo parsed
    ]

abbrev pub Judged : Type 0
Judged = NormalizedSocketAlert × Determinant

abbrev pub determinants : Evaluate → List ExceptionRecord → List NormalizedSocketAlert → List Judged
determinants evaluate active =
    map (λ alert. (alert, evaluate_alert evaluate alert (active_by_id active alert.id)))

abbrev pub is_offender : Judged → Bool
is_offender (alert, determinant) = negate (is_permitted determinant.verdict)

abbrev detail_text : Verdict → List String → String
detail_text forbidden missing = "forbidden by policy (above medium severity)"
detail_text unmatched missing = "no reconciled exception record (registry integrity failure)"
detail_text _ missing = template ("exception incomplete (missing: " ∷ join ", " missing ∷ ")" ∷ [])

abbrev offender_line : Judged → String
offender_line (alert, determinant) = template (
    "- "
    ∷ alert.id
    ∷ " ["
    ∷ alert.severity
    ∷ "]: "
    ∷ detail_text determinant.verdict determinant.missing
    ∷ [])

abbrev stale_line : ExceptionRecord → String
stale_line r = template (
    "- Stale exception in "
    ∷ registry_path
    ∷ ": "
    ∷ quoted r.id
    ∷ " -- Socket no longer raises this alert; delete this entry."
    ∷ [])

abbrev stubs_suffix : List String → String
stubs_suffix [] = ""
stubs_suffix (id ∷ ids) = template (
    " ("
    ∷ decimal (length (id ∷ ids))
    ∷ " new record(s) scaffolded blank in "
    ∷ registry_path
    ∷ ")"
    ∷ [])

abbrev permitted_all : ℕ → List String → PolicyResult
permitted_all count stubs = record {
  outcome = pass;
  rationale = template (
      decimal count
      ∷ " Socket alert(s) evaluated: all permitted by a complete exception record."
      ∷ stubs_suffix stubs
      ∷ []);
}

abbrev need_attention : List Judged → List ExceptionRecord → PolicyResult
need_attention offenders stale = record {
  outcome = fail;
  rationale = join "\n" (
      template (
        decimal (length offenders + length stale)
        ∷ " Socket alert(s) or stale record(s) need attention:"
        ∷ [])
      ∷ (map offender_line offenders ++ map stale_line stale));
}

abbrev pub judge : ℕ → List String → List Judged → List ExceptionRecord → PolicyResult
judge count stubs [] [] = permitted_all count stubs
judge count stubs offenders stale = need_attention offenders stale

abbrev config_line : String → String
config_line e = template ("- " ∷ e ∷ [])

unfoldable pub evaluate_final_verdict :
    Evaluate → List String → List NormalizedSocketAlert → PersistedExceptionRegistry → PolicyResult
evaluate_final_verdict evaluate (e ∷ es) alerts registry = record {
  outcome = fail;
  rationale = join "\n" ("SOCKET_POLICY is misconfigured:" ∷ map config_line (e ∷ es));
}
evaluate_final_verdict evaluate [] alerts registry =
    judge (length alerts) registry.new_stub_ids
      (filter is_offender (determinants evaluate registry.active_records alerts))
      registry.stale_records

abbrev with_note : String → PolicyResult → PolicyResult
with_note note verdict = record {
  outcome = verdict.outcome;
  rationale = template (verdict.rationale ∷ note ∷ []);
}

abbrev pub of_persisted :
    Evaluate → List String → List NormalizedSocketAlert → String → Persisted → PolicyResult
of_persisted evaluate config_errors alerts note (not_persisted rationale) = record {
  outcome = fail;
  rationale = rationale;
}
of_persisted evaluate config_errors alerts note (persisted registry) =
    with_note note (evaluate_final_verdict evaluate config_errors alerts registry)

-- The policy of the check `SecuritySocket`, once the run is interpreted.
unfoldable pub security_socket_policy :
    Evaluate
    → Reconcile NormalizedSocketAlert
    → (List ExceptionRecord → WriteResult)
    → Loaded
    → List String
    → SocketRunOutcome
    → PolicyResult
security_socket_policy evaluate reconcile write loaded config_errors (stopped outcome rationale) =
    record { outcome = outcome; rationale = rationale }
security_socket_policy evaluate reconcile write loaded config_errors (scanned alerts note) =
    of_persisted evaluate config_errors alerts note
      (load_and_reconcile_exception_registry reconcile write loaded registry_path alerts
        (λ alert. alert.id) create_socket_stub).result
