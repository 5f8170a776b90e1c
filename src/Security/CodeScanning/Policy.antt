-- ===== src/Security/CodeScanning/Policy.antt =====
-- The verdict on the report of the alerts (checks/code-scanning.ts). The package's published entries,
-- which are read from package.json, are an argument.
use internal_package_contrac.Shared.{
  ℕ, ◌-◌, String, Bool, Option, none, some, List, [], ◌∷◌, ◌++◌, map, filter, length, take, negate,
  template, join, ◌===◌, string_Eq, if◌then◌else◌, ltb,
}
use internal_package_contrac.Shared.Decimals.{decimal}
use internal_package_contrac.Shared.Dicts.{map_of}
use internal_package_contrac.Checks.Shared.{
  pass, fail, PolicyResult, CheckEvidence, parse_tool_envelope, opened, refused,
}
use internal_package_contrac.Exceptions.{ExceptionRecord}
use internal_package_contrac.Exceptions.Findings.{
  Verdict, Evaluate, forbidding, requiring, GroupPolicy, Classification, evaluate_finding_verdict,
  Reconcile, WriteResult, Loaded, Persisted, persisted, not_persisted,
  load_and_reconcile_exception_registry,
}
use internal_package_contrac.Security.Socket.Guidance.{numbered}
use internal_package_contrac.Exceptions.Active.{active_by_id, is_permitted}
use internal_package_contrac.Security.CodeScanning.{
  derive_code_scanning_id, is_dev_path, CodeScanningAlert, Finding, create_dev_stub, requirements,
}

pub record AlertsData : Type 0 where
  pub kind : Option String
  pub skipped : Option String
  pub alerts : Option (List CodeScanningAlert)

pub record AlertsReport : Type 0 where
  pub ok : Bool
  pub message : Option String
  pub contents : Option AlertsData

abbrev kind_of : Option AlertsData → Option String
kind_of none = none
kind_of (some contents) = contents.kind

abbrev skipped_of : Option AlertsData → Option String
skipped_of none = none
skipped_of (some contents) = contents.skipped

abbrev listed : Option (List CodeScanningAlert) → List CodeScanningAlert
listed none = []
listed (some alerts) = alerts

abbrev alerts_of : Option AlertsData → List CodeScanningAlert
alerts_of none = []
alerts_of (some contents) = listed contents.alerts

abbrev pub registry_path : String
registry_path = ".repo-contract/exceptions/code-scanning.json"

abbrev pub policy : List (String × GroupPolicy)
policy =
    (
      "code-scanning",
      record { default_policy = none; rules = ("dev", requiring requirements) ∷ [] },
    )
    ∷ []

abbrev pub dev : Classification
dev = record { group = "code-scanning"; category = "dev" }

abbrev said : Option String → String
said none = "."
said (some message) = if message === "" then "." else template (": " ∷ message ∷ [])

abbrev message_or : Option String → String → String
message_or none default = default
message_or (some message) default = message

abbrev kind_steps : String → Option String → List String
kind_steps kind message =
    if kind === "no-token"
    then "In the contract workflow job add `permissions: { contents: read, security-events: read }`."
      ∷ "Pass the token to the step that runs the contract: `env: { GH_TOKEN: ${{ github.token }} }`."
      ∷ []
    else if kind === "truncated"
    then message_or message "The alert list is too long to read in full."
      ∷ "Triage the open alerts on GitHub first."
      ∷ []
    else if kind === "gh-not-installed"
    then "Install the GitHub CLI: https://cli.github.com (macOS: `brew install gh`)."
      ∷ "Sign in: `gh auth login`."
      ∷ "Allow it to read code scanning: `gh auth refresh -s security_events`." ∷ []
    else if kind === "not-authenticated"
    then "Sign in: `gh auth login`."
      ∷ "Allow it to read code scanning: `gh auth refresh -s security_events`." ∷ []
    else if kind === "no-access"
    then "Your gh login cannot read this repository's code-scanning alerts."
      ∷ "Allow it: `gh auth refresh -s security_events`, and use an account with access to the repository."
      ∷ []
    else template ("GitHub's answer could not be read" ∷ said message ∷ []) ∷ []

abbrev steps : Option String → Option String → List String
steps none message = template ("GitHub's answer could not be read" ∷ said message ∷ []) ∷ []
steps (some kind) message = kind_steps kind message

unfoldable pub guidance : Option String → Option String → String
guidance kind message = join "\n" (
    "Code scanning could not be reviewed:"
    ∷ (numbered 0 (steps kind message)
        ++ ("Re-run `npm run contract`. This check never passes without reading the alerts." ∷ [])))

abbrev max_listed : ℕ
max_listed = 20

abbrev alert_line : CodeScanningAlert → String
alert_line a = template (
    "- "
    ∷ a.rule
    ∷ " in "
    ∷ a.path
    ∷ ":"
    ∷ decimal a.line
    ∷ " ["
    ∷ a.severity
    ∷ "]: "
    ∷ a.message
    ∷ [])

abbrev more_line : ℕ → List String
more_line count =
    if ltb max_listed count
    then template ("- ...and " ∷ decimal (count - max_listed) ∷ " more" ∷ []) ∷ []
    else []

abbrev must_be_fixed : List CodeScanningAlert → PolicyResult
must_be_fixed shipped = record {
  outcome = fail;
  rationale = join "\n" (
      template (
        decimal (length shipped)
        ∷ " open code-scanning alert(s) are in code that builds, runs or ships, so they must be fixed (there is no exception for them):"
        ∷ [])
      ∷ (map alert_line (take max_listed shipped) ++ more_line (length shipped)));
}

abbrev pub finding_of : CodeScanningAlert → Finding
finding_of a = record { id = derive_code_scanning_id a.rule a.path; rule = a.rule; path = a.path }

abbrev pub keyed : CodeScanningAlert → String × Finding
keyed a = (derive_code_scanning_id a.rule a.path, finding_of a)

-- Each rule and file once.
unfoldable pub findings_of : List CodeScanningAlert → List Finding
findings_of alerts = map (λ p. p.1) (map_of (map keyed alerts))

abbrev pub verdict_of : Evaluate → List ExceptionRecord → Finding → Verdict
verdict_of evaluate active finding =
    (evaluate_finding_verdict evaluate (active_by_id active finding.id) dev policy
      forbidding).verdict

abbrev pub incomplete : Evaluate → List ExceptionRecord → List Finding → List Finding
incomplete evaluate active =
    filter (λ finding. negate (is_permitted (verdict_of evaluate active finding)))

abbrev finding_line : Finding → String
finding_line finding = template ("- " ∷ finding.id ∷ [])

abbrev all_rejected : List CodeScanningAlert → PolicyResult
all_rejected [] = record { outcome = pass; rationale = "No open code-scanning alerts." }
all_rejected (a ∷ alerts) = record {
  outcome = pass;
  rationale = template (
      decimal (length (a ∷ alerts))
      ∷ " open code-scanning alert(s), all in development-only code and rejected by a record in "
      ∷ registry_path
      ∷ "."
      ∷ []);
}

abbrev pub judge : List CodeScanningAlert → List Finding → PolicyResult
judge alerts [] = all_rejected alerts
judge alerts (f ∷ fs) = record {
  outcome = fail;
  rationale = join "\n" (
      template (
        decimal (length (f ∷ fs))
        ∷ " development-only finding(s) have an incomplete record in "
        ∷ registry_path
        ∷ ":"
        ∷ [])
      ∷ map finding_line (f ∷ fs));
}

abbrev pub of_persisted : Evaluate → List CodeScanningAlert → Persisted → PolicyResult
of_persisted evaluate alerts (not_persisted rationale) = record {
  outcome = fail;
  rationale = rationale;
}
of_persisted evaluate alerts (persisted registry) =
    judge alerts (incomplete evaluate registry.active_records (findings_of alerts))

abbrev pub by_shipped : List CodeScanningAlert → PolicyResult → PolicyResult
by_shipped [] verdict = verdict
by_shipped (a ∷ shipped) verdict = must_be_fixed (a ∷ shipped)

abbrev pub shipped_of : List String → List CodeScanningAlert → List CodeScanningAlert
shipped_of published = filter (λ a. negate (is_dev_path a.path published))

-- The alerts of a report that was not skipped.
unfoldable pub judge_alerts :
    Evaluate
    → Reconcile Finding
    → (List ExceptionRecord → WriteResult)
    → Loaded
    → List String
    → List CodeScanningAlert
    → PolicyResult
judge_alerts evaluate reconcile write loaded published alerts =
    by_shipped (shipped_of published alerts) (
      of_persisted evaluate alerts
        (load_and_reconcile_exception_registry reconcile write loaded registry_path
          (findings_of alerts) (λ finding. finding.id) create_dev_stub).result)

-- The policy of the check `CodeScanning`; `has_ok` says whether the output is an object that has `ok`.
unfoldable pub code_scanning_policy :
    (AlertsReport → Bool)
    → Evaluate
    → Reconcile Finding
    → (List ExceptionRecord → WriteResult)
    → Loaded
    → List String
    → CheckEvidence AlertsReport
    → PolicyResult
code_scanning_policy has_ok evaluate reconcile write loaded published result =
    elim (parse_tool_envelope has_ok result "code-scanning-alerts" "Code scanning:") [
      | refused verdict ↦ verdict
      | opened report ↦
          if negate report.ok
          then record {
            outcome = fail;
            rationale = guidance (kind_of report.contents) report.message;
          }
          else elim (skipped_of report.contents) [
            | some why ↦ record {
              outcome = pass;
              rationale = template ("Code scanning review skipped: " ∷ why ∷ "." ∷ []);
            }
            | none ↦
                judge_alerts evaluate reconcile write loaded published (alerts_of report.contents)
          ]
    ]
