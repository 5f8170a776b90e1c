-- ===== src/Exceptions/Findings.antt =====
-- The verdict on a finding, and the reconciliation of a registry that is then written back
-- (checks/exception-record.ts). `evaluateExceptionRecord`, `loadExceptionRegistry`,
-- `reconcileExceptions` and `writeExceptionRegistry` are of the package repo-contract: arguments.
use internal_package_contrac.Shared.{
  String, Option, none, some, List, [], ◌∷◌, ◌++◌, ◌≡◌, ◌≢◌, refl, ap, map, template, join, All,
  string_Eq,
}
use internal_package_contrac.Shared.Dicts.{get}
use internal_package_contrac.Exceptions.{ExceptionRecord}
use internal_package_contrac.Exceptions.Registry.{record_field_value}

pub data Verdict : Type 0 where
  forbidden insufficient permitted unmatched : Verdict

pub record Determinant : Type 0 where
  pub verdict : Verdict
  pub missing : List String

pub data ExceptionPolicy : Type 0 where
  forbidding : ExceptionPolicy
  requiring : List String → ExceptionPolicy

pub record GroupPolicy : Type 0 where
  pub default_policy : Option ExceptionPolicy
  pub rules : List (String × ExceptionPolicy)

pub record Classification : Type 0 where
  pub group : String
  pub category : String

-- `evaluateExceptionRecord`, on one classification: a record, the classification, the policies of
-- the groups, the policy for all else, and how a record's field is read.
abbrev pub Evaluate : Type 0
Evaluate =
    ExceptionRecord
    → Classification
    → List (String × GroupPolicy)
    → ExceptionPolicy
    → (ExceptionRecord → String → String)
    → Determinant

abbrev policy_or : Option ExceptionPolicy → ExceptionPolicy → ExceptionPolicy
policy_or none default = default
policy_or (some policy) default = policy

-- The policy that a classification selects: the rule of its category, else the default of its
-- group, else the policy for all else.
abbrev pub resolved :
    Classification → List (String × GroupPolicy) → ExceptionPolicy → ExceptionPolicy
resolved c config global_default = elim (get c.group config) [
  | none ↦ global_default
  | some group ↦
      policy_or (get c.category group.rules) (policy_or group.default_policy global_default)
]

-- What the code relies on: a forbidding policy forbids, a record is never left undecided, and where a
-- policy requires fields, a permitted record has written each of them.
pub record IsEvaluation (evaluate : Evaluate) : Type 0 where
  pub forbids :
      (r : ExceptionRecord) (c : Classification) (config : List (String × GroupPolicy))
      (global_default : ExceptionPolicy) (field_value : ExceptionRecord → String → String)
      → resolved c config global_default ≡ forbidding
      → (evaluate r c config global_default field_value).verdict ≡ forbidden
  pub decides :
      (r : ExceptionRecord) (c : Classification) (config : List (String × GroupPolicy))
      (global_default : ExceptionPolicy) (field_value : ExceptionRecord → String → String)
      → (evaluate r c config global_default field_value).verdict ≢ unmatched
  pub permits :
      (r : ExceptionRecord) (c : Classification) (config : List (String × GroupPolicy))
      (global_default : ExceptionPolicy) (field_value : ExceptionRecord → String → String)
      (requirements : List String)
      → resolved c config global_default ≡ requiring requirements
      → (evaluate r c config global_default field_value).verdict ≡ permitted
      → All (λ requirement. field_value r requirement ≢ "") requirements

unfoldable pub evaluate_finding_verdict :
    Evaluate
    → Option ExceptionRecord
    → Classification
    → List (String × GroupPolicy)
    → ExceptionPolicy
    → Determinant
evaluate_finding_verdict evaluate none c config global_default = record {
  verdict = unmatched;
  missing = [];
}
evaluate_finding_verdict evaluate (some r) c config global_default =
    evaluate r c config global_default record_field_value

pub record PersistedExceptionRegistry : Type 0 where
  pub active_records : List ExceptionRecord
  pub stale_records : List ExceptionRecord
  pub new_stub_ids : List String

pub data Reconciled : Type 0 where
  reconciled : PersistedExceptionRegistry → Reconciled
  irreconcilable : String → Reconciled

-- How `mkdir` and the write of the records end.
pub data WriteResult : Type 0 where
  stored : WriteResult
  not_stored threw : String → WriteResult

-- What `loadExceptionRegistry` answers, which validates what it reads by the registry's schema.
pub data Loaded : Type 0 where
  records_of : List ExceptionRecord → Loaded
  load_errors : List String → Loaded

pub data Persisted : Type 0 where
  persisted : PersistedExceptionRegistry → Persisted
  not_persisted : String → Persisted

-- An outcome, and the records that were handed to the write, if there was one.
pub record PersistRun : Type 0 where
  pub result : Persisted
  pub handed : Option (List ExceptionRecord)

-- `reconcileExceptions`: the records, the findings, a finding's id and its stub.
abbrev pub Reconcile : Type 0 → Type 0
Reconcile F =
    List ExceptionRecord → List F → (F → String) → (F → String → ExceptionRecord) → Reconciled

abbrev after_write : String → PersistedExceptionRegistry → WriteResult → Persisted
after_write path registry stored = persisted registry
after_write path registry (not_stored error) =
    not_persisted (template ("Writing " ∷ path ∷ " failed: " ∷ error ∷ []))
after_write path registry (threw message) =
    not_persisted (template ("Could not write " ∷ path ∷ ": " ∷ message ∷ []))

abbrev after_reconcile : (List ExceptionRecord → WriteResult) → String → Reconciled → PersistRun
after_reconcile write path (irreconcilable error) = record {
  result = not_persisted (template (path ∷ " could not be reconciled: " ∷ error ∷ []));
  handed = none;
}
after_reconcile write path (reconciled registry) =
    let all_records = registry.active_records ++ registry.stale_records in
    record { result = after_write path registry (write all_records); handed = some all_records }

unfoldable pub reconcile_and_persist_exception_registry :
    {F : Type 0}
    → Reconcile F
    → (List ExceptionRecord → WriteResult)
    → String
    → List ExceptionRecord
    → List F
    → (F → String)
    → (F → String → ExceptionRecord)
    → PersistRun
reconcile_and_persist_exception_registry reconcile write path existing findings id create_stub =
    after_reconcile write path (reconcile existing findings id create_stub)

abbrev error_line : String → String
error_line error = template ("- " ∷ error ∷ [])

unfoldable pub load_and_reconcile_exception_registry :
    {F : Type 0}
    → Reconcile F
    → (List ExceptionRecord → WriteResult)
    → Loaded
    → String
    → List F
    → (F → String)
    → (F → String → ExceptionRecord)
    → PersistRun
load_and_reconcile_exception_registry reconcile write (load_errors errors) path findings id
      create_stub =
    record {
      result = not_persisted (
          join "\n" (
            template (path ∷ " failed to load and was left unchanged:" ∷ [])
            ∷ map error_line errors));
      handed = none;
    }
load_and_reconcile_exception_registry reconcile write (records_of existing) path findings id
      create_stub =
    reconcile_and_persist_exception_registry reconcile write path existing findings id create_stub

after_write-persisted :
    (path : String) (registry : PersistedExceptionRegistry) (w : WriteResult)
    {shown : PersistedExceptionRegistry}
    → after_write path registry w ≡ persisted shown
    → (registry ≡ shown) × (w ≡ stored)
after_write-persisted path registry stored h = (cc h, refl)
after_write-persisted path registry (not_stored error) h = cc h
after_write-persisted path registry (threw message) h = cc h

after_reconcile-persisted :
    (write : List ExceptionRecord → WriteResult) (path : String) (outcome : Reconciled)
    {registry : PersistedExceptionRegistry}
    → (after_reconcile write path outcome).result ≡ persisted registry
    → (outcome ≡ reconciled registry)
      × (write (registry.active_records ++ registry.stale_records) ≡ stored)
after_reconcile-persisted write path (irreconcilable error) h = cc h
after_reconcile-persisted write path (reconciled inner) h =
    let (e, w) = after_write-persisted path inner (write _) h in (ap reconciled e, rw e at w)

-- A registry that is reported as persisted was reconciled from the loaded records, and its active
-- and its stale records are what was stored.
pub load_and_reconcile-persisted :
    {F : Type 0} (reconcile : Reconcile F) (write : List ExceptionRecord → WriteResult)
    (loaded : Loaded) (path : String) (findings : List F) (id : F → String)
    (create_stub : F → String → ExceptionRecord) {registry : PersistedExceptionRegistry}
    → (load_and_reconcile_exception_registry reconcile write loaded path findings id
        create_stub).result
      ≡ persisted registry
    → (existing : List ExceptionRecord) × (loaded ≡ records_of existing)
      × (reconcile existing findings id create_stub ≡ reconciled registry)
      × (write (registry.active_records ++ registry.stale_records) ≡ stored)
unfolding load_and_reconcile_exception_registry reconcile_and_persist_exception_registry
load_and_reconcile-persisted reconcile write (load_errors errors) path findings id create_stub h =
    cc h
load_and_reconcile-persisted reconcile write (records_of existing) path findings id create_stub h =
    let (r, w) =
      after_reconcile-persisted write path (reconcile existing findings id create_stub) h in
    (existing, refl, r, w)
