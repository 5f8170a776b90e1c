-- ===== src/Exceptions/Security.antt =====
-- The four fields of every security exception (checks/exception-record.ts), and how each schema
-- makes a record of its own fields and of what it derives the id from.
use internal_package_contrac.Shared.{
  ℕ, String, Bool, true, false, ◌&&◌, ◌||◌, some, List, [], ◌∷◌, ◌≡◌, ◌⊎◌, inl, inr, refl, sym, ◌∙◌,
  arith, template, ◌===◌, ◌!==◌, string_Eq, if◌then◌else◌, Bool-cases, eq_of_same,
}
use internal_package_contrac.Shared.Dicts.{contains}
use internal_package_contrac.Shared.Json.{Fields, lookup, quoted}
use internal_package_contrac.Exceptions.{ExceptionRecord, v1, Checked, place}
use internal_package_contrac.Exceptions.Settled.{IsSettled}
use internal_package_contrac.Exceptions.FieldChecks.{
  valid, problem, both, and_then, text_or, is_valid_optional_enum_field, both-IsSettled,
  and_then-IsSettled, both-value, and_then-value, text_or-IsSettled, valid-IsSettled,
  problem-IsSettled, is_valid_optional_enum_field-IsSettled, is_valid_optional_enum_field-value,
}

abbrev pub exception_types : List String
exception_types =
    "validated-false-positive" ∷ "accepted-risk" ∷ "compensating-control" ∷ "tooling-limitation"
    ∷ "scheduled-remediation" ∷ "platform-or-vendor-constraint" ∷ "required-for-package-to-exist"
    ∷ "dev-only-not-shipped" ∷ []

abbrev pub socket_exception_types : List String
socket_exception_types =
    "validated-false-positive" ∷ "tooling-limitation" ∷ "accepted-risk"
    ∷ "required-for-package-to-exist" ∷ []

abbrev pub code_scanning_exception_types : List String
code_scanning_exception_types = "dev-only-not-shipped" ∷ []

abbrev pub exception_methods : List String
exception_methods = "mechanical-reverification" ∷ "independent-human-review" ∷ "policy-rule" ∷ []

pub record SecurityExceptionFields : Type 0 where
  pub alternatives : String
  pub remediation : String
  pub method : String
  pub exception_type : String

abbrev pub security_exception_field_keys : List String
security_exception_field_keys = "alternatives" ∷ "remediation" ∷ "method" ∷ "exceptionType" ∷ []

-- `...security`
abbrev pub security_entries : SecurityExceptionFields → List (String × String)
security_entries s =
    ("alternatives", s.alternatives)
    ∷ ("remediation", s.remediation)
    ∷ ("method", s.method)
    ∷ ("exceptionType", s.exception_type)
    ∷ []

-- `exceptions[<index>].<key>`
abbrev pub field_place : ℕ → String → String
field_place index key = template (place index ∷ "." ∷ key ∷ [])

abbrev is_unbacked : String → String → Bool
is_unbacked method type =
    type === "validated-false-positive" && (method !== "" && method !== "mechanical-reverification")

-- The test that crosses two fields: a false positive that names a method names the re-run.
abbrev backed : ℕ → String × (String × (String × String)) → Checked SecurityExceptionFields
backed index (alternatives, (remediation, (method, type))) =
    if is_unbacked method type
    then problem (
        template (
          place index
          ∷ ": exceptionType \"validated-false-positive\" requires method \"mechanical-reverification\" (a false-positive claim rests on a re-run, not opinion); got method "
          ∷ quoted method
          ∷ "."
          ∷ []))
    else valid (record {
      alternatives = alternatives;
      remediation = remediation;
      method = method;
      exception_type = type;
    })

abbrev four_fields : Fields → ℕ → List String → Checked (String × (String × (String × String)))
four_fields raw index allowed =
    both
      (text_or (template (place index ∷ ".alternatives must be a string." ∷ []))
        (lookup "alternatives" raw))
      (both
        (text_or (template (place index ∷ ".remediation must be a string." ∷ []))
          (lookup "remediation" raw))
        (both
          (is_valid_optional_enum_field (lookup "method" raw) (field_place index "method")
            exception_methods)
          (is_valid_optional_enum_field (lookup "exceptionType" raw)
            (field_place index "exceptionType") allowed)))

unfoldable pub validate_security_exception_fields :
    Fields → ℕ → List String → Checked SecurityExceptionFields
validate_security_exception_fields raw index allowed =
    and_then (four_fields raw index allowed) (backed index)

-- The record of a schema: version 1, with the justification, the fields, and a test that the id is
-- the one which is derived from them.
abbrev pub derived_record :
    String → String → String → String → ℕ → List (String × String) → Checked ExceptionRecord
derived_record derived from id justification index fields =
    if derived !== id
    then problem (
        template (
          field_place index "id"
          ∷ " "
          ∷ quoted id
          ∷ " does not match the id derived from its own "
          ∷ from
          ∷ " ("
          ∷ quoted derived
          ∷ ")."
          ∷ []))
    else valid
        (record { id = id; version = v1; fields = ("justification", justification) ∷ fields })

pub derived_record-IsSettled :
    (derived from id justification : String) (index : ℕ) (fields : List (String × String))
    → IsSettled (derived_record derived from id justification index fields)
derived_record-IsSettled derived from id justification index fields =
    elim (Bool-cases (derived !== id)) [
      | inl other ↦ rw other (problem-IsSettled _)
      | inr same ↦ rw same (valid-IsSettled _)
    ]

pub derived_record-value :
    (derived from id justification : String) (index : ℕ) (fields : List (String × String))
    {r : ExceptionRecord}
    → (derived_record derived from id justification index fields).value ≡ some r
    → (r.id ≡ derived) × (r.fields ≡ ("justification", justification) ∷ fields)
derived_record-value derived from id justification index fields {r} h =
    elim (Bool-cases (derived === id)) [
      | inr other ↦ cc (rw other at h)
      | inl same ↦
          let e : r ≡ record {
            id = id;
            version = v1;
            fields = ("justification", justification) ∷ fields;
          } =
            cc (rw same at h) in
          rw e (sym (eq_of_same derived id same), refl)
    ]

backed-IsSettled :
    (index : ℕ) (p : String × (String × (String × String))) → IsSettled (backed index p)
backed-IsSettled index (alternatives, (remediation, (method, type))) =
    elim (Bool-cases (is_unbacked method type)) [
      | inl claimed ↦ rw claimed (problem-IsSettled _)
      | inr fine ↦ rw fine (valid-IsSettled _)
    ]

pub validate_security_exception_fields-IsSettled :
    (raw : Fields) (index : ℕ) (allowed : List String)
    → IsSettled (validate_security_exception_fields raw index allowed)
unfolding validate_security_exception_fields
validate_security_exception_fields-IsSettled raw index allowed =
    and_then-IsSettled (four_fields raw index allowed) (backed index)
      (both-IsSettled _ _ (text_or-IsSettled _ (lookup "alternatives" raw)) (
        both-IsSettled _ _ (text_or-IsSettled _ (lookup "remediation" raw)) (
          both-IsSettled _ _
            (is_valid_optional_enum_field-IsSettled (lookup "method" raw) _ exception_methods)
            (is_valid_optional_enum_field-IsSettled (lookup "exceptionType" raw) _ allowed))))
      (backed-IsSettled index)

-- Fields that are from the vocabulary, with a re-run behind a claim of a false positive.
pub record IsBacked (allowed : List String) (s : SecurityExceptionFields) : Type 0 where
  pub of_method : (s.method === "" || contains s.method exception_methods) ≡ true
  pub of_type : (s.exception_type === "" || contains s.exception_type allowed) ≡ true
  pub rerun :
      s.exception_type ≡ "validated-false-positive"
      → (s.method ≡ "") ⊎ (s.method ≡ "mechanical-reverification")

backed-value :
    (index : ℕ) (alternatives remediation method type : String) {s : SecurityExceptionFields}
    → (backed index (alternatives, (remediation, (method, type)))).value ≡ some s
    → (is_unbacked method type ≡ false) × (s.method ≡ method) × (s.exception_type ≡ type)
backed-value index alternatives remediation method type h = ground (arith, h)

rerun_of :
    (method type : String)
    → is_unbacked method type ≡ false
    → type ≡ "validated-false-positive"
    → (method ≡ "") ⊎ (method ≡ "mechanical-reverification")
rerun_of method type fine e =
    let claimed : (type === "validated-false-positive") ≡ true =
      (string_Eq.same_iff type "validated-false-positive").1 e in
    elim (Bool-cases (method === "")) [
      | inl blank ↦ inl (eq_of_same method "" blank)
      | inr filled ↦ elim (Bool-cases (method === "mechanical-reverification")) [
        | inl run ↦ inr (eq_of_same method "mechanical-reverification" run)
        | inr other ↦ cc (rw (claimed, filled, other) at fine)
      ]
    ]

pub validate_security_exception_fields-IsBacked :
    (raw : Fields) (index : ℕ) (allowed : List String) {s : SecurityExceptionFields}
    → (validate_security_exception_fields raw index allowed).value ≡ some s
    → IsBacked allowed s
unfolding validate_security_exception_fields
validate_security_exception_fields-IsBacked raw index allowed h =
    let ((alternatives, (remediation, (method, type))), there, b) =
      and_then-value (four_fields raw index allowed) (backed index) h in
    let (fine, m, t) = backed-value index alternatives remediation method type b in
    let rest = (both-value _ _ there).1 in
    let choices = both-value _ _ (both-value _ _ rest).1 in
    let of_method =
      is_valid_optional_enum_field-value (lookup "method" raw) _ exception_methods choices.0 in
    let of_type =
      is_valid_optional_enum_field-value (lookup "exceptionType" raw) _ allowed choices.1 in
    record {
      of_method = rw m of_method;
      of_type = rw t of_type;
      rerun = λ e. rw m (rerun_of method type fine (sym t ∙ e));
    }
