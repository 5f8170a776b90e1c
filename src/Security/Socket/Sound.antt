-- ===== src/Security/Socket/Sound.antt =====
-- The records of a registry of Socket alerts that is accepted.
use internal_package_contrac.Shared.{
  ℕ, String, false, some, List, ◌≡◌, inl, inr, refl, ◌∙◌, All, string_Eq,
}
use internal_package_contrac.Shared.Dicts.{get, contains, keys}
use internal_package_contrac.Shared.Json.{Json, array, Items, Fields, lookup}
use internal_package_contrac.Exceptions.{ExceptionRecord, v2_all_keys, with_v2, spread}
use internal_package_contrac.Exceptions.Registry.{
  validate_exception_registry, accepted, validate_one,
}
use internal_package_contrac.Exceptions.Settled.{IsSettled, IsSettledSchema}
use internal_package_contrac.Exceptions.Accepted.{
  HasUniqueIds, validate_exception_registry-accepted_iff, Validates-All,
}
use internal_package_contrac.Exceptions.Origin.{get-spread, IsFrom, validate_one-HasOrigin}
use internal_package_contrac.Exceptions.FieldChecks.{
  both-IsSettled, and_then-IsSettled, both-value, and_then-value,
  is_valid_non_empty_string_field-IsSettled, is_valid_optional_enum_field-IsSettled,
}
use internal_package_contrac.Exceptions.Security.{
  SecurityExceptionFields, IsBacked, socket_exception_types,
  validate_security_exception_fields-IsSettled, validate_security_exception_fields-IsBacked,
  derived_record-IsSettled, derived_record-value,
}
use internal_package_contrac.Security.Socket.{
  derive_socket_exception_id, SocketFields, socket_fields, socket_record, socket_exception_schema,
}

socket_fields-IsSettled : (raw : Fields) (index : ℕ) → IsSettled (socket_fields raw index)
unfolding socket_fields
socket_fields-IsSettled raw index =
    both-IsSettled _ _
      (validate_security_exception_fields-IsSettled raw index socket_exception_types)
      (both-IsSettled _ _ (is_valid_non_empty_string_field-IsSettled (lookup "package" raw) _) (
        both-IsSettled _ _
          (is_valid_non_empty_string_field-IsSettled (lookup "packageVersion" raw) _)
          (both-IsSettled _ _ (is_valid_non_empty_string_field-IsSettled (lookup "type" raw) _)
            (is_valid_optional_enum_field-IsSettled (lookup "severity" raw) _ _))))

pub socket_exception_schema-IsSettled : IsSettledSchema socket_exception_schema
socket_exception_schema-IsSettled id justification raw index =
    and_then-IsSettled (socket_fields raw index) (socket_record id justification index)
      (socket_fields-IsSettled raw index)
      (λ f. derived_record-IsSettled _ _ id justification index _)

-- A record whose id is the one of its own package, version and type, and whose claim is backed.
pub record IsSocketRecord (r : ExceptionRecord) : Type 0 where
  pub package_name : String
  pub package_version : String
  pub type : String
  pub security : SecurityExceptionFields
  pub derived : r.id ≡ derive_socket_exception_id package_name package_version type
  pub of_package : get "package" r.fields ≡ some package_name
  pub of_version : get "packageVersion" r.fields ≡ some package_version
  pub of_type : get "type" r.fields ≡ some type
  pub of_method : get "method" r.fields ≡ some security.method
  pub of_exception_type : get "exceptionType" r.fields ≡ some security.exception_type
  pub backed : IsBacked socket_exception_types security

socket_record-IsSocketRecord :
    (id justification : String) (index : ℕ) (f : SocketFields) {r : ExceptionRecord}
    → IsBacked socket_exception_types f.0
    → (socket_record id justification index f).value ≡ some r
    → IsSocketRecord r
unfolding get
socket_record-IsSocketRecord id justification index
      (security, (package_name, (version, (type, severity)))) b h =
    let (e, fs) = derived_record-value _ _ id justification index _ h in
    record {
      package_name = package_name;
      package_version = version;
      type = type;
      security = security;
      derived = e;
      of_package = rw fs refl;
      of_version = rw fs refl;
      of_type = rw fs refl;
      of_method = rw fs refl;
      of_exception_type = rw fs refl;
      backed = b;
    }

with_v2-IsSocketRecord :
    (base : ExceptionRecord) (fields : List (String × String))
    → keys fields ≡ v2_all_keys
    → IsSocketRecord base
    → IsSocketRecord (with_v2 fields base)
with_v2-IsSocketRecord base fields all_keys s =
    let other : (k : String)
        → contains k v2_all_keys ≡ false
        → get k (spread base.fields fields) ≡ get k base.fields =
      λ k h. get-spread k base.fields fields (rw all_keys h) in
    record {
      package_name = s.package_name;
      package_version = s.package_version;
      type = s.type;
      security = s.security;
      derived = s.derived;
      of_package = other "package" refl ∙ s.of_package;
      of_version = other "packageVersion" refl ∙ s.of_version;
      of_type = other "type" refl ∙ s.of_type;
      of_method = other "method" refl ∙ s.of_method;
      of_exception_type = other "exceptionType" refl ∙ s.of_exception_type;
      backed = s.backed;
    }

IsFrom-IsSocketRecord :
    (base r : ExceptionRecord) → IsFrom base r → IsSocketRecord base → IsSocketRecord r
IsFrom-IsSocketRecord base r (inl same) s = rw same s
IsFrom-IsSocketRecord base r (inr (fields, all_keys, e)) s =
    rw e (with_v2-IsSocketRecord base fields all_keys s)

validate_one-IsSocketRecord :
    (index : ℕ) (v : Json) (r : ExceptionRecord)
    → (validate_one socket_exception_schema index v).value ≡ some r
    → IsSocketRecord r
unfolding socket_fields
validate_one-IsSocketRecord index v r h =
    let (id, justification, raw, base, _, there, from) =
      validate_one-HasOrigin socket_exception_schema index v h in
    let (f, valid, made) =
      and_then-value (socket_fields raw index) (socket_record id justification index) there in
    IsFrom-IsSocketRecord base r from (
      socket_record-IsSocketRecord id justification index f
        (validate_security_exception_fields-IsBacked raw index socket_exception_types
          (both-value _ _ valid).0)
        made)

-- In a registry of Socket alerts that is accepted no id stands twice, and each record has the id of
-- its own package, version and alert type, its method and type of exception are blank or known to
-- this check, and where it claims a false positive and names a method, that is the mechanical re-run.
pub validate_exception_registry-IsSocketRecord :
    (entries : Items) (rs : List ExceptionRecord)
    → validate_exception_registry socket_exception_schema (array entries) ≡ accepted rs
    → All IsSocketRecord rs × HasUniqueIds rs
validate_exception_registry-IsSocketRecord entries rs h =
    let (valid, unique) =
      (validate_exception_registry-accepted_iff socket_exception_schema
          socket_exception_schema-IsSettled entries rs).0
        h in
    (
      Validates-All socket_exception_schema IsSocketRecord validate_one-IsSocketRecord 0 entries rs
          valid,
      unique,
    )
