-- ===== src/Exceptions/Written.antt =====
-- What a requirement on a record's field comes to (`recordFieldValue` of checks/exception-record.ts).
use internal_package_contrac.Shared.{
  String, Bool, true, false, none, some, ◌≡◌, ◌≢◌, ◌⊎◌, inl, inr, refl, List, All, All-weaken,
  Option-cases, string_Eq,
}
use internal_package_contrac.Shared.Dicts.{contains}
use internal_package_contrac.Exceptions.{ExceptionRecord, RecordVersion, v1, v2, v2_field_keys}
use internal_package_contrac.Exceptions.Registry.{record_field_value, field_text, legacy_value}

-- The record has a text for the key, and it is not blank; or it is a record of version 1, which has
-- none, and the key is one of the structured fields that only version 2 has.
abbrev pub IsWritten : ExceptionRecord → String → Type 0
IsWritten r key =
    ((value : String) × (field_text r key ≡ some value) × (value ≢ ""))
    ⊎ ((field_text r key ≡ none) × (r.version ≡ v1) × (contains key v2_field_keys ≡ true))

is_legacy : (v : RecordVersion) (b : Bool) → legacy_value v b ≢ "" → (v ≡ v1) × (b ≡ true)
is_legacy v1 true h = (refl, refl)
is_legacy v1 false h = absurd (h refl)
is_legacy v2 b h = absurd (h refl)

IsWritten-of_value :
    (r : ExceptionRecord) (key : String) → record_field_value r key ≢ "" → IsWritten r key
unfolding record_field_value
IsWritten-of_value r key h = elim (Option-cases (field_text r key)) [
  | inr (value, e) ↦ inl (value, e, rw (e, record_field_value) at h)
  | inl absent ↦
      let (old, structured) =
        is_legacy r.version (contains key v2_field_keys) (rw (absent, record_field_value) at h) in
      inr (absent, old, structured)
]

pub All-IsWritten :
    (r : ExceptionRecord) (keys : List String)
    → All (λ key. record_field_value r key ≢ "") keys
    → All (IsWritten r) keys
All-IsWritten r keys h =
    All-weaken (λ key. record_field_value r key ≢ "") (IsWritten r) keys (IsWritten-of_value r) h
