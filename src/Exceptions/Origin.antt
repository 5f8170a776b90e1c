-- ===== src/Exceptions/Origin.antt =====
-- Where a validated record comes from: the registry's own schema, and for version 2 the structured
-- fields beside it.
use internal_package_contrac.Shared.{
  ℕ, String, true, false, Option, none, some, List, [], ◌∷◌, ◌++◌, ◌≡◌, ◌⊎◌, inl, inr, refl, ◌∙◌,
  string_Eq, ◌===◌, Option-cases, Bool-cases,
}
use internal_package_contrac.Shared.Dicts.{get, set, get-set, contains, keys}
use internal_package_contrac.Shared.Json.{Json, object, Fields, lookup, string_of}
use internal_package_contrac.Exceptions.{
  RecordVersion, v1, v2, ExceptionRecord, Checked, ExceptionRegistrySchema, v2_field_keys,
  v2_all_keys, text_fields, expires_field, validate_v2_fields, validate_known, v2_checked, with_v2,
  spread, version_of, allowed_keys, unknown_keys, id_of, is_in_namespace, in_namespace,
}
use internal_package_contrac.Exceptions.Registry.{validate_object, validate_one}
use internal_package_contrac.Exceptions.Settled.{List-cases}

-- Spreading other fields over a record leaves a field of another name as it was.
pub get-spread :
    (k : String) (fields more : List (String × String))
    → contains k (keys more) ≡ false
    → get k (spread fields more) ≡ get k fields
unfolding spread
get-spread k fields [] h = refl
get-spread k fields ((j, s) ∷ more) h = elim (Bool-cases (j === k)) [
  | inl same ↦ cc (rw same at h)
  | inr other ↦
      get-spread k (set j s fields) more (rw other at h) ∙ rw (get-set j k s fields, other) refl
]

text_fields-keys :
    (entry : Fields) (ks : List String) {fields : List (String × String)}
    → text_fields entry ks ≡ some fields
    → keys fields ≡ ks
unfolding text_fields
text_fields-keys entry [] {fields} h = let e : fields ≡ [] = cc h in rw e refl
text_fields-keys entry (key ∷ ks) {fields} h = elim (Option-cases (string_of (lookup key entry))) [
  | inl missing ↦ cc (rw missing at h)
  | inr (s, e) ↦ elim (Option-cases (text_fields entry ks)) [
    | inl absent ↦ cc (rw (e, absent) at h)
    | inr (rest, there) ↦
        let p : fields ≡ (key, s) ∷ rest = cc (rw (e, there) at h) in
        rw p (cc (text_fields-keys entry ks there))
  ]
]

keys-append :
    (fields : List (String × String)) (key s : String)
    → keys (fields ++ (key, s) ∷ []) ≡ keys fields ++ key ∷ []
keys-append [] key s = refl
keys-append ((j, t) ∷ fields) key s = cc (keys-append fields key s)

validate_v2_fields-keys :
    (entry : Fields) (index : ℕ) {fields : List (String × String)}
    → (validate_v2_fields entry index).value ≡ some fields
    → keys fields ≡ v2_all_keys
unfolding validate_v2_fields
validate_v2_fields-keys entry index {fields} h = elim (Option-cases (expires_field entry)) [
  | inl missing ↦ cc (rw (missing, validate_v2_fields) at h)
  | inr (expires, e) ↦ elim (Option-cases (text_fields entry v2_field_keys)) [
    | inl absent ↦ cc (rw (e, absent, validate_v2_fields) at h)
    | inr (rest, there) ↦
        let p : fields ≡ rest ++ ("expires", expires) ∷ [] =
          cc (rw (e, there, validate_v2_fields) at h) in
        rw (p, keys-append rest "expires" expires, text_fields-keys entry v2_field_keys there) refl
  ]
]

-- The record is the schema's own, or that one with the structured fields of version 2.
abbrev pub IsFrom : ExceptionRecord → ExceptionRecord → Type 0
IsFrom base r =
    (r ≡ base)
    ⊎ ((fields : List (String × String)) × (keys fields ≡ v2_all_keys) × (r ≡ with_v2 fields base))

in_namespace-value :
    (namespace : String) (o : Option String) {id : String}
    → in_namespace namespace o ≡ some id
    → is_in_namespace namespace id ≡ true
in_namespace-value namespace none h = cc
in_namespace-value namespace (some s) {id} h = elim (Bool-cases (is_in_namespace namespace s)) [
  | inl inside ↦ let e : s ≡ id = cc (rw inside at h) in rw e at inside
  | inr outside ↦ cc (rw outside at h)
]

v2_checked-IsFrom :
    (c : Checked (List (String × String))) (rest : Checked ExceptionRecord) {r : ExceptionRecord}
    → ((fields : List (String × String)) → c.value ≡ some fields → keys fields ≡ v2_all_keys)
    → (v2_checked c rest).value ≡ some r
    → (base : ExceptionRecord) × (rest.value ≡ some base) × IsFrom base r
v2_checked-IsFrom c rest {r} all_keys h = elim (Option-cases c.value) [
  | inl missing ↦ cc (rw missing at h)
  | inr (fields, e) ↦ elim (Option-cases rest.value) [
    | inl absent ↦ cc (rw (e, absent) at h)
    | inr (base, there) ↦
        let p : r ≡ with_v2 fields base = cc (rw (e, there) at h) in
        (base, there, inr (fields, all_keys fields e, p))
  ]
]

module _ (schema : ExceptionRegistrySchema) where
  abbrev pub HasOrigin : ℕ → ExceptionRecord → Type 0
  HasOrigin index r =
      (id : String) × (justification : String) × (entry : Fields) × (base : ExceptionRecord)
      × (is_in_namespace schema.namespace id ≡ true)
      × ((schema.validate_record id justification entry index).value ≡ some base)
      × IsFrom base r

  validate_known-IsFrom :
      (version : RecordVersion) (id justification : String) (entry : Fields) (index : ℕ)
      {r : ExceptionRecord}
      → (validate_known schema version id justification entry index).value ≡ some r
      → (base : ExceptionRecord) × ((schema.validate_record id justification entry index).value
          ≡ some base)
        × IsFrom base r
  unfolding validate_known
  validate_known-IsFrom v1 id justification entry index {r} h = (r, h, inl refl)
  validate_known-IsFrom v2 id justification entry index h =
      v2_checked-IsFrom (validate_v2_fields entry index) _
        (λ fields e. validate_v2_fields-keys entry index e) h

  validate_object-HasOrigin :
      (entry : Fields) (index : ℕ) {r : ExceptionRecord}
      → (validate_object schema entry index).value ≡ some r
      → HasOrigin index r
  unfolding validate_object
  validate_object-HasOrigin entry index h = elim (Option-cases (id_of schema.namespace entry)) [
    | inl no_id ↦ cc (rw (no_id, validate_object) at h)
    | inr (id, e) ↦ elim (Option-cases (version_of (lookup "version" entry))) [
      | inl no_version ↦ cc (rw (e, no_version, validate_object) at h)
      | inr (known, v) ↦ elim (Option-cases (string_of (lookup "justification" entry))) [
        | inl no_text ↦ cc (rw (e, v, no_text, validate_object) at h)
        | inr (justification, j) ↦
            elim (List-cases (unknown_keys (allowed_keys schema (some known)) entry)) [
              | inr (key, keys, u) ↦ cc (rw (e, v, j, u, validate_object) at h)
              | inl all_known ↦
                  let (base, there, from) =
                    validate_known-IsFrom known id justification entry index
                      (rw (e, v, j, all_known, validate_object) at h) in
                  (
                    id,
                    justification,
                    entry,
                    base,
                    in_namespace-value schema.namespace _ e,
                    there,
                    from,
                  )
            ]
      ]
    ]
  ]

  pub validate_one-HasOrigin :
      (index : ℕ) (v : Json) {r : ExceptionRecord}
      → (validate_one schema index v).value ≡ some r
      → HasOrigin index r
  unfolding validate_one
  validate_one-HasOrigin index (object entry) h = validate_object-HasOrigin entry index h
  validate_one-HasOrigin index _ h = cc h
