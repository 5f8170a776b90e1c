-- ===== src/Exceptions/Settled.antt =====
-- A validator either accepts and is silent, or refuses and says why.
use internal_package_contrac.Shared.{
  ℕ, String, none, some, List, [], ◌∷◌, ◌++◌, ◌≡◌, ◌≢◌, ◌⊎◌, inl, inr, refl, arith, Option-cases,
  append-eq-nil,
}
use internal_package_contrac.Shared.Json.{Json, object, Fields, lookup, string_of}
use internal_package_contrac.Exceptions.{
  RecordVersion, v1, v2, ExceptionRecord, Checked, ExceptionRegistrySchema, v2_field_keys,
  text_problems, text_problem, text_fields, expires_field, validate_v2_fields, validate_known,
  v2_checked, version_of, allowed_keys, unknown_keys, id_of, unknown_problem, id_problem,
  version_problem, justification_problem, version_of,
}
use internal_package_contrac.Exceptions.Registry.{
  validate_object, validate_one, core_problems, refused,
}

abbrev pub IsSettled {ℓ} : {A : Type ℓ} → Checked A → Type ℓ
IsSettled {A = A} c =
    ((c.messages ≡ []) × ((a : A) × (c.value ≡ some a))) ⊎ ((c.messages ≢ []) × (c.value ≡ none))

pub append-ne_nil_left {ℓ} : {A : Type ℓ} (xs ys : List A) → xs ≢ [] → xs ++ ys ≢ []
append-ne_nil_left [] ys h e = h refl
append-ne_nil_left (x ∷ xs) ys h e = cc

pub append-ne_nil_right {ℓ} : {A : Type ℓ} (xs ys : List A) → ys ≢ [] → xs ++ ys ≢ []
append-ne_nil_right [] ys h e = h e
append-ne_nil_right (x ∷ xs) ys h e = cc

pub List-cases {ℓ} :
    {A : Type ℓ} (xs : List A) → (xs ≡ []) ⊎ ((x : A) × (ys : List A) × (xs ≡ x ∷ ys))
List-cases [] = inl refl
List-cases (x ∷ xs) = inr (x, xs, refl)

text_fields-settled :
    (entry : Fields) (index : ℕ) (keys : List String)
    → ((text_problems entry index keys ≡ [])
        × ((fields : List (String × String)) × (text_fields entry keys ≡ some fields)))
      ⊎ ((text_problems entry index keys ≢ []) × (text_fields entry keys ≡ none))
unfolding text_problems text_fields
text_fields-settled entry index [] = inl (refl, ([], refl))
text_fields-settled entry index (key ∷ keys) = elim (Option-cases (string_of (lookup key entry))) [
  | inl missing ↦ inr (
    append-ne_nil_left (text_problem entry index key) _ (rw (missing, text_problem) (λ e. cc)),
    rw (missing, text_fields) refl,
  )
  | inr (s, e) ↦ elim (text_fields-settled entry index keys) [
    | inl (quiet, (fields, there)) ↦
        inl (ground (arith, e, quiet), ((key, s) ∷ fields, rw (e, there, text_fields) refl))
    | inr (loud, absent) ↦ inr (ground (arith, e, loud), rw (e, absent, text_fields) refl)
  ]
]

validate_v2_fields-IsSettled :
    (entry : Fields) (index : ℕ) → IsSettled (validate_v2_fields entry index)
unfolding validate_v2_fields
validate_v2_fields-IsSettled entry index = elim (Option-cases (expires_field entry)) [
  | inl missing ↦
      rw (missing, validate_v2_fields)
        (inr (append-ne_nil_right (text_problems entry index v2_field_keys) _ (λ e. cc), refl))
  | inr (expires, e) ↦ elim (text_fields-settled entry index v2_field_keys) [
    | inl (quiet, (fields, there)) ↦
        rw (e, there, quiet, validate_v2_fields)
          (inl (refl, (fields ++ ("expires", expires) ∷ [], refl)))
    | inr (loud, absent) ↦ rw (e, absent, validate_v2_fields) (inr (loud, refl))
  ]
]

v2_checked-IsSettled :
    (c : Checked (List (String × String))) (rest : Checked ExceptionRecord)
    → IsSettled c
    → IsSettled rest
    → IsSettled (v2_checked c rest)
v2_checked-IsSettled c rest (inl (quiet, (fields, there))) (inl (silent, (r, e))) =
    rw (there, quiet, silent, e) (inl (refl, (_, refl)))
v2_checked-IsSettled c rest (inl (quiet, (fields, there))) (inr (loud, e)) =
    rw (there, quiet, e) (inr (loud, refl))
v2_checked-IsSettled c rest (inr (loud, absent)) h = rw absent (inr (loud, refl))

-- A schema whose own validator is settled on every entry.
abbrev pub IsSettledSchema : ExceptionRegistrySchema → Type 0
IsSettledSchema schema =
    (id justification : String) (entry : Fields) (index : ℕ)
    → IsSettled (schema.validate_record id justification entry index)

module _ (schema : ExceptionRegistrySchema) (settled : IsSettledSchema schema) where
  validate_known-IsSettled :
      (version : RecordVersion) (id justification : String) (entry : Fields) (index : ℕ)
      → IsSettled (validate_known schema version id justification entry index)
  unfolding validate_known
  validate_known-IsSettled v1 id justification entry index = settled id justification entry index
  validate_known-IsSettled v2 id justification entry index =
      v2_checked-IsSettled (validate_v2_fields entry index)
        (schema.validate_record id justification entry index)
        (validate_v2_fields-IsSettled entry index) (settled id justification entry index)

  abbrev Passes : Fields → ℕ → Type 0
  Passes entry index =
      (unknown_problem index (allowed_keys schema (version_of (lookup "version" entry)))
          (unknown_keys (allowed_keys schema (version_of (lookup "version" entry))) entry)
        ≡ [])
      × (id_problem index schema.namespace entry (id_of schema.namespace entry) ≡ [])
      × (version_problem index entry (version_of (lookup "version" entry)) ≡ [])
      × (justification_problem index (string_of (lookup "justification" entry)) ≡ [])

  quiet-Passes :
      (entry : Fields) (index : ℕ) → core_problems schema entry index ≡ [] → Passes entry index
  quiet-Passes entry index h =
      let (u, rest) = (append-eq-nil _ _).0 h in
      let (i, more) = (append-eq-nil _ _).0 rest in
      let (v, j) = (append-eq-nil _ _).0 more in (u, i, v, j)

  refused-IsSettled :
      (entry : Fields) (index : ℕ)
      → ¬ Passes entry index
      → IsSettled (refused (core_problems schema entry index))
  refused-IsSettled entry index h = inr (λ e. h (quiet-Passes entry index e), refl)

  validate_object-IsSettled :
      (entry : Fields) (index : ℕ) → IsSettled (validate_object schema entry index)
  unfolding validate_object
  validate_object-IsSettled entry index =
      let version = version_of (lookup "version" entry) in
      elim (Option-cases (id_of schema.namespace entry)) [
        | inl no_id ↦
            rw (no_id, validate_object) (refused-IsSettled entry index (λ p. cc (rw no_id at p.1)))
        | inr (id, e) ↦ elim (Option-cases version) [
          | inl no_version ↦
              rw (e, no_version, validate_object)
                (refused-IsSettled entry index (λ p. cc (rw no_version at p.2)))
          | inr (known, v) ↦ elim (Option-cases (string_of (lookup "justification" entry))) [
            | inl no_text ↦
                rw (e, v, no_text, validate_object)
                  (refused-IsSettled entry index (λ p. cc (rw no_text at p.3)))
            | inr (justification, j) ↦
                elim (List-cases (unknown_keys (allowed_keys schema (some known)) entry)) [
                  | inl all_known ↦
                      rw (e, v, j, all_known, validate_object)
                        (validate_known-IsSettled known id justification entry index)
                  | inr (key, keys, u) ↦
                      rw (e, v, j, u, validate_object)
                        (refused-IsSettled entry index (λ p. cc (rw (v, u) at p.0)))
                ]
          ]
        ]
      ]

  pub validate_one-IsSettled :
      (index : ℕ) (entry : Json) → IsSettled (validate_one schema index entry)
  unfolding validate_one
  validate_one-IsSettled index (object entry) = validate_object-IsSettled entry index
  validate_one-IsSettled index _ = inr (λ e. cc, refl)
