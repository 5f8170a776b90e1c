-- ===== src/Exceptions/Registry.antt =====
-- The validation of one entry and of a whole registry, and what `recordFieldValue` reads of a record
-- (checks/exception-record.ts).
use internal_package_contrac.Shared.{
  ℕ, suc, String, Bool, true, Option, none, some, List, [], ◌∷◌, ◌++◌, template, ◌===◌, string_Eq,
  if◌then◌else◌,
}
use internal_package_contrac.Shared.Dicts.{contains, get, set}
use internal_package_contrac.Shared.Json.{
  Json, array, object, Items, no_items, item, Fields, lookup, string_of, quoted,
}
use internal_package_contrac.Exceptions.{
  RecordVersion, v1, ExceptionRecord, Checked, ExceptionRegistrySchema, v2_field_keys, place,
  version_of, allowed_keys, unknown_keys, id_of, unknown_problem, id_problem, version_problem,
  justification_problem, validate_known,
}

-- What is pushed before the registry's own fields are looked at.
abbrev pub core_problems : ExceptionRegistrySchema → Fields → ℕ → List String
core_problems schema entry index =
    let version = version_of (lookup "version" entry) in
    let allowed = allowed_keys schema version in
    unknown_problem index allowed (unknown_keys allowed entry)
    ++ (id_problem index schema.namespace entry (id_of schema.namespace entry)
        ++ (version_problem index entry version
            ++ justification_problem index (string_of (lookup "justification" entry))))

abbrev pub refused : List String → Checked ExceptionRecord
refused messages = record { messages = messages; value = none }

unfoldable pub validate_object : ExceptionRegistrySchema → Fields → ℕ → Checked ExceptionRecord
validate_object schema entry index =
    let version = version_of (lookup "version" entry) in
    let problems = core_problems schema entry index in
    elim (id_of schema.namespace entry) [
      | none ↦ refused problems
      | some id ↦ elim version [
        | none ↦ refused problems
        | some known ↦ elim (string_of (lookup "justification" entry)) [
          | none ↦ refused problems
          | some justification ↦ elim (unknown_keys (allowed_keys schema (some known)) entry) [
            | key ∷ keys ↦ refused problems
            | [] ↦ validate_known schema known id justification entry index
          ]
        ]
      ]
    ]

unfoldable pub validate_one : ExceptionRegistrySchema → ℕ → Json → Checked ExceptionRecord
validate_one schema index (object entry) = validate_object schema entry index
validate_one schema index _ = refused (template (place index ∷ " must be an object." ∷ []) ∷ [])

-- The three variables of the loop.
pub record Progress : Type 0 where
  pub errors : List String
  pub records : List ExceptionRecord
  pub seen : List (String × ℕ)

abbrev reuse : ℕ → String → ℕ → String
reuse index id first =
    template
      (place index ∷ " reuses the id " ∷ quoted id ∷ " already held by " ∷ place first ∷ "." ∷ [])

-- The rest of an iteration, once the entry is validated.
unfoldable pub accept : ℕ → Checked ExceptionRecord → Progress → Progress
accept index c p = elim c.value [
  | none ↦ record { errors = p.errors ++ c.messages; records = p.records; seen = p.seen }
  | some r ↦ elim (get r.id p.seen) [
    | some first ↦ record {
      errors = (p.errors ++ c.messages) ++ reuse index r.id first ∷ [];
      records = p.records;
      seen = p.seen;
    }
    | none ↦ record {
      errors = p.errors ++ c.messages;
      records = p.records ++ r ∷ [];
      seen = set r.id index p.seen;
    }
  ]
]

unfoldable pub validate_items : ExceptionRegistrySchema → ℕ → Items → Progress → Progress
validate_items schema index no_items p = p
validate_items schema index (item entry entries) p =
    validate_items schema (suc index) entries (accept index (validate_one schema index entry) p)

pub data RegistryResult : Type 0 where
  accepted : List ExceptionRecord → RegistryResult
  rejected : List String → RegistryResult

abbrev pub judged : Progress → RegistryResult
judged p = elim p.errors [ [] ↦ accepted p.records | e ∷ es ↦ rejected (e ∷ es) ]

unfoldable pub validate_exception_registry : ExceptionRegistrySchema → Json → RegistryResult
validate_exception_registry schema (array entries) =
    judged (validate_items schema 0 entries (record { errors = []; records = []; seen = [] }))
validate_exception_registry schema _ =
    rejected ("An exception registry's \"exceptions\" must be a JSON array of records." ∷ [])

abbrev pub legacy_field_value : String
legacy_field_value = "(legacy version 1 record)"

-- `flat[requirement]`, where it is a text.
abbrev pub field_text : ExceptionRecord → String → Option String
field_text r requirement =
    if requirement === "id"
    then some r.id
    else if requirement === "version"
    then none
    else get requirement r.fields

abbrev pub legacy_value : RecordVersion → Bool → String
legacy_value v1 true = legacy_field_value
legacy_value _ _ = ""

unfoldable pub record_field_value : ExceptionRecord → String → String
record_field_value r requirement = elim (field_text r requirement) [
  | some value ↦ value
  | none ↦ legacy_value r.version (contains requirement v2_field_keys)
]
