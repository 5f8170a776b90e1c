-- ===== src/Exceptions.antt =====
-- The registries of exceptions (checks/exception-record.ts): what a record is, and the validation
-- that every registry shares. A record is the flat object that the schemas build: its id, its
-- version, and its other fields, all texts, in the order in which they were set. What a function
-- pushes onto `errors` is the `messages` that it returns, in that order.
pub mod Registry
pub mod Written
pub mod Settled
pub mod Accepted
pub mod FieldChecks
pub mod Security
pub mod Findings
pub mod Evaluation
pub mod Origin
pub mod Active
pub mod Environment
mod Tests
use internal_package_contrac.Shared.{
  ℕ, suc, String, Bool, true, false, ◌&&◌, ◌||◌, Option, none, some, List, [], ◌∷◌, ◌++◌, map,
  filter, length, template, join, ◌===◌, ◌!==◌, string_Eq, nat_Eq, if◌then◌else◌, negate, ltb,
}
use internal_package_contrac.Shared.Dicts.{contains, set_of, get, set}
use internal_package_contrac.Shared.CodeUnits.{text_le, code_units}
use internal_package_contrac.Shared.Decimals.{decimal}
use internal_package_contrac.Shared.Json.{
  Json, number, array, object, Items, no_items, item, Fields, lookup, field_names, string_of,
  quoted, shown,
}
use internal_package_contrac.Shared.Regex.{starts_with}
use internal_package_contrac.Adoption.{date_pattern}

abbrev pub v2_field_keys : List String
v2_field_keys =
    "ruleBroken" ∷ "attempted" ∷ "constraint" ∷ "whyPreferable" ∷ "residualRisk" ∷ "revisitWhen"
    ∷ []

abbrev pub v2_all_keys : List String
v2_all_keys = v2_field_keys ++ "expires" ∷ []

pub data RecordVersion : Type 0 where
  v1 v2 : RecordVersion

pub record ExceptionRecord : Type 0 where
  pub id : String
  pub version : RecordVersion
  pub fields : List (String × String)

abbrev blank : String → String × String
blank key = (key, "")

abbrev pub empty_v2_fields : List (String × String)
empty_v2_fields = map blank v2_all_keys

abbrev pub is_legacy : RecordVersion → Bool
is_legacy v1 = true
is_legacy v2 = false

abbrev is_some {ℓ} : {A : Type ℓ} → Option A → Bool
is_some none = false
is_some (some a) = true

-- `ISO_DATE`
unfoldable pub is_iso_date : String → Bool
is_iso_date s = is_some (date_pattern s)

-- `today` is the date of the clock, `now.toISOString().slice(0, 10)`.
unfoldable pub is_expired : String → String → Bool
is_expired expires today =
    if negate (is_iso_date expires) then false else negate (text_le today expires)

-- What a validator pushes, and what it returns.
pub record Checked {ℓ} (A : Type ℓ) : Type ℓ where
  pub messages : List String
  pub value : Option A

-- `exceptions[<index>]`
abbrev pub place : ℕ → String
place index = template ("exceptions[" ∷ decimal index ∷ "]" ∷ [])

abbrev text_problem : Fields → ℕ → String → List String
text_problem entry index key = elim (string_of (lookup key entry)) [
  | none ↦
      template (place index ∷ "." ∷ key ∷ " must be a string (a version 2 record carries it)." ∷ [])
      ∷ []
  | some s ↦ []
]

unfoldable pub text_problems : Fields → ℕ → List String → List String
text_problems entry index [] = []
text_problems entry index (key ∷ keys) =
    text_problem entry index key ++ text_problems entry index keys

-- The fields of these names, where all of them are texts.
abbrev put :
    String → Option String → Option (List (String × String)) → Option (List (String × String))
put key (some s) (some rest) = some ((key, s) ∷ rest)
put key _ _ = none

unfoldable pub text_fields : Fields → List String → Option (List (String × String))
text_fields entry [] = some []
text_fields entry (key ∷ keys) = put key (string_of (lookup key entry)) (text_fields entry keys)

abbrev is_date_or_blank : String → Bool
is_date_or_blank s = negate (s !== "" && negate (is_iso_date s))

-- `expires`, where it is blank or a date.
unfoldable pub expires_field : Fields → Option String
expires_field entry = elim (string_of (lookup "expires" entry)) [
  | none ↦ none
  | some s ↦ if is_date_or_blank s then some s else none
]

unfoldable pub validate_v2_fields : Fields → ℕ → Checked (List (String × String))
validate_v2_fields entry index = elim (expires_field entry) [
  | none ↦ record {
    messages =
        text_problems entry index v2_field_keys
        ++ template (
            place index
            ∷ ".expires must be \"\" or a YYYY-MM-DD date (got "
            ∷ shown (lookup "expires" entry)
            ∷ ")."
            ∷ [])
          ∷ [];
    value = none;
  }
  | some expires ↦ record {
    messages = text_problems entry index v2_field_keys;
    value = elim (text_fields entry v2_field_keys) [
      | none ↦ none
      | some fields ↦ some (fields ++ ("expires", expires) ∷ [])
    ];
  }
]

-- What a registry adds to the shared validation; `validate_record` takes the id, the justification,
-- the entry and its index.
pub record ExceptionRegistrySchema : Type 0 where
  pub namespace : String
  pub metadata_keys : List String
  pub validate_record : String → String → Fields → ℕ → Checked ExceptionRecord

abbrev is_number : String → Option Json → Bool
is_number n (some (number m)) = m === n
is_number n _ = false

-- `version === 1 || version === 2`, and which.
abbrev pub version_of : Option Json → Option RecordVersion
version_of v = if is_number "1" v then some v1 else if is_number "2" v then some v2 else none

unfoldable pub allowed_keys : ExceptionRegistrySchema → Option RecordVersion → List String
allowed_keys schema (some v2) =
    set_of ("id" ∷ "version" ∷ "justification" ∷ (schema.metadata_keys ++ v2_all_keys))
allowed_keys schema _ = set_of ("id" ∷ "version" ∷ "justification" ∷ schema.metadata_keys)

abbrev pub unknown_keys : List String → Fields → List String
unknown_keys allowed entry = filter (λ key. negate (contains key allowed)) (field_names entry)

-- A text in the namespace that has something behind it.
unfoldable pub is_in_namespace : String → String → Bool
is_in_namespace namespace id =
    starts_with id namespace && ltb (length (code_units namespace)) (length (code_units id))

abbrev in_namespace : String → Option String → Option String
in_namespace namespace none = none
in_namespace namespace (some id) = if is_in_namespace namespace id then some id else none

-- The valid id of an entry.
abbrev pub id_of : String → Fields → Option String
id_of namespace entry = in_namespace namespace (string_of (lookup "id" entry))

abbrev unknown_problem : ℕ → List String → List String → List String
unknown_problem index allowed [] = []
unknown_problem index allowed (key ∷ keys) =
    template (
      place index
      ∷ " has unrecognized field(s) "
      ∷ join ", " (map quoted (key ∷ keys))
      ∷ " -- only "
      ∷ join ", " (map quoted allowed)
      ∷ " are permitted."
      ∷ [])
    ∷ []

abbrev id_problem : ℕ → String → Fields → Option String → List String
id_problem index namespace entry (some id) = []
id_problem index namespace entry none =
    template (
      place index
      ∷ ".id must be a non-empty string beginning with "
      ∷ quoted namespace
      ∷ " (got "
      ∷ shown (lookup "id" entry)
      ∷ ")."
      ∷ [])
    ∷ []

abbrev version_problem : ℕ → Fields → Option RecordVersion → List String
version_problem index entry (some version) = []
version_problem index entry none =
    template (
      place index
      ∷ ".version must be the number 2 (or the legacy 1) (got "
      ∷ shown (lookup "version" entry)
      ∷ ")."
      ∷ [])
    ∷ []

abbrev justification_problem : ℕ → Option String → List String
justification_problem index (some s) = []
justification_problem index none =
    template (place index ∷ ".justification must be a string." ∷ []) ∷ []

-- `{ ...fields, ...more }`
unfoldable pub spread : List (String × String) → List (String × String) → List (String × String)
spread fields [] = fields
spread fields ((key, s) ∷ more) = spread (set key s fields) more

-- `{ ...record, version: 2, ...fields }`
abbrev pub with_v2 : List (String × String) → ExceptionRecord → ExceptionRecord
with_v2 fields r = record { id = r.id; version = v2; fields = spread r.fields fields }

abbrev v2_checked :
    Checked (List (String × String)) → Checked ExceptionRecord → Checked ExceptionRecord
v2_checked c rest = elim c.value [
  | none ↦ record { messages = c.messages; value = none }
  | some fields ↦ record {
    messages = c.messages ++ rest.messages;
    value = elim rest.value [ none ↦ none | some r ↦ some (with_v2 fields r) ];
  }
]

-- An entry whose own keys, id, version and justification are valid.
unfoldable pub validate_known :
    ExceptionRegistrySchema → RecordVersion → String → String → Fields → ℕ → Checked ExceptionRecord
validate_known schema v1 id justification entry index =
    schema.validate_record id justification entry index
validate_known schema v2 id justification entry index =
    v2_checked (validate_v2_fields entry index)
      (schema.validate_record id justification entry index)
