-- ===== src/ApiContract/Drift.antt =====
-- The separate pass over schema version literals (scripts/api-contract/schema-version-consistency.ts).
-- `id_le a b` stands for `a.localeCompare(b) <= 0`.
pub mod Moved
use mathlib.Core.Option
use Prim.Native.Char.{Char, code}
use internal_package_contrac.Shared.{
  ℕ, ◌+◌, String, Bool, true, false, ◌&&◌, ◌||◌, Option, none, some, List, [], ◌∷◌, ◌++◌, filter,
  find?, length, template, ◌===◌, ◌!==◌, string_Eq, nat_Eq, bool_Eq, option_Eq, list_Eq,
  if◌then◌else◌, negate,
}
use internal_package_contrac.Shared.Dicts.{get, set, keys, contains}
use internal_package_contrac.Shared.Decimals.{decimal}
use internal_package_contrac.Shared.Regex.{is_digit, one, optional, plus, star, at_end, or_else}
use internal_package_contrac.Shared.Sorting.{sort}
use internal_package_contrac.ApiContract.Evidence.{
  ApiContractChange, schema_version_literal_stale, Compatibility,
}
use internal_package_contrac.ApiContract.Members.{NormalizedParameter, NormalizedMember}
use internal_package_contrac.ApiContract.Classifier.Changes.{tag_Eq}
use internal_package_contrac.ApiContract.Classifier.Classify.{Members, change_le}

abbrev is_char : ℕ → Char → Bool
is_char n c = code c === n

abbrev is_not_char : ℕ → Char → Bool
is_not_char n c = code c !== n

-- `LITERAL_TYPE_PATTERN`
unfoldable pub is_literal_type : String → Bool
is_literal_type s =
    let quoted_by : ℕ → Option (Unit {0}) =
      λ mark. one (is_char mark) (star (is_not_char mark) λ _. one (is_char mark) (at_end tt)) s in
    elim (or_else (optional (is_char b'-') (plus is_digit λ _. at_end tt) s)
      (or_else (quoted_by 34) (quoted_by 39))) [ none ↦ false | some _ ↦ true ]

abbrev has_literal_type : Option String → Bool
has_literal_type none = false
has_literal_type (some excerpt) = is_literal_type excerpt

unfoldable pub is_version_literal_member : NormalizedMember → Bool
is_version_literal_member member =
    member.name === some "version" && has_literal_type member.property_type_excerpt_text

abbrev values : Members → List NormalizedMember
values [] = []
values ((reference, member) ∷ members) = member ∷ values members

abbrev pub children_of : Members → String → List NormalizedMember
children_of members parent =
    filter (λ m. m.parent_canonical_reference === some parent) (values members)

abbrev parameter_eq : NormalizedParameter → NormalizedParameter → Bool
parameter_eq a b =
    a.name === b.name
    && a.is_optional === b.is_optional
    && a.type_excerpt_text === b.type_excerpt_text

abbrev parameters_eq : List NormalizedParameter → List NormalizedParameter → Bool
parameters_eq [] [] = true
parameters_eq [] (b ∷ bs) = false
parameters_eq (a ∷ rest) [] = false
parameters_eq (a ∷ rest) (b ∷ bs) = parameter_eq a b && parameters_eq rest bs

abbrev maybe_parameters_eq :
    Option (List NormalizedParameter) → Option (List NormalizedParameter) → Bool
maybe_parameters_eq none none = true
maybe_parameters_eq none (some bs) = false
maybe_parameters_eq (some ps) none = false
maybe_parameters_eq (some ps) (some bs) = parameters_eq ps bs

-- The JSON texts of two members without `fileUrlPath` are equal exactly if their other fields are.
unfoldable pub members_equal : NormalizedMember → NormalizedMember → Bool
members_equal a b =
    a.canonical_reference === b.canonical_reference
    && a.name === b.name
    && a.scoped_name === b.scoped_name
    && a.kind === b.kind
    && a.parent_canonical_reference === b.parent_canonical_reference
    && a.is_top_level_export === b.is_top_level_export
    && a.release_tag === b.release_tag
    && a.is_deprecated === b.is_deprecated
    && a.is_exported === b.is_exported
    && maybe_parameters_eq a.parameters b.parameters
    && a.return_type_excerpt_text === b.return_type_excerpt_text
    && a.property_type_excerpt_text === b.property_type_excerpt_text
    && a.is_optional === b.is_optional
    && a.is_readonly === b.is_readonly
    && a.overload_index === b.overload_index
    && a.type_parameter_names === b.type_parameter_names
    && a.extends_excerpt_texts === b.extends_excerpt_texts
    && a.implements_excerpt_texts === b.implements_excerpt_texts
    && a.initializer_excerpt_text === b.initializer_excerpt_text
    && a.type_alias_excerpt_text === b.type_alias_excerpt_text
    && a.variable_type_excerpt_text === b.variable_type_excerpt_text

-- `new Map(members.map((m) => [m.canonicalReference, m]))`
unfoldable pub by_reference : Members → List NormalizedMember → Members
by_reference so_far [] = so_far
by_reference so_far (m ∷ members) = by_reference (set m.canonical_reference m so_far) members

abbrev pub others : NormalizedMember → List NormalizedMember → List NormalizedMember
others version members = filter (λ m. m.canonical_reference !== version.canonical_reference) members

abbrev has_changed : Members → String × NormalizedMember → Bool
has_changed before (reference, member) = elim (get reference before) [
  | none ↦ false
  | some previous ↦ negate (members_equal previous member)
]

-- How many members were added, removed and changed.
unfoldable pub shape_changes : Members → Members → ℕ
shape_changes before after =
    length (filter (λ reference. negate (contains reference (keys before))) (keys after))
    + length (filter (λ reference. negate (contains reference (keys after))) (keys before))
    + length (filter (has_changed before) after)

abbrev in_file : Option String → String
in_file none = ""
in_file (some path) = if path === "" then "" else template (" in " ∷ path ∷ [])

abbrev excerpt_or : Option String → String
excerpt_or none = "undefined"
excerpt_or (some excerpt) = excerpt

unfoldable pub stale_change : String → NormalizedMember → NormalizedMember → ℕ → ApiContractChange
stale_change reference interface version count = record {
  id = template (reference ∷ "#schema-version-literal" ∷ []);
  path = interface.scoped_name;
  kind = schema_version_literal_stale;
  compatibility = Compatibility.breaking;
  explanation = template (
      interface.scoped_name
      ∷ in_file interface.file_url_path
      ∷ " changed shape ("
      ∷ decimal count
      ∷ " member(s) added/removed/changed) but its `version` literal is still "
      ∷ excerpt_or version.property_type_excerpt_text
      ∷ " -- bump it to reflect the new schema shape."
      ∷ []);
}

-- The comparison of one interface's members, on both sides.
unfoldable pub compare_versioned :
    String
    → NormalizedMember
    → List NormalizedMember
    → List NormalizedMember
    → List ApiContractChange
unfolding by_reference
compare_versioned reference interface before after = elim (find? is_version_literal_member after) [
  | none ↦ []
  | some now ↦ elim (find? is_version_literal_member before) [
    | none ↦ []
    | some was ↦
        let count =
          shape_changes (by_reference [] (others was before))
            (by_reference [] (others now after)) in
        if now.property_type_excerpt_text !== was.property_type_excerpt_text || count === 0
        then []
        else stale_change reference interface now count ∷ []
  ]
]

unfoldable pub interface_drift :
    Members → Members → String × NormalizedMember → List ApiContractChange
interface_drift baseline current (reference, interface) =
    if interface.kind !== "Interface" then [] else elim (get reference baseline) [
      | none ↦ []
      | some was ↦
          if was.kind !== "Interface"
          then []
          else compare_versioned reference interface (children_of baseline reference)
              (children_of current reference)
    ]

unfoldable pub drift_of : Members → Members → Members → List ApiContractChange
drift_of baseline current [] = []
drift_of baseline current (entry ∷ entries) =
    interface_drift baseline current entry ++ drift_of baseline current entries

unfoldable pub detect_schema_version_drift :
    (String → String → Bool) → Members → Members → List ApiContractChange
detect_schema_version_drift id_le baseline current =
    sort (change_le id_le) (drift_of baseline current current)
