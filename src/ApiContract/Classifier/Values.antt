-- ===== src/ApiContract/Classifier/Values.antt =====
-- `compareEnumAndAlias`, `compareProperty` and `compareVariable`
-- (scripts/api-contract/compatibility-classifier.ts).
use mathlib.Core.Option
use internal_package_contrac.Shared.{
  String, ◌&&◌, Option, none, some, List, [], ◌∷◌, ◌++◌, template, ◌===◌, ◌!==◌, bool_Eq, string_Eq,
  option_Eq, if◌then◌else◌,
}
use internal_package_contrac.ApiContract.Evidence.{Compatibility, ChangeKind, ApiContractChange}
use internal_package_contrac.ApiContract.Members.{NormalizedMember}
use internal_package_contrac.ApiContract.Classifier.Changes.{
  AssignabilityDirection, ResolveAssignability, covariant, invariant, Position, property, variable,
  type_alias, change_of, truthy, optional_or_required, compatible_or_breaking,
}

-- What is done only where both sides have a text.
abbrev pub where_both :
    Option String
    → Option String
    → (String → String → List ApiContractChange)
    → List ApiContractChange
where_both none new_text body = []
where_both (some old_text) none body = []
where_both (some old_text) (some new_text) body = body old_text new_text

module _ (baseline_member current_member : NormalizedMember) where
  unfoldable pub compare_enum_member : List ApiContractChange
  compare_enum_member =
      if current_member.kind === "EnumMember"
        && (baseline_member.initializer_excerpt_text !== current_member.initializer_excerpt_text)
      then change_of current_member ChangeKind.enum_member_changed Compatibility.breaking
          (template (
            "Enum member "
            ∷ current_member.scoped_name
            ∷ " changed value from "
            ∷ Option.get_or baseline_member.initializer_excerpt_text "(none)"
            ∷ " to "
            ∷ Option.get_or current_member.initializer_excerpt_text "(none)"
            ∷ "."
            ∷ []))
          ""
        ∷ []
      else []

  unfoldable pub compare_property_optionality : List ApiContractChange
  compare_property_optionality =
      if baseline_member.is_optional !== current_member.is_optional
      then change_of current_member ChangeKind.property_optionality_changed
          (compatible_or_breaking (truthy current_member.is_optional))
          (template (
            "Property "
            ∷ current_member.scoped_name
            ∷ " became "
            ∷ optional_or_required (truthy current_member.is_optional)
            ∷ "."
            ∷ []))
          ""
        ∷ []
      else []

  unfoldable pub compare_property_readonly : List ApiContractChange
  compare_property_readonly =
      if baseline_member.is_readonly !== current_member.is_readonly
      then change_of current_member ChangeKind.property_readonly_changed
          (compatible_or_breaking (truthy current_member.is_readonly))
          (template (
            "Property "
            ∷ current_member.scoped_name
            ∷ " became "
            ∷ (if truthy current_member.is_readonly then "readonly" else "mutable")
            ∷ "."
            ∷ []))
          ""
        ∷ []
      else []

  module _ (resolve : ResolveAssignability) where
    abbrev pub query_at : Position → AssignabilityDirection → Compatibility
    query_at position direction = resolve (record {
      old_canonical_reference = baseline_member.canonical_reference;
      new_canonical_reference = current_member.canonical_reference;
      position = position;
      parameter_index = none;
      direction = direction;
    })

    -- A text that differs, reported with what the callback says of it.
    unfoldable pub compare_text :
        ChangeKind
        → Position
        → AssignabilityDirection
        → String
        → String
        → String
        → String
        → List ApiContractChange
    compare_text kind position direction prefix middle old_text new_text =
        if old_text !== new_text
        then change_of current_member kind (query_at position direction)
            (template (
              prefix ∷ current_member.scoped_name ∷ middle ∷ " changed from `" ∷ old_text ∷ "` to `"
              ∷ new_text ∷ "`." ∷ []))
            ""
          ∷ []
        else []

    abbrev pub readonly_direction : AssignabilityDirection
    readonly_direction = if truthy current_member.is_readonly then covariant else invariant

    unfoldable pub compare_enum_and_alias : List ApiContractChange
    compare_enum_and_alias =
        compare_enum_member
        ++ where_both baseline_member.type_alias_excerpt_text current_member.type_alias_excerpt_text
            (compare_text ChangeKind.type_alias_changed type_alias invariant "Type alias " "")

    unfoldable pub compare_property : List ApiContractChange
    compare_property =
        where_both baseline_member.property_type_excerpt_text
          current_member.property_type_excerpt_text
          λ old_text new_text.
            compare_property_optionality
            ++ (compare_property_readonly
                ++ compare_text ChangeKind.property_type_changed property readonly_direction
                    "Property " "" old_text new_text)

    unfoldable pub compare_variable : List ApiContractChange
    compare_variable =
        where_both baseline_member.variable_type_excerpt_text
          current_member.variable_type_excerpt_text
          (compare_text ChangeKind.property_type_changed variable readonly_direction "Variable " "")
