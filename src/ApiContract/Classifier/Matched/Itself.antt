-- ===== src/ApiContract/Classifier/Matched/Itself.antt =====
-- A member compared with itself (scripts/api-contract/compatibility-classifier.ts).
use mathlib.Core.Option
use internal_package_contrac.Shared.{
  ℕ, suc, String, Option, none, some, List, [], ◌∷◌, ◌≡◌, refl, same_refl, drop, get_elem?-drop,
  drop-length, Bool-cases, inl, inr, list_Eq, option_Eq, string_Eq, bool_Eq, ◌===◌,
}
use internal_package_contrac.Shared.Sorting.{sort}
use internal_package_contrac.Shared.CodeUnits.{text_le}
use internal_package_contrac.ApiContract.Evidence.{ChangeKind, ApiContractChange}
use internal_package_contrac.ApiContract.Members.{NormalizedMember, NormalizedParameter}
use internal_package_contrac.ApiContract.Classifier.Changes.{
  AssignabilityDirection, Position, ResolveAssignability, tag_Eq,
}
use internal_package_contrac.ApiContract.Classifier.Parameters.{
  compare_parameter, compare_new, removed_from, compare_parameters,
}
use internal_package_contrac.ApiContract.Classifier.Metadata.{
  compare_release_tag, compare_deprecation, compare_type_parameters, compare_heritage,
  compare_metadata,
}
use internal_package_contrac.ApiContract.Classifier.Values.{
  where_both, compare_enum_member, compare_property_optionality, compare_property_readonly,
  compare_text, compare_enum_and_alias, compare_property, compare_variable,
}
use internal_package_contrac.ApiContract.Classifier.Matched.{
  compare_parameter_lists, compare_signature, compare_matched_member,
}

where_both_same :
    (o : Option String) (body : String → String → List ApiContractChange)
    → ((t : String) → body t t ≡ [])
    → where_both o o body ≡ []
where_both_same none body h = refl
where_both_same (some t) body h = h t

module _ (m : NormalizedMember) where
  compare_metadata_itself : compare_metadata m m ≡ []
  unfolding compare_metadata compare_release_tag compare_deprecation compare_type_parameters
      compare_heritage
  compare_metadata_itself = simp (
    same_refl m.release_tag,
    same_refl m.is_deprecated,
    same_refl (Option.get_or m.type_parameter_names []),
    same_refl (Option.get_or m.extends_excerpt_texts []),
    same_refl (sort text_le (Option.get_or m.implements_excerpt_texts [])),
  )

  compare_enum_member_itself : compare_enum_member m m ≡ []
  unfolding compare_enum_member
  compare_enum_member_itself = elim (Bool-cases (m.kind === "EnumMember")) [
    | inl e ↦ rw (e, same_refl m.initializer_excerpt_text)
    | inr e ↦ rw e
  ]

  module _ (resolve : ResolveAssignability) where
    compare_text_itself :
        (kind : ChangeKind) (position : Position) (direction : AssignabilityDirection)
        (prefix middle t : String)
        → compare_text m m resolve kind position direction prefix middle t t ≡ []
    unfolding compare_text
    compare_text_itself kind position direction prefix middle t = rw (same_refl t)

    compare_parameter_itself :
        (i : ℕ) (p : NormalizedParameter) → compare_parameter m m resolve i (some p) p ≡ []
    unfolding compare_parameter
    compare_parameter_itself i p = simp (same_refl p.is_optional, same_refl p.type_excerpt_text)

    compare_new_itself :
        (old_params : List NormalizedParameter) (i : ℕ) (new_params : List NormalizedParameter)
        → drop i old_params ≡ new_params
        → compare_new m m resolve old_params i new_params ≡ []
    unfolding compare_new
    compare_new_itself old_params i [] h = refl
    compare_new_itself old_params i (p ∷ ps) h =
        let (here, later) = get_elem?-drop old_params i h in
        rw (here, compare_parameter_itself i p) (compare_new_itself old_params (suc i) ps later)

    compare_parameters_itself :
        (ps : List NormalizedParameter) → compare_parameters m m resolve ps ps ≡ []
    unfolding compare_parameters removed_from
    compare_parameters_itself ps = rw (compare_new_itself ps 0 ps refl, drop-length ps)

    compare_parameter_lists_itself :
        (o : Option (List NormalizedParameter)) → compare_parameter_lists m m resolve o o ≡ []
    unfolding compare_parameter_lists
    compare_parameter_lists_itself none = refl
    compare_parameter_lists_itself (some ps) = compare_parameters_itself ps

    compare_signature_itself : compare_signature m m resolve ≡ []
    unfolding compare_signature
    compare_signature_itself = rw (
      compare_parameter_lists_itself m.parameters,
      where_both_same m.return_type_excerpt_text _ (compare_text_itself _ _ _ _ _),
    )

    compare_property_itself : compare_property m m resolve ≡ []
    unfolding compare_property compare_property_optionality compare_property_readonly
    compare_property_itself = where_both_same m.property_type_excerpt_text _ λ t. simp (
      same_refl m.is_optional,
      same_refl m.is_readonly,
      compare_text_itself ChangeKind.property_type_changed Position.property,
    )

    compare_variable_itself : compare_variable m m resolve ≡ []
    unfolding compare_variable
    compare_variable_itself =
        where_both_same m.variable_type_excerpt_text _ (compare_text_itself _ _ _ _ _)

    compare_enum_and_alias_itself : compare_enum_and_alias m m resolve ≡ []
    unfolding compare_enum_and_alias
    compare_enum_and_alias_itself = rw (
      compare_enum_member_itself,
      where_both_same m.type_alias_excerpt_text _ (compare_text_itself _ _ _ _ _),
    )

    -- Nothing is reported of a member that stayed as it was.
    pub compare_matched_member_itself : compare_matched_member m m resolve ≡ []
    unfolding compare_matched_member
    compare_matched_member_itself = simp (
      compare_metadata_itself, compare_enum_and_alias_itself, compare_property_itself,
      compare_variable_itself, compare_signature_itself,
    )
