-- ===== src/ApiContract/Classifier/Metadata.antt =====
-- `compareMetadata` (scripts/api-contract/compatibility-classifier.ts).
use mathlib.Core.Option
use internal_package_contrac.Shared.{
  ◌&&◌, List, [], ◌∷◌, ◌++◌, template, join, ◌===◌, ◌!==◌, bool_Eq, string_Eq, option_Eq, list_Eq,
  if◌then◌else◌, ltb, negate,
}
use internal_package_contrac.Shared.Sorting.{sort}
use internal_package_contrac.Shared.CodeUnits.{text_le}
use internal_package_contrac.ApiContract.Evidence.{Compatibility, ChangeKind, ApiContractChange}
use internal_package_contrac.ApiContract.Members.{NormalizedMember, release_tag_rank}
use internal_package_contrac.ApiContract.Classifier.Changes.{
  change_of, tag_Eq, tag_text, compatible_or_breaking,
}

module _ (baseline_member current_member : NormalizedMember) where
  unfoldable pub compare_release_tag : List ApiContractChange
  compare_release_tag =
      let narrowed =
        ltb (release_tag_rank current_member.release_tag)
          (release_tag_rank baseline_member.release_tag) in
      if baseline_member.release_tag !== current_member.release_tag
      then change_of current_member ChangeKind.release_tag_changed
          (compatible_or_breaking (negate narrowed))
          (template (
            current_member.scoped_name
            ∷ " changed release tag from @"
            ∷ tag_text baseline_member.release_tag
            ∷ " to @"
            ∷ tag_text current_member.release_tag
            ∷ "."
            ∷ []))
          ""
        ∷ []
      else []

  unfoldable pub compare_deprecation : List ApiContractChange
  compare_deprecation =
      if baseline_member.is_deprecated !== current_member.is_deprecated
      then change_of current_member ChangeKind.deprecation_changed Compatibility.compatible
          (template (
            current_member.scoped_name
            ∷ " "
            ∷ (if current_member.is_deprecated then "was marked" else "is no longer marked")
            ∷ " @deprecated."
            ∷ []))
          ""
        ∷ []
      else []

  unfoldable pub compare_type_parameters : List ApiContractChange
  compare_type_parameters =
      let old_type_params = Option.get_or baseline_member.type_parameter_names [] in
      let new_type_params = Option.get_or current_member.type_parameter_names [] in
      if old_type_params !== new_type_params
      then change_of current_member ChangeKind.generic_parameter_changed Compatibility.unknown
          (template (
            current_member.scoped_name
            ∷ "'s type parameters changed from ["
            ∷ join ", " old_type_params
            ∷ "] to ["
            ∷ join ", " new_type_params
            ∷ "] -- generic parameter changes are not safely classified automatically."
            ∷ []))
          ""
        ∷ []
      else []

  unfoldable pub compare_heritage : List ApiContractChange
  compare_heritage =
      let old_extends = Option.get_or baseline_member.extends_excerpt_texts [] in
      let new_extends = Option.get_or current_member.extends_excerpt_texts [] in
      let old_implements =
        sort text_le (Option.get_or baseline_member.implements_excerpt_texts []) in
      let new_implements =
        sort text_le (Option.get_or current_member.implements_excerpt_texts []) in
      if negate ((old_extends === new_extends) && (old_implements === new_implements))
      then change_of current_member ChangeKind.heritage_changed Compatibility.unknown
          (template (
            current_member.scoped_name
            ∷ "'s extends/implements clause changed -- inheritance changes are not safely classified automatically."
            ∷ []))
          ""
        ∷ []
      else []

  unfoldable pub compare_metadata : List ApiContractChange
  compare_metadata =
      compare_release_tag ++ (compare_deprecation ++ (compare_type_parameters ++ compare_heritage))
