-- ===== src/ApiContract/Classifier/Matched.antt =====
-- `compareSignature` and `compareMatchedMember` (scripts/api-contract/compatibility-classifier.ts).
pub mod Itself
pub mod Same
use internal_package_contrac.Shared.{Option, none, some, List, [], ◌++◌}
use internal_package_contrac.ApiContract.Evidence.{ChangeKind, ApiContractChange}
use internal_package_contrac.ApiContract.Members.{NormalizedMember, NormalizedParameter}
use internal_package_contrac.ApiContract.Classifier.Changes.{
  ResolveAssignability, covariant, return,
}
use internal_package_contrac.ApiContract.Classifier.Parameters.{compare_parameters}
use internal_package_contrac.ApiContract.Classifier.Metadata.{compare_metadata}
use internal_package_contrac.ApiContract.Classifier.Values.{
  where_both, compare_text, compare_enum_and_alias, compare_property, compare_variable,
}

module _ (baseline_member current_member : NormalizedMember) (resolve : ResolveAssignability) where
  compare_parameter_lists :
      Option (List NormalizedParameter) → Option (List NormalizedParameter) → List ApiContractChange
  compare_parameter_lists none new_params = []
  compare_parameter_lists (some old_params) none = []
  compare_parameter_lists (some old_params) (some new_params) =
      compare_parameters baseline_member current_member resolve old_params new_params

  unfoldable pub compare_signature : List ApiContractChange
  unfolding compare_parameter_lists
  compare_signature =
      compare_parameter_lists baseline_member.parameters current_member.parameters
      ++ where_both baseline_member.return_type_excerpt_text current_member.return_type_excerpt_text
          (compare_text baseline_member current_member resolve ChangeKind.return_type_changed return
            covariant "" "'s return type")

  unfoldable pub compare_matched_member : List ApiContractChange
  compare_matched_member =
      compare_metadata baseline_member current_member
      ++ (compare_enum_and_alias baseline_member current_member resolve
          ++ (compare_property baseline_member current_member resolve
              ++ (compare_variable baseline_member current_member resolve ++ compare_signature)))
