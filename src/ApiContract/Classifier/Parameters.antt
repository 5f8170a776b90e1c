-- ===== src/ApiContract/Classifier/Parameters.antt =====
-- `compareParameters` (scripts/api-contract/compatibility-classifier.ts).
pub mod Accepted
pub mod Same
use internal_package_contrac.Shared.{
  ℕ, suc, ◌+◌, String, Bool, Option, none, some, List, [], ◌∷◌, ◌++◌, template, ◌===◌, ◌!==◌,
  bool_Eq, string_Eq, if◌then◌else◌, get_elem?, drop, length,
}
use internal_package_contrac.Shared.Decimals.{decimal}
use internal_package_contrac.ApiContract.Evidence.{Compatibility, ChangeKind, ApiContractChange}
use internal_package_contrac.ApiContract.Members.{NormalizedMember, NormalizedParameter}
use internal_package_contrac.ApiContract.Classifier.Changes.{
  ResolveAssignability, contravariant, parameter, change_of, optional_or_required,
  compatible_or_breaking,
}

abbrev pub at : ℕ → String
at i = template ("#param-" ∷ decimal i ∷ [])

module _ (baseline_member current_member : NormalizedMember) (resolve : ResolveAssignability) where
  unfoldable pub added_parameter : ℕ → NormalizedParameter → ApiContractChange
  added_parameter i new_param =
      change_of current_member ChangeKind.parameter_added
        (compatible_or_breaking new_param.is_optional)
        (template (
          "Added "
          ∷ optional_or_required new_param.is_optional
          ∷ " parameter `"
          ∷ new_param.name
          ∷ "` to "
          ∷ current_member.scoped_name
          ∷ "."
          ∷ []))
        (at i)

  unfoldable pub optionality_change : ℕ → NormalizedParameter → ApiContractChange
  optionality_change i new_param =
      change_of current_member ChangeKind.parameter_optionality_changed
        (compatible_or_breaking new_param.is_optional)
        (template (
          "Parameter `"
          ∷ new_param.name
          ∷ "` of "
          ∷ current_member.scoped_name
          ∷ " became "
          ∷ optional_or_required new_param.is_optional
          ∷ "."
          ∷ []))
        (at i)

  abbrev pub parameter_query : ℕ → Compatibility
  parameter_query i = resolve (record {
    old_canonical_reference = baseline_member.canonical_reference;
    new_canonical_reference = current_member.canonical_reference;
    position = parameter;
    parameter_index = some i;
    direction = contravariant;
  })

  unfoldable pub type_change : ℕ → NormalizedParameter → NormalizedParameter → ApiContractChange
  type_change i old_param new_param =
      change_of current_member ChangeKind.parameter_type_changed (parameter_query i)
        (template (
          "Parameter `" ∷ new_param.name ∷ "` of " ∷ current_member.scoped_name ∷ " changed from `"
          ∷ old_param.type_excerpt_text ∷ "` to `" ∷ new_param.type_excerpt_text ∷ "`." ∷ []))
        (at i)

  -- The body of the loop over the new parameters.
  unfoldable pub compare_parameter :
      ℕ → Option NormalizedParameter → NormalizedParameter → List ApiContractChange
  compare_parameter i none new_param = added_parameter i new_param ∷ []
  compare_parameter i (some old_param) new_param =
      (if old_param.is_optional !== new_param.is_optional
        then optionality_change i new_param ∷ []
        else [])
      ++ (if old_param.type_excerpt_text !== new_param.type_excerpt_text
          then type_change i old_param new_param ∷ []
          else [])

  unfoldable pub compare_new :
      List NormalizedParameter → ℕ → List NormalizedParameter → List ApiContractChange
  compare_new old_params i [] = []
  compare_new old_params i (new_param ∷ new_params) =
      compare_parameter i (get_elem? old_params i) new_param
      ++ compare_new old_params (suc i) new_params

  unfoldable pub removed_parameter : ℕ → NormalizedParameter → ApiContractChange
  removed_parameter i old_param =
      change_of current_member ChangeKind.parameter_removed Compatibility.breaking
        (template (
          "Removed parameter `" ∷ old_param.name ∷ "` from " ∷ current_member.scoped_name ∷ "."
          ∷ []))
        (at i)

  unfoldable pub removed_from : ℕ → List NormalizedParameter → List ApiContractChange
  removed_from i [] = []
  removed_from i (old_param ∷ old_params) =
      removed_parameter i old_param ∷ removed_from (suc i) old_params

  unfoldable pub compare_parameters :
      List NormalizedParameter → List NormalizedParameter → List ApiContractChange
  compare_parameters old_params new_params =
      compare_new old_params 0 new_params
      ++ removed_from (length new_params) (drop (length new_params) old_params)
