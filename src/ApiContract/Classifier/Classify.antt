-- ===== src/ApiContract/Classifier/Classify.antt =====
-- `classifyContractChanges` (scripts/api-contract/compatibility-classifier.ts).
pub mod Impact
pub mod Self
pub mod Removal
pub mod RemovedOverloads
pub mod Addition
pub mod Matching
use mathlib.Core.Option
use internal_package_contrac.Shared.{
  String, Bool, true, false, ◌&&◌, ◌||◌, Option, none, some, List, [], ◌∷◌, ◌++◌, template, ◌===◌,
  string_Eq, if◌then◌else◌, ltb, negate,
}
use internal_package_contrac.Shared.Dicts.{get, contains}
use internal_package_contrac.Shared.Sorting.{sort}
use internal_package_contrac.ApiContract.Evidence.{
  ContractImpact, unchanged, Compatibility, ChangeKind, ApiContractChange,
}
use internal_package_contrac.ApiContract.Members.{NormalizedMember}
use internal_package_contrac.ApiContract.Classifier.Changes.{
  ResolveAssignability, change_of, impact_rank, impact_of, truthy, optional_or_required,
  compatible_or_breaking,
}
use internal_package_contrac.ApiContract.Classifier.Matched.{compare_matched_member}
use internal_package_contrac.ApiContract.Classifier.Overloads.{
  Grouping, group_overloads, classify_groups,
}

-- A map of members, keyed by canonical reference, in the order of insertion.
abbrev pub Members : Type 0
Members = List (String × NormalizedMember)

abbrev pub is_some : Option String → Bool
is_some none = false
is_some (some s) = true

-- `map.has(key)`
abbrev pub has : String → Members → Bool
has key members = elim (get key members) [ none ↦ false | some member ↦ true ]

abbrev pub parent_is_also_new : Members → NormalizedMember → Bool
parent_is_also_new baseline member = elim member.parent_canonical_reference [
  | none ↦ false
  | some parent ↦ negate (has parent baseline)
]

abbrev pub simple_change :
    ChangeKind → Compatibility → String → NormalizedMember → ApiContractChange
simple_change kind compatibility verb member =
    change_of member kind compatibility (template (verb ∷ member.scoped_name ∷ "." ∷ [])) ""

-- A member that the baseline does not have.
unfoldable pub added_member : Members → NormalizedMember → ApiContractChange
added_member baseline member =
    if member.is_top_level_export
    then simple_change ChangeKind.export_added Compatibility.compatible "Added " member
    else if member.kind === "EnumMember"
    then simple_change ChangeKind.enum_member_added Compatibility.compatible "Added enum member "
        member
    else if is_some member.property_type_excerpt_text
    then change_of member ChangeKind.property_added
        (compatible_or_breaking (truthy member.is_optional || parent_is_also_new baseline member))
        (template (
          "Added "
          ∷ optional_or_required (truthy member.is_optional)
          ∷ " property "
          ∷ member.scoped_name
          ∷ (if parent_is_also_new baseline member
              then " (on a newly-added container, so not itself breaking)"
              else "")
          ∷ "."
          ∷ []))
        ""
    else simple_change ChangeKind.export_added Compatibility.compatible "Added " member

-- A member that the current side does not have.
unfoldable pub removed_member : NormalizedMember → ApiContractChange
removed_member member =
    if member.is_top_level_export
    then simple_change ChangeKind.export_removed Compatibility.breaking "Removed " member
    else if member.kind === "EnumMember"
    then simple_change ChangeKind.enum_member_removed Compatibility.breaking "Removed enum member "
        member
    else if is_some member.property_type_excerpt_text
    then simple_change ChangeKind.property_removed Compatibility.breaking "Removed property " member
    else simple_change ChangeKind.export_removed Compatibility.breaking "Removed " member

module _ (resolve : ResolveAssignability) (handled : List String) where
  -- The body of the loop over the current members.
  unfoldable pub current_member_changes :
      Members → String → NormalizedMember → List ApiContractChange
  current_member_changes baseline key current_member =
      if contains key handled then [] else elim (get key baseline) [
        | none ↦ added_member baseline current_member ∷ []
        | some baseline_member ↦ compare_matched_member baseline_member current_member resolve
      ]

  unfoldable pub current_changes : Members → Members → List ApiContractChange
  current_changes baseline [] = []
  current_changes baseline ((key, current_member) ∷ rest) =
      current_member_changes baseline key current_member ++ current_changes baseline rest

  -- The body of the loop over the baseline's members.
  unfoldable pub baseline_member_changes :
      Members → String → NormalizedMember → List ApiContractChange
  baseline_member_changes current key baseline_member =
      if contains key handled
      then []
      else if has key current
      then []
      else removed_member baseline_member ∷ []

  unfoldable pub baseline_changes : Members → Members → List ApiContractChange
  baseline_changes current [] = []
  baseline_changes current ((key, baseline_member) ∷ rest) =
      baseline_member_changes current key baseline_member ++ baseline_changes current rest

-- The loop that takes the worst impact.
unfoldable pub worst_from : ContractImpact → List ApiContractChange → ContractImpact
worst_from impact [] = impact
worst_from impact (change ∷ changes) =
    worst_from
      (if ltb (impact_rank impact) (impact_rank (impact_of change.compatibility))
        then impact_of change.compatibility
        else impact)
      changes

pub record ClassifyResult : Type 0 where
  pub changes : List ApiContractChange
  pub impact : ContractImpact

-- `id_le a b` is `a.localeCompare(b) <= 0`, which stands outside the repository.
module _ (id_le : String → String → Bool) where
  abbrev pub change_le : ApiContractChange → ApiContractChange → Bool
  change_le a b = id_le a.id b.id

-- The groupings share the set `handled`.
abbrev pub old_grouping : Members → Grouping
old_grouping baseline = group_overloads baseline (record { groups = []; handled = [] })

abbrev pub new_grouping : Members → Members → Grouping
new_grouping baseline current =
    group_overloads current (record { groups = []; handled = (old_grouping baseline).handled })

module _ (resolve : ResolveAssignability) where
  -- What the three passes push, in order.
  unfoldable pub pushed_changes : Members → Members → List ApiContractChange
  pushed_changes baseline current =
      let handled = (new_grouping baseline current).handled in
      classify_groups resolve (old_grouping baseline).groups (new_grouping baseline current).groups
      ++ (current_changes resolve handled baseline current
          ++ baseline_changes resolve handled current baseline)

module _ (id_le : String → String → Bool) (resolve : ResolveAssignability) where
  unfoldable pub classify_contract_changes : Members → Members → ClassifyResult
  classify_contract_changes baseline current =
      let changes = sort (change_le id_le) (pushed_changes resolve baseline current) in
      record { changes = changes; impact = worst_from unchanged changes }
