-- ===== src/ApiContract/Classifier/Overloads.antt =====
-- Overload sets (scripts/api-contract/compatibility-classifier.ts).
pub mod Handled
pub mod Lookup
pub mod Reordered
use mathlib.Core.Option
use internal_package_contrac.Shared.{
  String, Bool, true, false, ◌&&◌, Option, none, some, List, [], ◌∷◌, ◌++◌, map, template, join,
  ◌===◌, Eq, string_Eq, option_Eq, if◌then◌else◌, ◌≡◌, ◌↔◌, and-eq-true, same_refl, ap, refl,
}
use internal_package_contrac.Shared.Dicts.{get, set, contains, add, set_of, keys}
use internal_package_contrac.ApiContract.Evidence.{Compatibility, ChangeKind, ApiContractChange}
use internal_package_contrac.ApiContract.Members.{NormalizedMember, NormalizedParameter}
use internal_package_contrac.ApiContract.Classifier.Changes.{ResolveAssignability, change_of}
use internal_package_contrac.ApiContract.Classifier.Matched.{compare_matched_member}

abbrev pub overload_kinds : List String
overload_kinds =
    "Function" ∷ "Method" ∷ "MethodSignature" ∷ "Constructor" ∷ "ConstructSignature"
    ∷ "CallSignature" ∷ []

abbrev parameter_text : NormalizedParameter → String
parameter_text p =
    template (p.name ∷ (if p.is_optional then "?" else "") ∷ ":" ∷ p.type_excerpt_text ∷ [])

unfoldable pub parameter_signature : NormalizedMember → String
parameter_signature member = join "," (map parameter_text (Option.get_or member.parameters []))

-- `groupKey`: the JSON text of the three is the same exactly where the three are.
pub record GroupKey : Type 0 where
  pub parent : Option String
  pub name : Option String
  pub kind : String

abbrev pub group_key : NormalizedMember → GroupKey
group_key member = record {
  parent = member.parent_canonical_reference;
  name = member.name;
  kind = member.kind;
}

abbrev pub group_key_eq : GroupKey → GroupKey → Bool
group_key_eq a b = (a.parent === b.parent) && ((a.name === b.name) && (a.kind === b.kind))

pub group_key_eq_iff : (a b : GroupKey) → (group_key_eq a b ≡ true) ↔ (a ≡ b)
group_key_eq_iff a b = (
  λ h.
      let (p, q) = and-eq-true (a.parent === b.parent) _ h in
      let (n, k) = and-eq-true (a.name === b.name) (a.kind === b.kind) q in
      λ i. record {
        parent = (option_Eq.same_iff a.parent b.parent).0 p i;
        name = (option_Eq.same_iff a.name b.name).0 n i;
        kind = (string_Eq.same_iff a.kind b.kind).0 k i;
      },
  λ e. rw ((option_Eq.same_iff a.parent b.parent).1 (ap (λ k. k.parent) e)) (
      rw ((option_Eq.same_iff a.name b.name).1 (ap (λ k. k.name) e))
        ((string_Eq.same_iff a.kind b.kind).1 (ap (λ k. k.kind) e))),
)

instance abbrev pub group_key_Eq : Eq GroupKey
group_key_Eq = record { same = group_key_eq; same_iff = group_key_eq_iff }

abbrev pub has_index : NormalizedMember → Bool
has_index member = elim member.overload_index [ none ↦ false | some _ ↦ true ]

abbrev pub is_overloadable : NormalizedMember → Bool
is_overloadable member = has_index member && contains member.kind overload_kinds

abbrev pub Groups : Type 0
Groups = List (GroupKey × List NormalizedMember)

-- The groups so far, and the references that the caller's later pass skips.
pub record Grouping : Type 0 where
  pub groups : Groups
  pub handled : List String

unfoldable pub group_member : NormalizedMember → Grouping → Grouping
group_member member state =
    if is_overloadable member
    then record {
      groups =
          set (group_key member)
            (Option.get_or (get (group_key member) state.groups) [] ++ member ∷ []) state.groups;
      handled = add member.canonical_reference state.handled;
    }
    else state

unfoldable pub group_overloads : List (String × NormalizedMember) → Grouping → Grouping
group_overloads [] state = state
group_overloads ((key, member) ∷ members) state =
    group_overloads members (group_member member state)

-- `new Map(group.map((m) => [parameterSignature(m), m]))`
unfoldable pub by_signature :
    List (String × NormalizedMember) → List NormalizedMember → List (String × NormalizedMember)
by_signature so_far [] = so_far
by_signature so_far (m ∷ ms) = by_signature (set (parameter_signature m) m so_far) ms

abbrev pub overload_change :
    ChangeKind → Compatibility → String → String → NormalizedMember → ApiContractChange
overload_change kind compatibility verb signature member =
    change_of member kind compatibility
      (template (verb ∷ " overload " ∷ member.scoped_name ∷ "(" ∷ signature ∷ ")." ∷ [])) ""

module _ (resolve : ResolveAssignability) where
  -- The loop over the baseline's overloads.
  unfoldable pub old_overloads :
      List (String × NormalizedMember) → List (String × NormalizedMember) → List ApiContractChange
  old_overloads current_by_signature [] = []
  old_overloads current_by_signature ((signature, old_member) ∷ olds) =
      elim (get signature current_by_signature) [
        | none ↦
            overload_change ChangeKind.overload_removed Compatibility.breaking "Removed" signature
              old_member
            ∷ []
        | some new_member ↦ compare_matched_member old_member new_member resolve
      ]
      ++ old_overloads current_by_signature olds

  -- The loop over the current overloads.
  unfoldable pub new_overloads :
      List (String × NormalizedMember) → List (String × NormalizedMember) → List ApiContractChange
  new_overloads baseline_by_signature [] = []
  new_overloads baseline_by_signature ((signature, new_member) ∷ news) =
      elim (get signature baseline_by_signature) [
        | none ↦
            overload_change ChangeKind.overload_added Compatibility.compatible "Added" signature
              new_member
            ∷ []
        | some old_member ↦ []
      ]
      ++ new_overloads baseline_by_signature news

  unfoldable pub compare_overload_sets :
      List NormalizedMember → List NormalizedMember → List ApiContractChange
  compare_overload_sets baseline_group current_group =
      let baseline_by_signature = by_signature [] baseline_group in
      let current_by_signature = by_signature [] current_group in
      old_overloads current_by_signature baseline_by_signature
      ++ new_overloads baseline_by_signature current_by_signature

  unfoldable pub classify_overload_set :
      List NormalizedMember → List NormalizedMember → List ApiContractChange
  classify_overload_set [] [] = []
  classify_overload_set [] (first ∷ more_added) =
      change_of first ChangeKind.export_added Compatibility.compatible
        (template ("Added " ∷ first.scoped_name ∷ "." ∷ [])) ""
      ∷ []
  classify_overload_set (removed ∷ more_removed) [] =
      change_of removed ChangeKind.export_removed Compatibility.breaking
        (template ("Removed " ∷ removed.scoped_name ∷ "." ∷ [])) ""
      ∷ []
  classify_overload_set (removed ∷ []) (first ∷ []) = compare_matched_member removed first resolve
  classify_overload_set baseline_group current_group =
      compare_overload_sets baseline_group current_group

  unfoldable pub classify_keys : Groups → Groups → List GroupKey → List ApiContractChange
  classify_keys baseline_by_group current_by_group [] = []
  classify_keys baseline_by_group current_by_group (key ∷ rest) =
      classify_overload_set (Option.get_or (get key baseline_by_group) [])
        (Option.get_or (get key current_by_group) [])
      ++ classify_keys baseline_by_group current_by_group rest

  -- `classifyOverloadable`, on the groups of both sides.
  unfoldable pub classify_groups : Groups → Groups → List ApiContractChange
  classify_groups baseline_by_group current_by_group =
      classify_keys baseline_by_group current_by_group
        (set_of (keys baseline_by_group ++ keys current_by_group))
