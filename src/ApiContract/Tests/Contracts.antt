-- ===== src/ApiContract/Tests/Contracts.antt =====
-- Concrete contracts, and what the theorems on their comparison give for them.
use Prim.Native.Nat.{◌≤◌}
use Prim.Native.String.{count}
use mathlib.Core.List.{Perm}
use internal_package_contrac.Shared.{
  subst, ap, String, Bool, true, false, none, some, [], ◌∷◌, ◌≡◌, ◌≢◌, ◌⊎◌, refl, inl, leb, Memᴰ,
  arith, ne_of_same, string_Eq, template,
}
use internal_package_contrac.Shared.Dicts.{get}
use internal_package_contrac.Shared.Sorting.{IsSorted, IsTotalPreorder, sort}
use internal_package_contrac.ApiContract.Evidence.{
  Compatibility, ContractImpact, ApiContractChange, ChangeKind,
}
use internal_package_contrac.ApiContract.Members.{
  NormalizedMember, NormalizedParameter, ReleaseTagLevel,
}
use internal_package_contrac.ApiContract.Classifier.Changes.{
  ResolveAssignability, change_of, impact_rank,
}
use internal_package_contrac.ApiContract.Classifier.Metadata.{
  compare_metadata, compare_release_tag, compare_deprecation, compare_type_parameters,
  compare_heritage,
}
use internal_package_contrac.ApiContract.Classifier.Values.{
  compare_enum_and_alias, compare_enum_member, compare_property, compare_variable, compare_text,
}
use internal_package_contrac.ApiContract.Classifier.Matched.{
  compare_matched_member, compare_signature,
}
use internal_package_contrac.ApiContract.Classifier.Overloads.{group_key, is_overloadable}
use internal_package_contrac.ApiContract.Classifier.Classify.{
  change_le, pushed_changes, Members, classify_contract_changes, removed_member,
}
use internal_package_contrac.ApiContract.Classifier.Classify.Impact.{
  IsWorst, classify_contract_changes_result,
}
use internal_package_contrac.ApiContract.Classifier.Classify.Self.{classify_contract_changes_itself}
use internal_package_contrac.ApiContract.Classifier.Classify.Removal.{removed-breaking, IsKeyed}
use internal_package_contrac.ApiContract.Classifier.Classify.RemovedOverloads.{
  removed_export, removed_overloads-breaking,
}
use internal_package_contrac.ApiContract.Classifier.Classify.Addition.{IsHarmless, added-compatible}
use internal_package_contrac.ApiContract.Classifier.Classify.Matching.{matched_changes_reported}
use internal_package_contrac.ApiContract.Classifier.Overloads.Lookup.{InGroup, NoneInGroup}
use internal_package_contrac.Shared.Regex.{optional}

-- Texts by their length: a total preorder.
abbrev pub by_length : String → String → Bool
by_length a b = leb (count a) (count b)

by_length-IsTotalPreorder : IsTotalPreorder by_length
by_length-IsTotalPreorder = record {
  total = λ a b h. ground arith;
  trans = λ a b c h k. ground arith;
}

-- A resolver that can tell nothing.
abbrev pub unsure : ResolveAssignability
unsure query = Compatibility.unknown

abbrev pub plain_member : String → String → NormalizedMember
plain_member reference kind = record {
  canonical_reference = reference;
  name = some reference;
  scoped_name = reference;
  kind = kind;
  parent_canonical_reference = none;
  is_top_level_export = true;
  file_url_path = none;
  release_tag = ReleaseTagLevel.public;
  is_deprecated = false;
  is_exported = some true;
  parameters = none;
  return_type_excerpt_text = none;
  property_type_excerpt_text = none;
  is_optional = none;
  is_readonly = none;
  overload_index = none;
  type_parameter_names = none;
  extends_excerpt_texts = none;
  implements_excerpt_texts = none;
  initializer_excerpt_text = none;
  type_alias_excerpt_text = none;
  variable_type_excerpt_text = none;
}

abbrev pub limit : NormalizedMember
limit = record (plain_member "limit" "Variable") { variable_type_excerpt_text = some "number" }

abbrev pub new_limit : NormalizedMember
new_limit = record limit { variable_type_excerpt_text = some "string" }

abbrev kind_alias : NormalizedMember
kind_alias = record (plain_member "Kind" "TypeAlias") {
  type_alias_excerpt_text = some "\"a\" | \"b\"";
}

abbrev pub parameter : String → String → Bool → NormalizedParameter
parameter name type optional = record {
  name = name;
  is_optional = optional;
  type_excerpt_text = type;
}

abbrev pub parse_number : NormalizedMember
parse_number = record (plain_member "parse" "Function") {
  parameters = some (parameter "n" "number" false ∷ []);
  return_type_excerpt_text = some "string";
  overload_index = some 1;
}

abbrev old_members : Members
old_members = ("limit", limit) ∷ ("Kind", kind_alias) ∷ []

abbrev limit_only : Members
limit_only = ("limit", limit) ∷ []

abbrev changed_members : Members
changed_members = ("limit", new_limit) ∷ ("Kind", kind_alias) ∷ []

abbrev overloaded_members : Members
overloaded_members = ("limit", limit) ∷ ("parse", parse_number) ∷ []

-- What the comparison says of the variable, its new type being one that the resolver cannot judge.
abbrev limit_change : ApiContractChange
limit_change = record {
  id = "limit#property-type-changed";
  path = "limit";
  kind = ChangeKind.property_type_changed;
  compatibility = Compatibility.unknown;
  explanation = "Variable limit changed from `number` to `string`.";
}

limit_change-reported : Memᴰ limit_change (compare_matched_member limit new_limit unsure)
unfolding compare_matched_member compare_metadata compare_release_tag compare_deprecation
    compare_type_parameters compare_heritage compare_enum_and_alias compare_enum_member
    compare_property compare_variable compare_text compare_signature change_of template sort
limit_change-reported = Memᴰ.head refl

kind_gone : get "Kind" limit_only ≡ none
unfolding get
kind_gone = refl

kind_not_limit : ◌≢◌ {A = String} "Kind" "limit"
kind_not_limit = ne_of_same "Kind" "limit" refl

old_members-IsKeyed : IsKeyed old_members
old_members-IsKeyed = record { unique = ((kind_not_limit, tt), (tt, tt)); own = (refl, (refl, tt)) }

limit_only-IsKeyed : IsKeyed limit_only
limit_only-IsKeyed = record { unique = (tt, tt); own = (refl, tt) }

changed_members-IsKeyed : IsKeyed changed_members
changed_members-IsKeyed = record {
  unique = ((kind_not_limit, tt), (tt, tt));
  own = (refl, (refl, tt));
}

matched_changes_reported_example :
    let r = classify_contract_changes by_length unsure old_members changed_members in
    Memᴰ limit_change r.changes × (2 ≤ impact_rank r.impact)
matched_changes_reported_example =
    matched_changes_reported by_length unsure old_members changed_members "limit" limit new_limit
      (limit_change) old_members-IsKeyed changed_members-IsKeyed (Memᴰ.head refl) (Memᴰ.head refl)
      refl refl limit_change-reported

removed-breaking_example :
    let r = classify_contract_changes by_length unsure old_members limit_only in
    Memᴰ (removed_member kind_alias) r.changes × (r.impact ≡ ContractImpact.breaking)
removed-breaking_example =
    removed-breaking by_length unsure old_members limit_only "Kind" kind_alias old_members-IsKeyed
      limit_only-IsKeyed (Memᴰ.tail (Memᴰ.head refl)) refl kind_gone

classify_contract_changes_itself_example :
    classify_contract_changes by_length unsure old_members old_members
    ≡ record { changes = []; impact = ContractImpact.unchanged }
classify_contract_changes_itself_example =
    classify_contract_changes_itself by_length unsure old_members old_members-IsKeyed.unique

classify_contract_changes_result_example :
    let r = classify_contract_changes by_length unsure old_members limit_only in
    IsSorted (change_le by_length) r.changes
    × Perm r.changes (pushed_changes unsure old_members limit_only)
    × IsWorst r.changes r.impact
classify_contract_changes_result_example =
    classify_contract_changes_result by_length unsure by_length-IsTotalPreorder old_members
      limit_only

parse_gone : NoneInGroup (group_key parse_number) limit_only
parse_gone e (Memᴰ.head p) over = absurd (cc (subst (λ z. is_overloadable z.1 ≡ true) p over))
parse_gone e (Memᴰ.tail m) over = elim m [ ]

removed_overloads-breaking_example :
    let r = classify_contract_changes by_length unsure overloaded_members limit_only in
    ((first : NormalizedMember) × InGroup (group_key parse_number) overloaded_members first
      × Memᴰ (removed_export first) r.changes)
    × (r.impact ≡ ContractImpact.breaking)
removed_overloads-breaking_example =
    removed_overloads-breaking by_length unsure overloaded_members limit_only "parse" parse_number
      (Memᴰ.tail (Memᴰ.head refl)) refl parse_gone

all_old-kept : (e : String × NormalizedMember) → Memᴰ e limit_only → Memᴰ e old_members
all_old-kept e (Memᴰ.head p) = Memᴰ.head p
all_old-kept e (Memᴰ.tail m) = elim m [ ]

all_new-IsHarmless :
    (e : String × NormalizedMember)
    → Memᴰ e old_members
    → get e.0 limit_only ≡ none
    → IsHarmless limit_only e.1
all_new-IsHarmless e (Memᴰ.head p) fresh = inl (ap (λ z. z.1.is_top_level_export) p)
all_new-IsHarmless e (Memᴰ.tail (Memᴰ.head p)) fresh = inl (ap (λ z. z.1.is_top_level_export) p)
all_new-IsHarmless e (Memᴰ.tail (Memᴰ.tail m)) fresh = elim m [ ]

added-compatible_example :
    let r = classify_contract_changes by_length unsure limit_only old_members in
    (r.impact ≡ ContractImpact.unchanged) ⊎ (r.impact ≡ ContractImpact.compatible)
added-compatible_example =
    added-compatible by_length unsure limit_only old_members old_members-IsKeyed.unique
      (refl, (refl, tt)) all_old-kept all_new-IsHarmless
