-- ===== src/ApiContract/Classifier/Changes.antt =====
-- Queries and changes (scripts/api-contract/compatibility-classifier.ts).
use internal_package_contrac.Shared.{
  ℕ, String, Bool, true, false, Option, [], ◌∷◌, template, Eq, ◌↔◌, ◌≡◌, arith, bool_Eq, string_Eq,
  if◌then◌else◌,
}
use internal_package_contrac.ApiContract.Evidence.{
  ContractImpact, Compatibility, ChangeKind, ApiContractChange,
}
use internal_package_contrac.ApiContract.Members.{NormalizedMember, ReleaseTagLevel}

pub data AssignabilityDirection : Type 0 where
  contravariant covariant invariant : AssignabilityDirection

pub data Position : Type 0 where
  parameter return property variable type_alias : Position

pub record AssignabilityQuery : Type 0 where
  pub old_canonical_reference : String
  pub new_canonical_reference : String
  pub position : Position
  pub parameter_index : Option ℕ
  pub direction : AssignabilityDirection

abbrev pub ResolveAssignability : Type 0
ResolveAssignability = AssignabilityQuery → Compatibility

abbrev pub impact_rank : ContractImpact → ℕ
impact_rank ContractImpact.unchanged = 0
impact_rank ContractImpact.compatible = 1
impact_rank ContractImpact.unknown = 2
impact_rank ContractImpact.breaking = 3

-- `const changeImpact: ContractImpact = change.compatibility`
abbrev pub impact_of : Compatibility → ContractImpact
impact_of Compatibility.compatible = ContractImpact.compatible
impact_of Compatibility.breaking = ContractImpact.breaking
impact_of Compatibility.unknown = ContractImpact.unknown

abbrev pub kind_text : ChangeKind → String
kind_text ChangeKind.export_added = "export-added"
kind_text ChangeKind.export_removed = "export-removed"
kind_text ChangeKind.release_tag_changed = "release-tag-changed"
kind_text ChangeKind.parameter_added = "parameter-added"
kind_text ChangeKind.parameter_removed = "parameter-removed"
kind_text ChangeKind.parameter_optionality_changed = "parameter-optionality-changed"
kind_text ChangeKind.parameter_type_changed = "parameter-type-changed"
kind_text ChangeKind.return_type_changed = "return-type-changed"
kind_text ChangeKind.property_added = "property-added"
kind_text ChangeKind.property_removed = "property-removed"
kind_text ChangeKind.property_optionality_changed = "property-optionality-changed"
kind_text ChangeKind.property_readonly_changed = "property-readonly-changed"
kind_text ChangeKind.property_type_changed = "property-type-changed"
kind_text ChangeKind.generic_parameter_changed = "generic-parameter-changed"
kind_text ChangeKind.overload_added = "overload-added"
kind_text ChangeKind.overload_removed = "overload-removed"
kind_text ChangeKind.overload_changed = "overload-changed"
kind_text ChangeKind.heritage_changed = "heritage-changed"
kind_text ChangeKind.enum_member_added = "enum-member-added"
kind_text ChangeKind.enum_member_removed = "enum-member-removed"
kind_text ChangeKind.enum_member_changed = "enum-member-changed"
kind_text ChangeKind.type_alias_changed = "type-alias-changed"
kind_text ChangeKind.constructor_changed = "constructor-changed"
kind_text ChangeKind.deprecation_changed = "deprecation-changed"
kind_text ChangeKind.documentation_only = "documentation-only"
kind_text ChangeKind.indeterminate = "indeterminate"
kind_text ChangeKind.schema_version_literal_stale = "schema-version-literal-stale"

-- `push`, less the append.
unfoldable pub change_of :
    NormalizedMember → ChangeKind → Compatibility → String → String → ApiContractChange
change_of member kind compatibility explanation id_suffix = record {
  id = template (member.canonical_reference ∷ "#" ∷ kind_text kind ∷ id_suffix ∷ []);
  path = member.scoped_name;
  kind = kind;
  compatibility = compatibility;
  explanation = explanation;
}

abbrev pub tag_eq : ReleaseTagLevel → ReleaseTagLevel → Bool
tag_eq ReleaseTagLevel.public ReleaseTagLevel.public = true
tag_eq ReleaseTagLevel.beta ReleaseTagLevel.beta = true
tag_eq ReleaseTagLevel.alpha ReleaseTagLevel.alpha = true
tag_eq ReleaseTagLevel.internal ReleaseTagLevel.internal = true
tag_eq _ _ = false

pub tag_eq_iff : (a b : ReleaseTagLevel) → (tag_eq a b ≡ true) ↔ (a ≡ b)
tag_eq_iff a b = ground arith

instance abbrev pub tag_Eq : Eq ReleaseTagLevel
tag_Eq = record { same = tag_eq; same_iff = tag_eq_iff }

abbrev pub tag_text : ReleaseTagLevel → String
tag_text ReleaseTagLevel.public = "public"
tag_text ReleaseTagLevel.beta = "beta"
tag_text ReleaseTagLevel.alpha = "alpha"
tag_text ReleaseTagLevel.internal = "internal"

-- `isOptional ? a : b`, where an absent flag counts as false.
abbrev pub truthy : Option Bool → Bool
truthy Option.none = false
truthy (Option.some b) = b

abbrev pub optional_or_required : Bool → String
optional_or_required b = if b then "optional" else "required"

abbrev pub compatible_or_breaking : Bool → Compatibility
compatible_or_breaking b = if b then Compatibility.compatible else Compatibility.breaking

abbrev pub IsCompatible : ApiContractChange → Type 0
IsCompatible c = c.compatibility ≡ Compatibility.compatible
