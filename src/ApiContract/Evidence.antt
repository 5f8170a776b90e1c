-- ===== src/ApiContract/Evidence.antt =====
-- The vocabulary of the evidence (scripts/api-contract/evidence-types.ts).
use internal_package_contrac.Shared.{ℕ, String, Bool, Option, List}

pub data ContractImpact : Type 0 where
  unchanged compatible breaking unknown : ContractImpact

pub data RequiredReleaseLevel : Type 0 where
  no_release patch minor major : RequiredReleaseLevel

-- The compatibility of one change: an impact other than `unchanged`.
pub data Compatibility : Type 0 where
  compatible breaking unknown : Compatibility

pub data ChangeKind : Type 0 where
  export_added export_removed release_tag_changed : ChangeKind
  parameter_added parameter_removed parameter_optionality_changed : ChangeKind
  parameter_type_changed return_type_changed : ChangeKind
  property_added property_removed property_optionality_changed : ChangeKind
  property_readonly_changed property_type_changed generic_parameter_changed : ChangeKind
  overload_added overload_removed overload_changed heritage_changed : ChangeKind
  enum_member_added enum_member_removed enum_member_changed type_alias_changed : ChangeKind
  constructor_changed deprecation_changed documentation_only indeterminate : ChangeKind
  schema_version_literal_stale : ChangeKind

pub record ApiContractChange : Type 0 where
  pub id : String
  pub path : String
  pub kind : ChangeKind
  pub compatibility : Compatibility
  pub explanation : String

pub record ApiContractSnapshot : Type 0 where
  pub package_name : String
  pub api_extractor_version : String
  pub api_json_schema_version : ℕ
  pub api_json_hash : String
  pub api_report_path : Option String

pub record ApiContractTargetResult : Type 0 where
  pub target : String
  pub initial_baseline : Bool
  pub baseline : Option ApiContractSnapshot
  pub current : ApiContractSnapshot
  pub diff : List ApiContractChange
  pub lower_tier_diff : List ApiContractChange
  pub impact : ContractImpact
  pub required_level : Option RequiredReleaseLevel
  pub minimum_required_version : Option String
  pub baseline_version : Option String
  pub summary : String

pub record ChangesetAnalysisEvidence : Type 0 where
  pub changeset_count : ℕ
  pub declared_level : RequiredReleaseLevel
  pub satisfied : Option Bool

pub record ApiContractEvidence : Type 0 where
  pub current_version : String
  pub targets : List ApiContractTargetResult
  pub required_level : Option RequiredReleaseLevel
  pub minimum_required_version : Option String
  pub summary : String
  pub changesets : ChangesetAnalysisEvidence
