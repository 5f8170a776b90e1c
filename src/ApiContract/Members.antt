-- ===== src/ApiContract/Members.antt =====
-- The members of a public contract, as the normalizer hands them over
-- (scripts/api-contract/model-normalizer.ts).
use internal_package_contrac.Shared.{ℕ, String, Bool, Option, List, leb}

pub data ReleaseTagLevel : Type 0 where
  public beta alpha internal : ReleaseTagLevel

pub record NormalizedParameter : Type 0 where
  pub name : String
  pub is_optional : Bool
  pub type_excerpt_text : String

pub record NormalizedMember : Type 0 where
  pub canonical_reference : String
  pub name : Option String
  pub scoped_name : String
  pub kind : String
  pub parent_canonical_reference : Option String
  pub is_top_level_export : Bool
  pub file_url_path : Option String
  pub release_tag : ReleaseTagLevel
  pub is_deprecated : Bool
  pub is_exported : Option Bool
  pub parameters : Option (List NormalizedParameter)
  pub return_type_excerpt_text : Option String
  pub property_type_excerpt_text : Option String
  pub is_optional : Option Bool
  pub is_readonly : Option Bool
  pub overload_index : Option ℕ
  pub type_parameter_names : Option (List String)
  pub extends_excerpt_texts : Option (List String)
  pub implements_excerpt_texts : Option (List String)
  pub initializer_excerpt_text : Option String
  pub type_alias_excerpt_text : Option String
  pub variable_type_excerpt_text : Option String

-- `RELEASE_TAG_RANK` and `THRESHOLD_RANK`
abbrev pub release_tag_rank : ReleaseTagLevel → ℕ
release_tag_rank internal = 0
release_tag_rank alpha = 1
release_tag_rank beta = 2
release_tag_rank public = 3

unfoldable pub meets_threshold : ReleaseTagLevel → ReleaseTagLevel → Bool
meets_threshold level threshold = leb (release_tag_rank threshold) (release_tag_rank level)
