-- ===== src/ApiContract/Tests/Signatures.antt =====
-- Concrete overloads, parameters and schema versions, and what the theorems on them give.
use internal_package_contrac.Shared.{
  ℕ, subst, ap, sym, ◌∙◌, join, String, true, false, some, List, [], ◌∷◌, ◌≡◌, ◌≢◌, ◌↔◌, refl, Memᴰ,
  All, ne_of_same, string_Eq, template,
}
use internal_package_contrac.Shared.Dicts.{get}
use internal_package_contrac.Shared.Sorting.{sort}
use internal_package_contrac.ApiContract.Members.{NormalizedMember}
use internal_package_contrac.ApiContract.Classifier.Changes.{IsCompatible}
use internal_package_contrac.ApiContract.Classifier.Parameters.Accepted.{
  AcceptsAll, compare_parameters-IsCompatible_iff,
}
use internal_package_contrac.ApiContract.Classifier.Metadata.{
  compare_metadata, compare_release_tag, compare_deprecation, compare_type_parameters,
  compare_heritage,
}
use internal_package_contrac.ApiContract.Classifier.Values.{
  compare_enum_and_alias, compare_enum_member, compare_property, compare_variable, compare_text,
}
use internal_package_contrac.ApiContract.Classifier.Matched.{
  compare_signature, compare_matched_member,
}
use internal_package_contrac.ApiContract.Classifier.Matched.Same.{
  SameContract, compare_matched_member-nil_iff,
}
use internal_package_contrac.ApiContract.Classifier.Overloads.{
  compare_overload_sets, parameter_signature,
}
use internal_package_contrac.ApiContract.Classifier.Overloads.Reordered.{
  IsKeptIn, HasSignature, HasUniqueSignatures, compare_overload_sets_kept,
}
use internal_package_contrac.ApiContract.Classifier.Classify.{Members}
use internal_package_contrac.ApiContract.Classifier.Parameters.{
  compare_parameters, compare_new, compare_parameter, removed_from,
}
use internal_package_contrac.Shared.{length}
use internal_package_contrac.Shared.Dicts.{set}
use internal_package_contrac.Shared.Sorting.{insert}
use internal_package_contrac.Shared.Regex.{one, optional, plus, star, at_end, is_digit}
use internal_package_contrac.ApiContract.Drift.{
  detect_schema_version_drift, drift_of, interface_drift, compare_versioned, by_reference,
  shape_changes, members_equal, is_version_literal_member, is_literal_type,
}
use internal_package_contrac.ApiContract.Drift.Moved.{
  moved_members, detect_schema_version_drift_moved,
}
use internal_package_contrac.ApiContract.Tests.Contracts.{
  by_length, unsure, plain_member, limit, new_limit, parameter, parse_number,
}

-- Two overloads, and the same two the other way round: each has the other's place and reference.
abbrev overload : NormalizedMember → String → ℕ → NormalizedMember
overload m reference index = record m {
  canonical_reference = reference;
  overload_index = some index;
}

abbrev first_number : NormalizedMember
first_number = overload parse_number "parse:1" 1

abbrev parse_text : NormalizedMember
parse_text = record parse_number { parameters = some (parameter "s" "string" false ∷ []) }

abbrev second_text : NormalizedMember
second_text = overload parse_text "parse:2" 2

abbrev first_text : NormalizedMember
first_text = overload parse_text "parse:1" 1

abbrev second_number : NormalizedMember
second_number = overload parse_number "parse:2" 2

signatures-differ : parameter_signature second_number ≢ parameter_signature first_text
unfolding parameter_signature template join
signatures-differ =
    ne_of_same (parameter_signature second_number) (parameter_signature first_text) refl

abbrev before : List NormalizedMember
before = first_number ∷ second_text ∷ []

abbrev reordered : List NormalizedMember
reordered = first_text ∷ second_number ∷ []

reordered-HasUniqueSignatures : HasUniqueSignatures reordered
reordered-HasUniqueSignatures m n (Memᴰ.head p) (Memᴰ.head q) same = cc
reordered-HasUniqueSignatures m n (Memᴰ.tail (Memᴰ.head p)) (Memᴰ.tail (Memᴰ.head q)) same = cc
reordered-HasUniqueSignatures m n (Memᴰ.head p) (Memᴰ.tail (Memᴰ.head q)) same =
    absurd
      (signatures-differ (sym (sym (ap parameter_signature p) ∙ (same ∙ ap parameter_signature q))))
reordered-HasUniqueSignatures m n (Memᴰ.tail (Memᴰ.head p)) (Memᴰ.head q) same =
    absurd (signatures-differ (sym (ap parameter_signature p) ∙ (same ∙ ap parameter_signature q)))
reordered-HasUniqueSignatures m n (Memᴰ.tail (Memᴰ.tail i)) j same = elim i [ ]
reordered-HasUniqueSignatures m n i (Memᴰ.tail (Memᴰ.tail j)) same = elim j [ ]

contracts_agree :
    (compare_matched_member first_number second_number unsure ≡ [])
    × (compare_matched_member second_text first_text unsure ≡ [])
unfolding compare_matched_member compare_metadata compare_release_tag compare_deprecation
    compare_type_parameters compare_heritage sort compare_enum_and_alias compare_enum_member
    compare_property compare_variable compare_signature compare_parameters compare_new
    compare_parameter removed_from compare_text
contracts_agree = (refl, refl)

same_number : SameContract first_number second_number
same_number = (compare_matched_member-nil_iff first_number second_number unsure).0 contracts_agree.0

same_text : SameContract second_text first_text
same_text = (compare_matched_member-nil_iff second_text first_text unsure).0 contracts_agree.1

number-kept : IsKeptIn reordered first_number
unfolding parameter_signature
number-kept = (second_number, Memᴰ.tail (Memᴰ.head refl), refl, same_number)

text-kept : IsKeptIn reordered second_text
unfolding parameter_signature
text-kept = (first_text, Memᴰ.head refl, refl, same_text)

reordered-kept : (m : NormalizedMember) → Memᴰ m before → IsKeptIn reordered m
reordered-kept m (Memᴰ.head p) = subst (IsKeptIn reordered) (sym p) number-kept
reordered-kept m (Memᴰ.tail (Memᴰ.head p)) = subst (IsKeptIn reordered) (sym p) text-kept
reordered-kept m (Memᴰ.tail (Memᴰ.tail i)) = elim i [ ]

compare_overload_sets_kept_example :
    All IsCompatible (compare_overload_sets unsure before reordered)
    × (HasUniqueSignatures before
        → ((n : NormalizedMember) → Memᴰ n reordered → HasSignature (parameter_signature n) before)
        → compare_overload_sets unsure before reordered ≡ [])
compare_overload_sets_kept_example =
    compare_overload_sets_kept unsure before reordered reordered-HasUniqueSignatures reordered-kept

compare_parameters-IsCompatible_iff_example :
    All IsCompatible (
      compare_parameters parse_number parse_number unsure
        (parameter "n" "number" false ∷ [])
        (parameter "n" "number" true ∷ parameter "radix" "number" true ∷ []))
    ↔ AcceptsAll parse_number parse_number unsure 0
        (parameter "n" "number" false ∷ [])
        (parameter "n" "number" true ∷ parameter "radix" "number" true ∷ [])
compare_parameters-IsCompatible_iff_example =
    compare_parameters-IsCompatible_iff parse_number parse_number unsure
      (parameter "n" "number" false ∷ [])
      (parameter "n" "number" true ∷ parameter "radix" "number" true ∷ [])

compare_matched_member-nil_iff_example :
    (compare_matched_member limit new_limit unsure ≡ []) ↔ SameContract limit new_limit
compare_matched_member-nil_iff_example = compare_matched_member-nil_iff limit new_limit unsure

-- An interface with a schema version and one more property.
abbrev config_property : String → String → NormalizedMember
config_property property type = record (plain_member property "PropertySignature") {
  name = some property;
  parent_canonical_reference = some "Config";
  is_top_level_export = false;
  property_type_excerpt_text = some type;
}

abbrev config_members : String → Members
config_members type =
    ("Config", plain_member "Config" "Interface")
    ∷ ("version", config_property "version" "1")
    ∷ ("size", config_property "size" type)
    ∷ []

-- A shape that changed under the same version is one drift.
drift_found :
    length
      (detect_schema_version_drift by_length (config_members "number") (config_members "string"))
    ≡ 1
unfolding detect_schema_version_drift drift_of interface_drift compare_versioned by_reference
    shape_changes members_equal is_version_literal_member is_literal_type sort insert get set one
    optional plus star at_end is_digit
drift_found = refl

detect_schema_version_drift_moved_example :
    detect_schema_version_drift by_length
      (config_members "number")
      (moved_members (λ reference. some "src/config.ts") (config_members "number"))
    ≡ []
detect_schema_version_drift_moved_example =
    detect_schema_version_drift_moved (λ reference. some "src/config.ts") by_length
      (config_members "number")
