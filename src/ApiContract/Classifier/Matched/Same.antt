-- ===== src/ApiContract/Classifier/Matched/Same.antt =====
-- When nothing is reported of a member (scripts/api-contract/compatibility-classifier.ts).
use mathlib.Core.Option
use internal_package_contrac.Shared.{
  String, Bool, true, false, Option, none, some, List, [], ◌∷◌, ◌++◌, ◌≡◌, ◌↔◌, refl, append-eq-nil,
  arith, ◌===◌, ◌!==◌, bool_Eq, string_Eq, option_Eq, list_Eq, if◌then◌else◌, Eq, negate,
  Bool-cases, inl, inr, eq_of_same, ne_of_same, list_eq_iff,
}
use internal_package_contrac.Shared.Sorting.{sort}
use internal_package_contrac.Shared.CodeUnits.{text_le}
use internal_package_contrac.ApiContract.Evidence.{ChangeKind, ApiContractChange}
use internal_package_contrac.ApiContract.Members.{NormalizedMember, NormalizedParameter}
use internal_package_contrac.ApiContract.Classifier.Changes.{
  AssignabilityDirection, Position, ResolveAssignability, tag_Eq,
}
use internal_package_contrac.ApiContract.Classifier.Parameters.Same.{
  SameParameters, compare_parameters-nil_iff,
}
use internal_package_contrac.ApiContract.Classifier.Metadata.{
  compare_release_tag, compare_deprecation, compare_type_parameters, compare_heritage,
  compare_metadata,
}
use internal_package_contrac.ApiContract.Classifier.Values.{
  where_both, compare_enum_member, compare_property_optionality, compare_property_readonly,
  compare_text, compare_enum_and_alias, compare_property, compare_variable,
}
use internal_package_contrac.ApiContract.Classifier.Matched.{
  compare_parameter_lists, compare_signature, compare_matched_member,
}

-- A report made where two values differ is not made exactly if they are equal.
differs-nil_iff {ℓ} :
    {A : Type ℓ} ⦃e : Eq A⦄ (a b : A) (c : ApiContractChange)
    → ((if a !== b then c ∷ [] else []) ≡ []) ↔ (a ≡ b)
differs-nil_iff ⦃e⦄ a b c =
    (λ h. eq_of_same a b (equal (a === b) h), λ p. rw ((e.same_iff a b).1 p))
  where
    equal : (t : Bool) → (if negate t then c ∷ [] else []) ≡ [] → t ≡ true
    equal true h = refl
    equal false h = cc

-- Where both sides have a text, what holds of the two.
abbrev pub WhereBoth : Option String → Option String → (String → String → Type 0) → Type 0
WhereBoth none new P = Unit
WhereBoth (some old) none P = Unit
WhereBoth (some old) (some new) P = P old new

where_both-nil_iff :
    (old new : Option String) (body : String → String → List ApiContractChange)
    (P : String → String → Type 0)
    → ((s t : String) → (body s t ≡ []) ↔ P s t)
    → (where_both old new body ≡ []) ↔ WhereBoth old new P
where_both-nil_iff none new body P h = (λ _. tt, λ _. refl)
where_both-nil_iff (some s) none body P h = (λ _. tt, λ _. refl)
where_both-nil_iff (some s) (some t) body P h = h s t

abbrev pub SameParameterLists :
    Option (List NormalizedParameter) → Option (List NormalizedParameter) → Type 0
SameParameterLists none news = Unit
SameParameterLists (some olds) none = Unit
SameParameterLists (some olds) (some news) = SameParameters olds news

-- What the comparison of two members looks at agrees.
pub record SameContract (a b : NormalizedMember) : Type 0 where
  pub release_tag : a.release_tag ≡ b.release_tag
  pub is_deprecated : a.is_deprecated ≡ b.is_deprecated
  pub type_parameters :
      Option.get_or a.type_parameter_names [] ≡ Option.get_or b.type_parameter_names []
  pub heritage :
      (Option.get_or a.extends_excerpt_texts [] ≡ Option.get_or b.extends_excerpt_texts [])
      × (sort text_le (Option.get_or a.implements_excerpt_texts [])
          ≡ sort text_le (Option.get_or b.implements_excerpt_texts []))
  pub enum_value : b.kind ≡ "EnumMember" → a.initializer_excerpt_text ≡ b.initializer_excerpt_text
  pub alias : WhereBoth a.type_alias_excerpt_text b.type_alias_excerpt_text (λ s t. s ≡ t)
  pub property :
      WhereBoth a.property_type_excerpt_text b.property_type_excerpt_text
        (λ s t. (a.is_optional ≡ b.is_optional) × (a.is_readonly ≡ b.is_readonly) × (s ≡ t))
  pub variable : WhereBoth a.variable_type_excerpt_text b.variable_type_excerpt_text (λ s t. s ≡ t)
  pub parameters : SameParameterLists a.parameters b.parameters
  pub return_type : WhereBoth a.return_type_excerpt_text b.return_type_excerpt_text (λ s t. s ≡ t)

module _ (a b : NormalizedMember) where
  release_tag-nil_iff : (compare_release_tag a b ≡ []) ↔ (a.release_tag ≡ b.release_tag)
  unfolding compare_release_tag
  release_tag-nil_iff = differs-nil_iff a.release_tag b.release_tag _

  deprecation-nil_iff : (compare_deprecation a b ≡ []) ↔ (a.is_deprecated ≡ b.is_deprecated)
  unfolding compare_deprecation
  deprecation-nil_iff = differs-nil_iff a.is_deprecated b.is_deprecated _

  type_parameters-nil_iff :
      (compare_type_parameters a b ≡ [])
      ↔ (Option.get_or a.type_parameter_names [] ≡ Option.get_or b.type_parameter_names [])
  unfolding compare_type_parameters
  type_parameters-nil_iff =
      differs-nil_iff (Option.get_or a.type_parameter_names [])
        (Option.get_or b.type_parameter_names []) _

  enum_member-nil_iff :
      (compare_enum_member a b ≡ [])
      ↔ (b.kind ≡ "EnumMember" → a.initializer_excerpt_text ≡ b.initializer_excerpt_text)
  unfolding compare_enum_member
  enum_member-nil_iff = elim (Bool-cases (b.kind === "EnumMember")) [
    | inl is_enum ↦ (
      λ h _.
          (differs-nil_iff a.initializer_excerpt_text b.initializer_excerpt_text _).0
            (rw is_enum at h),
      λ f. rw is_enum (
          (differs-nil_iff a.initializer_excerpt_text b.initializer_excerpt_text _).1
            (f (eq_of_same b.kind "EnumMember" is_enum))),
    )
    | inr other ↦ (λ h k. absurd (ne_of_same b.kind "EnumMember" other k), λ f. rw other)
  ]

  abbrev SameHeritage : Type 0
  SameHeritage =
      (Option.get_or a.extends_excerpt_texts [] ≡ Option.get_or b.extends_excerpt_texts [])
      × (sort text_le (Option.get_or a.implements_excerpt_texts [])
          ≡ sort text_le (Option.get_or b.implements_excerpt_texts []))

  heritage-nil_iff : (compare_heritage a b ≡ []) ↔ SameHeritage
  unfolding compare_heritage
  heritage-nil_iff = ground (
    arith,
    list_eq_iff (Option.get_or a.extends_excerpt_texts [])
        (Option.get_or b.extends_excerpt_texts []),
    list_eq_iff (sort text_le (Option.get_or a.implements_excerpt_texts []))
        (sort text_le (Option.get_or b.implements_excerpt_texts [])),
  )

  optionality-nil_iff : (compare_property_optionality a b ≡ []) ↔ (a.is_optional ≡ b.is_optional)
  unfolding compare_property_optionality
  optionality-nil_iff = differs-nil_iff a.is_optional b.is_optional _

  readonly-nil_iff : (compare_property_readonly a b ≡ []) ↔ (a.is_readonly ≡ b.is_readonly)
  unfolding compare_property_readonly
  readonly-nil_iff = differs-nil_iff a.is_readonly b.is_readonly _

  module _ (resolve : ResolveAssignability) where
    text-nil_iff :
        (kind : ChangeKind) (position : Position) (direction : AssignabilityDirection)
        (prefix middle s t : String)
        → (compare_text a b resolve kind position direction prefix middle s t ≡ []) ↔ (s ≡ t)
    unfolding compare_text
    text-nil_iff kind position direction prefix middle s t = differs-nil_iff s t _

    parameter_lists-nil_iff :
        (olds news : Option (List NormalizedParameter))
        → (compare_parameter_lists a b resolve olds news ≡ []) ↔ SameParameterLists olds news
    unfolding compare_parameter_lists
    parameter_lists-nil_iff none news = (λ _. tt, λ _. refl)
    parameter_lists-nil_iff (some olds) none = (λ _. tt, λ _. refl)
    parameter_lists-nil_iff (some olds) (some news) =
        compare_parameters-nil_iff a b resolve olds news

    property_body-nil_iff :
        (kind : ChangeKind) (position : Position) (direction : AssignabilityDirection)
        (prefix middle s t : String)
        → (compare_property_optionality a b
              ++ (compare_property_readonly a b
                  ++ compare_text a b resolve kind position direction prefix middle s t)
            ≡ [])
          ↔ ((a.is_optional ≡ b.is_optional) × (a.is_readonly ≡ b.is_readonly) × (s ≡ t))
    property_body-nil_iff kind position direction prefix middle s t = (
      λ h.
          let (o, rest) = (append-eq-nil (compare_property_optionality a b) _).0 h in
          let (r, x) = (append-eq-nil (compare_property_readonly a b) _).0 rest in
          (
            optionality-nil_iff.0 o,
            readonly-nil_iff.0 r,
            (text-nil_iff kind position direction prefix middle s t).0 x,
          ),
      λ h. rw (
        optionality-nil_iff.1 h.0,
        readonly-nil_iff.1 h.1,
        (text-nil_iff kind position direction prefix middle s t).1 h.2,
      ),
    )

    alias-nil_iff :
        (where_both a.type_alias_excerpt_text b.type_alias_excerpt_text (
            compare_text a b resolve ChangeKind.type_alias_changed Position.type_alias
              AssignabilityDirection.invariant "Type alias " "")
          ≡ [])
        ↔ WhereBoth a.type_alias_excerpt_text b.type_alias_excerpt_text (λ s t. s ≡ t)
    alias-nil_iff =
        where_both-nil_iff a.type_alias_excerpt_text b.type_alias_excerpt_text _ (λ s t. s ≡ t)
          (text-nil_iff _ _ _ _ _)

    property-nil_iff :
        (compare_property a b resolve ≡ [])
        ↔ WhereBoth a.property_type_excerpt_text b.property_type_excerpt_text
            (λ s t. (a.is_optional ≡ b.is_optional) × (a.is_readonly ≡ b.is_readonly) × (s ≡ t))
    unfolding compare_property
    property-nil_iff =
        where_both-nil_iff a.property_type_excerpt_text b.property_type_excerpt_text _
          (λ s t. (a.is_optional ≡ b.is_optional) × (a.is_readonly ≡ b.is_readonly) × (s ≡ t))
          (property_body-nil_iff _ _ _ _ _)

    variable-nil_iff :
        (compare_variable a b resolve ≡ [])
        ↔ WhereBoth a.variable_type_excerpt_text b.variable_type_excerpt_text (λ s t. s ≡ t)
    unfolding compare_variable
    variable-nil_iff =
        where_both-nil_iff a.variable_type_excerpt_text b.variable_type_excerpt_text _
          (λ s t. s ≡ t) (text-nil_iff _ _ _ _ _)

    return-nil_iff :
        (where_both a.return_type_excerpt_text b.return_type_excerpt_text (
            compare_text a b resolve ChangeKind.return_type_changed Position.return
              AssignabilityDirection.covariant "" "'s return type")
          ≡ [])
        ↔ WhereBoth a.return_type_excerpt_text b.return_type_excerpt_text (λ s t. s ≡ t)
    return-nil_iff =
        where_both-nil_iff a.return_type_excerpt_text b.return_type_excerpt_text _ (λ s t. s ≡ t)
          (text-nil_iff _ _ _ _ _)

    nothing→same : compare_matched_member a b resolve ≡ [] → SameContract a b
    unfolding compare_matched_member compare_metadata compare_enum_and_alias compare_signature
    nothing→same h =
        let (metadata, h₁) = (append-eq-nil (compare_metadata a b) _).0 h in
        let (values, h₂) = (append-eq-nil (compare_enum_and_alias a b resolve) _).0 h₁ in
        let (property, h₃) = (append-eq-nil (compare_property a b resolve) _).0 h₂ in
        let (variable, signature) = (append-eq-nil (compare_variable a b resolve) _).0 h₃ in
        let (tag, m₁) = (append-eq-nil (compare_release_tag a b) _).0 metadata in
        let (deprecation, m₂) = (append-eq-nil (compare_deprecation a b) _).0 m₁ in
        let (type_parameters, heritage) = (append-eq-nil (compare_type_parameters a b) _).0 m₂ in
        let (enum_value, alias) = (append-eq-nil (compare_enum_member a b) _).0 values in
        let (parameters, returned) =
          (append-eq-nil (compare_parameter_lists a b resolve a.parameters b.parameters) _).0
            signature in
        record {
          release_tag = release_tag-nil_iff.0 tag;
          is_deprecated = deprecation-nil_iff.0 deprecation;
          type_parameters = type_parameters-nil_iff.0 type_parameters;
          heritage = heritage-nil_iff.0 heritage;
          enum_value = enum_member-nil_iff.0 enum_value;
          alias = alias-nil_iff.0 alias;
          property = property-nil_iff.0 property;
          variable = variable-nil_iff.0 variable;
          parameters = (parameter_lists-nil_iff a.parameters b.parameters).0 parameters;
          return_type = return-nil_iff.0 returned;
        }

    same→nothing : SameContract a b → compare_matched_member a b resolve ≡ []
    unfolding compare_matched_member compare_metadata compare_enum_and_alias compare_signature
    same→nothing s = rw (
      release_tag-nil_iff.1 s.release_tag,
      deprecation-nil_iff.1 s.is_deprecated,
      type_parameters-nil_iff.1 s.type_parameters,
      heritage-nil_iff.1 s.heritage,
      enum_member-nil_iff.1 s.enum_value,
      alias-nil_iff.1 s.alias,
      property-nil_iff.1 s.property,
      variable-nil_iff.1 s.variable,
      (parameter_lists-nil_iff a.parameters b.parameters).1 s.parameters,
      return-nil_iff.1 s.return_type,
    )

    -- Nothing is reported of a member exactly if what the comparison looks at agrees: its release
    -- tag, deprecation, type parameters and heritage, an enum member's value, and, where both sides
    -- have them, its alias, property, variable, parameters (less their names) and return type.
    pub compare_matched_member-nil_iff :
        (compare_matched_member a b resolve ≡ []) ↔ SameContract a b
    compare_matched_member-nil_iff = (nothing→same, same→nothing)
