-- ===== src/ApiContract/Drift/Moved.antt =====
-- A move of declarations between files is no drift (scripts/api-contract/schema-version-consistency.ts).
use mathlib.Core.Option
use internal_package_contrac.Shared.{
  String, Bool, true, Option, none, some, List, [], ◌∷◌, map, filter, find?, negate, ◌≡◌, refl, ap,
  ◌∙◌, Memᴰ, Bool-cases, Option-cases, inl, inr, ◌===◌, same_refl, string_Eq, option_Eq, bool_Eq,
  list_Eq, nat_Eq,
}
use internal_package_contrac.Shared.Dicts.{
  get, set, keys, contains, HasUniqueKeys, get_of_mem, set-HasUniqueKeys, mem-contains,
}
use internal_package_contrac.Shared.Sorting.{sort}
use internal_package_contrac.ApiContract.Members.{NormalizedMember, NormalizedParameter}
use internal_package_contrac.ApiContract.Classifier.Changes.{tag_Eq}
use internal_package_contrac.ApiContract.Classifier.Classify.{Members}
use internal_package_contrac.ApiContract.Drift.{
  members_equal, parameters_eq, maybe_parameters_eq, by_reference, others, shape_changes,
  compare_versioned, interface_drift, drift_of, detect_schema_version_drift, children_of,
  has_changed, is_version_literal_member,
}

parameters_eq_refl : (ps : List NormalizedParameter) → parameters_eq ps ps ≡ true
parameters_eq_refl [] = refl
parameters_eq_refl (p ∷ ps) =
    rw (same_refl p.name, same_refl p.is_optional, same_refl p.type_excerpt_text)
      (parameters_eq_refl ps)

maybe_parameters_eq_refl :
    (ps : Option (List NormalizedParameter)) → maybe_parameters_eq ps ps ≡ true
maybe_parameters_eq_refl none = refl
maybe_parameters_eq_refl (some ps) = parameters_eq_refl ps

-- Only the file of a declaration is left aside.
members_equal_moved :
    (m : NormalizedMember) (file : Option String)
    → members_equal m (record m { file_url_path = file }) ≡ true
unfolding members_equal
members_equal_moved m file =
    rw
      (
        same_refl m.canonical_reference,
        same_refl m.name,
        same_refl m.scoped_name,
        same_refl m.kind,
        same_refl m.parent_canonical_reference,
        same_refl m.is_top_level_export,
        same_refl m.release_tag,
        same_refl m.is_deprecated,
        same_refl m.is_exported,
        maybe_parameters_eq_refl m.parameters,
        same_refl m.return_type_excerpt_text,
        same_refl m.property_type_excerpt_text,
        same_refl m.is_optional,
        same_refl m.is_readonly,
        same_refl m.overload_index,
        same_refl m.type_parameter_names,
        same_refl m.extends_excerpt_texts,
        same_refl m.implements_excerpt_texts,
        same_refl m.initializer_excerpt_text,
        same_refl m.type_alias_excerpt_text,
        same_refl m.variable_type_excerpt_text,
      )
      refl

module _ (file_of : String → Option String) where
  -- A member, found in another file.
  abbrev pub moved : NormalizedMember → NormalizedMember
  moved m = record m { file_url_path = file_of m.canonical_reference }

  abbrev pub moved_members : Members → Members
  moved_members [] = []
  moved_members ((k, m) ∷ members) = (k, moved m) ∷ moved_members members

  abbrev moved_list : List NormalizedMember → List NormalizedMember
  moved_list = map moved

  children_of_moved :
      (members : Members) (parent : String)
      → children_of (moved_members members) parent ≡ moved_list (children_of members parent)
  children_of_moved [] parent = refl
  children_of_moved ((k, m) ∷ members) parent =
      elim (Bool-cases (m.parent_canonical_reference === some parent)) [
        | inl child ↦ rw (child, children_of_moved members parent) refl
        | inr other ↦ rw other (children_of_moved members parent)
      ]

  others-moved :
      (version : NormalizedMember) (ms : List NormalizedMember)
      → others (moved version) (moved_list ms) ≡ moved_list (others version ms)
  others-moved version [] = refl
  others-moved version (m ∷ ms) =
      elim (Bool-cases (m.canonical_reference === version.canonical_reference)) [
        | inl same ↦ rw same (others-moved version ms)
        | inr other ↦ rw (other, others-moved version ms) refl
      ]

  set-moved :
      (k : String) (m : NormalizedMember) (members : Members)
      → set k (moved m) (moved_members members) ≡ moved_members (set k m members)
  unfolding set
  set-moved k m [] = refl
  set-moved k m ((j, n) ∷ members) = elim (Bool-cases (j === k)) [
    | inl same ↦ rw same refl
    | inr other ↦ rw (other, set-moved k m members) refl
  ]

  by_reference_moved :
      (so_far : Members) (ms : List NormalizedMember)
      → by_reference (moved_members so_far) (moved_list ms) ≡ moved_members (by_reference so_far ms)
  unfolding by_reference
  by_reference_moved so_far [] = refl
  by_reference_moved so_far (m ∷ ms) =
      ap (λ z. by_reference z (moved_list ms)) (set-moved m.canonical_reference m so_far)
      ∙ by_reference_moved (set m.canonical_reference m so_far) ms

  find_moved :
      (ms : List NormalizedMember)
      → find? is_version_literal_member (moved_list ms)
        ≡ Option.map moved (find? is_version_literal_member ms)
  unfolding is_version_literal_member
  find_moved [] = refl
  find_moved (m ∷ ms) = elim (Bool-cases (is_version_literal_member m)) [
    | inl here ↦ rw here refl
    | inr later ↦ rw later (find_moved ms)
  ]

  -- The keys are the same ones.
  keys_moved : (members : Members) → keys (moved_members members) ≡ keys members
  keys_moved [] = refl
  keys_moved ((k, m) ∷ members) = ap (λ z. k ∷ z) (keys_moved members)

  get-moved :
      (k : String) (members : Members)
      → get k (moved_members members) ≡ Option.map moved (get k members)
  unfolding get
  get-moved k [] = refl
  get-moved k ((j, m) ∷ members) = elim (Bool-cases (j === k)) [
    | inl same ↦ rw same refl
    | inr other ↦ rw other (get-moved k members)
  ]

  filter-contained_nil : (ks : List String) → filter (λ k. negate (contains k ks)) ks ≡ []
  filter-contained_nil ks = none_left ks (λ k m. mem-contains k ks m)
    where
      none_left :
          (js : List String)
          → ((k : String) → Memᴰ k js → contains k ks ≡ true)
          → filter (λ k. negate (contains k ks)) js ≡ []
      none_left [] h = refl
      none_left (j ∷ js) h = rw (h j (Memᴰ.head refl)) (none_left js (λ k m. h k (Memᴰ.tail m)))

  unchanged_moved :
      (members rest : Members)
      → HasUniqueKeys members
      → ((e : String × NormalizedMember) → Memᴰ e rest → Memᴰ e members)
      → filter (has_changed members) (moved_members rest) ≡ []
  unchanged_moved members [] unique h = refl
  unchanged_moved members ((k, m) ∷ rest) unique h =
      rw
        (
          get_of_mem members unique (h (k, m) (Memᴰ.head refl)),
          members_equal_moved m (file_of m.canonical_reference),
          has_changed,
        )
        (unchanged_moved members rest unique (λ e i. h e (Memᴰ.tail i)))

  shape_changes_moved :
      (members : Members)
      → HasUniqueKeys members
      → shape_changes members (moved_members members) ≡ 0
  unfolding shape_changes
  shape_changes_moved members unique =
      rw
        (
          keys_moved members,
          filter-contained_nil (keys members),
          unchanged_moved members members unique (λ e i. i),
        )
        refl

  by_reference-HasUniqueKeys :
      (so_far : Members) (ms : List NormalizedMember)
      → HasUniqueKeys so_far
      → HasUniqueKeys (by_reference so_far ms)
  unfolding by_reference
  by_reference-HasUniqueKeys so_far [] unique = unique
  by_reference-HasUniqueKeys so_far (m ∷ ms) unique =
      by_reference-HasUniqueKeys (set m.canonical_reference m so_far) ms
        (set-HasUniqueKeys m.canonical_reference m so_far unique)

  compare_versioned_moved :
      (reference : String) (interface : NormalizedMember) (ms : List NormalizedMember)
      → compare_versioned reference interface ms (moved_list ms) ≡ []
  unfolding compare_versioned
  compare_versioned_moved reference interface ms =
      elim (Option-cases (find? is_version_literal_member ms)) [
        | inl absent ↦ rw (find_moved ms, absent, compare_versioned) refl
        | inr (version, found) ↦
            let count : shape_changes (by_reference [] (others version ms))
                  (by_reference [] (others (moved version) (moved_list ms)))
                ≡ 0 =
              rw (others-moved version ms, by_reference_moved [] (others version ms))
                (shape_changes_moved (by_reference [] (others version ms))
                  (by_reference-HasUniqueKeys [] (others version ms) tt)) in
            rw
              (
                find_moved ms,
                found,
                found,
                same_refl version.property_type_excerpt_text,
                count,
                compare_versioned,
              )
              refl
      ]

  interface_drift-moved :
      (members : Members) (reference : String) (m : NormalizedMember)
      → interface_drift members (moved_members members) (reference, moved m) ≡ []
  unfolding interface_drift
  interface_drift-moved members reference m = elim (Bool-cases (m.kind === "Interface")) [
    | inr other ↦ rw other refl
    | inl interface ↦ elim (Option-cases (get reference members)) [
      | inl absent ↦ rw (interface, absent, interface_drift) refl
      | inr (was, present) ↦ elim (Bool-cases (was.kind === "Interface")) [
        | inr changed ↦ rw (interface, present, changed, interface_drift) refl
        | inl kept ↦
            rw (interface, present, kept, children_of_moved members reference, interface_drift)
              (compare_versioned_moved reference (moved m) (children_of members reference))
      ]
    ]
  ]

  drift_of_moved :
      (members rest : Members) → drift_of members (moved_members members) (moved_members rest) ≡ []
  unfolding drift_of
  drift_of_moved members [] = refl
  drift_of_moved members ((k, m) ∷ rest) =
      rw (interface_drift-moved members k m, drift_of) (drift_of_moved members rest)

  -- A contract whose declarations only moved, each to whatever file, has no drift: a stale schema
  -- version literal is never reported for a move, nor for a contract that did not change.
  pub detect_schema_version_drift_moved :
      (id_le : String → String → Bool) (members : Members)
      → detect_schema_version_drift id_le members (moved_members members) ≡ []
  unfolding detect_schema_version_drift sort
  detect_schema_version_drift_moved id_le members = rw (drift_of_moved members members) refl
