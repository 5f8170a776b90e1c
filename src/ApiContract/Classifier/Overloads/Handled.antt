-- ===== src/ApiContract/Classifier/Overloads/Handled.antt =====
-- What the grouping of overloads keeps (scripts/api-contract/compatibility-classifier.ts).
use mathlib.Core.Option
use internal_package_contrac.Shared.{
  String, true, List, [], ◌∷◌, ◌++◌, ◌≡◌, ◌⊎◌, inl, inr, refl, sym, ap, Memᴰ, Bool-cases,
  mem_of_append, string_Eq,
}
use internal_package_contrac.Shared.Dicts.{
  get, set, contains, HasUniqueKeys, set-HasUniqueKeys, get_of_mem,
}
use internal_package_contrac.ApiContract.Members.{NormalizedMember}
use internal_package_contrac.ApiContract.Classifier.Changes.{ResolveAssignability}
use internal_package_contrac.ApiContract.Classifier.Matched.Itself.{compare_matched_member_itself}
use internal_package_contrac.ApiContract.Classifier.Overloads.{
  GroupKey, group_key, group_key_Eq, Groups, Grouping, group_member, group_overloads,
  is_overloadable, by_signature, parameter_signature, old_overloads, new_overloads,
  compare_overload_sets, classify_overload_set, classify_keys, classify_groups,
}

-- The groups do not depend on what is handled.
group_member_groups :
    (m : NormalizedMember) (a b : Grouping)
    → a.groups ≡ b.groups
    → (group_member m a).groups ≡ (group_member m b).groups
unfolding group_member
group_member_groups m a b h = elim (Bool-cases (is_overloadable m)) [
  | inl over ↦
      rw over (ap (λ g. set (group_key m) (Option.get_or (get (group_key m) g) [] ++ m ∷ []) g) h)
  | inr plain ↦ rw plain h
]

pub group_overloads_groups :
    (ms : List (String × NormalizedMember)) (a b : Grouping)
    → a.groups ≡ b.groups
    → (group_overloads ms a).groups ≡ (group_overloads ms b).groups
unfolding group_overloads
group_overloads_groups [] a b h = h
group_overloads_groups ((k, m) ∷ ms) a b h =
    group_overloads_groups ms (group_member m a) (group_member m b) (group_member_groups m a b h)

pub by_signature-HasUniqueKeys :
    (so_far : List (String × NormalizedMember)) (ms : List NormalizedMember)
    → HasUniqueKeys so_far
    → HasUniqueKeys (by_signature so_far ms)
unfolding by_signature
by_signature-HasUniqueKeys so_far [] h = h
by_signature-HasUniqueKeys so_far (m ∷ ms) h =
    by_signature-HasUniqueKeys (set (parameter_signature m) m so_far) ms
      (set-HasUniqueKeys (parameter_signature m) m so_far h)

-- A handled reference was handled before, or is that of an overloadable member of the map.
abbrev pub HandledBy : String → List (String × NormalizedMember) → List String → Type 0
HandledBy key ms before =
    Memᴰ key before
    ⊎ ((e : String × NormalizedMember) × Memᴰ e ms
        × (is_overloadable e.1 ≡ true)
        × (e.1.canonical_reference ≡ key))

handled_of_group_member :
    (k : String) (m : NormalizedMember) (ms : List (String × NormalizedMember)) (s : Grouping)
    {key : String}
    → Memᴰ key (group_member m s).handled
    → HandledBy key ((k, m) ∷ ms) s.handled
unfolding group_member
handled_of_group_member k m ms s {key} h = elim (Bool-cases (is_overloadable m)) [
  | inr plain ↦ inl (rw plain at h)
  | inl over ↦ elim (Bool-cases (contains m.canonical_reference s.handled)) [
    | inl there ↦ inl (rw there at (rw over at h))
    | inr absent ↦ elim (mem_of_append s.handled (rw absent at (rw over at h))) [
      | inl before ↦ inl before
      | inr last ↦ inr ((k, m), Memᴰ.head refl, over, only m.canonical_reference last)
    ]
  ]
]
  where
    only : (r : String) → Memᴰ key (r ∷ []) → r ≡ key
    only r (Memᴰ.head e) = sym e
    only r (Memᴰ.tail t) = elim t [ ]

pub handled_of_group_overloads :
    (ms : List (String × NormalizedMember)) (s : Grouping) {key : String}
    → Memᴰ key (group_overloads ms s).handled
    → HandledBy key ms s.handled
unfolding group_overloads
handled_of_group_overloads [] s h = inl h
handled_of_group_overloads ((k, m) ∷ ms) s h =
    elim (handled_of_group_overloads ms (group_member m s) h) [
      | inl before ↦ handled_of_group_member k m ms s before
      | inr (e, i, over, same) ↦ inr (e, Memᴰ.tail i, over, same)
    ]

module _ (resolve : ResolveAssignability) where
  module _ (all : List (String × NormalizedMember)) (unique : HasUniqueKeys all) where
    old_overloads_itself :
        (xs : List (String × NormalizedMember))
        → ((e : String × NormalizedMember) → Memᴰ e xs → Memᴰ e all)
        → old_overloads resolve all xs ≡ []
    unfolding old_overloads
    old_overloads_itself [] h = refl
    old_overloads_itself ((s, m) ∷ xs) h =
        rw (get_of_mem all unique (h (s, m) (Memᴰ.head refl)), old_overloads)
          (rw (compare_matched_member_itself m resolve)
            (old_overloads_itself xs (λ e i. h e (Memᴰ.tail i))))

    new_overloads_itself :
        (xs : List (String × NormalizedMember))
        → ((e : String × NormalizedMember) → Memᴰ e xs → Memᴰ e all)
        → new_overloads resolve all xs ≡ []
    unfolding new_overloads
    new_overloads_itself [] h = refl
    new_overloads_itself ((s, m) ∷ xs) h =
        rw (get_of_mem all unique (h (s, m) (Memᴰ.head refl)), new_overloads)
          (new_overloads_itself xs (λ e i. h e (Memᴰ.tail i)))

  compare_overload_sets_itself :
      (g : List NormalizedMember) → compare_overload_sets resolve g g ≡ []
  unfolding compare_overload_sets
  compare_overload_sets_itself g =
      let unique = by_signature-HasUniqueKeys [] g tt in
      rw (
        old_overloads_itself (by_signature [] g) unique (by_signature [] g) (λ e i. i),
        new_overloads_itself (by_signature [] g) unique (by_signature [] g) (λ e i. i),
      )

  classify_overload_set_itself :
      (g : List NormalizedMember) → classify_overload_set resolve g g ≡ []
  unfolding classify_overload_set
  classify_overload_set_itself [] = refl
  classify_overload_set_itself (m ∷ []) = compare_matched_member_itself m resolve
  classify_overload_set_itself (m ∷ n ∷ ms) = compare_overload_sets_itself (m ∷ n ∷ ms)

  classify_keys_itself :
      (groups : Groups) (ks : List GroupKey) → classify_keys resolve groups groups ks ≡ []
  unfolding classify_keys
  classify_keys_itself groups [] = refl
  classify_keys_itself groups (k ∷ ks) =
      rw (classify_overload_set_itself (Option.get_or (get k groups) []))
        (classify_keys_itself groups ks)

  pub classify_groups_itself : (groups : Groups) → classify_groups resolve groups groups ≡ []
  unfolding classify_groups
  classify_groups_itself groups = classify_keys_itself groups _
