-- ===== src/ApiContract/Classifier/Classify/Addition.antt =====
-- Growing a contract is compatible (scripts/api-contract/compatibility-classifier.ts).
use text.Mathlib.TextEquality.{eq_iff}
use internal_package_contrac.Shared.{
  String, Bool, true, false, none, some, List, [], ◌∷◌, ◌≡◌, ◌⊎◌, ◌↔◌, refl, Memᴰ, Bool-cases,
  Option-cases, inl, inr, string_Eq, All, All-append, All-mem, All-of_mem, ◌∙◌, arith,
}
use internal_package_contrac.Shared.Dicts.{
  get, contains, HasUniqueKeys, get_of_mem, mem_of_get, set_of,
}
use internal_package_contrac.Shared.Sorting.{sort, mem_of_sort}
use internal_package_contrac.ApiContract.Evidence.{unchanged, compatible, Compatibility}
use internal_package_contrac.ApiContract.Members.{NormalizedMember}
use internal_package_contrac.ApiContract.Classifier.Changes.{
  ResolveAssignability, impact_of, change_of, IsCompatible,
}
use internal_package_contrac.ApiContract.Classifier.Matched.Itself.{compare_matched_member_itself}
use internal_package_contrac.ApiContract.Classifier.Overloads.{
  Grouping, group_member, group_overloads, is_overloadable, classify_groups, classify_keys,
}
use internal_package_contrac.ApiContract.Classifier.Classify.{
  Members, has, added_member, current_member_changes, current_changes, baseline_member_changes,
  baseline_changes, pushed_changes, new_grouping, change_le, classify_contract_changes,
}
use internal_package_contrac.ApiContract.Classifier.Classify.Impact.{worst_from-IsWorst}

-- A new member breaks nobody: it is no property, an optional one, or one of a new container.
abbrev pub IsHarmless : Members → NormalizedMember → Type 0
IsHarmless baseline m =
    (m.is_top_level_export ≡ true)
    ⊎ (m.kind ≡ "EnumMember")
    ⊎ (m.property_type_excerpt_text ≡ none)
    ⊎ (m.is_optional ≡ some true)
    ⊎ ((p : String) × (m.parent_canonical_reference ≡ some p) × (get p baseline ≡ none))

-- An added member is reported as compatible exactly if it breaks nobody.
pub added_member-compatible_iff :
    (baseline : Members) (m : NormalizedMember)
    → ((added_member baseline m).compatibility ≡ Compatibility.compatible) ↔ IsHarmless baseline m
unfolding added_member change_of
added_member-compatible_iff baseline m = ground (arith, eq_iff m.kind "EnumMember")

abbrev pub HasNoOverloads : Members → Type 0
HasNoOverloads = All (λ e. is_overloadable e.1 ≡ false)

group_overloads_none : (ms : Members) (s : Grouping) → HasNoOverloads ms → group_overloads ms s ≡ s
unfolding group_overloads group_member
group_overloads_none [] s h = refl
group_overloads_none ((k, m) ∷ ms) s (plain, h) = rw plain (group_overloads_none ms s h)

module _ (resolve : ResolveAssignability) (handled : List String) (baseline current : Members)
    (unique : HasUniqueKeys current)
    (kept : (e : String × NormalizedMember) → Memᴰ e baseline → Memᴰ e current) where
  current_changes-IsCompatible :
      (rest : Members)
      → ((e : String × NormalizedMember) → Memᴰ e rest → Memᴰ e current)
      → ((e : String × NormalizedMember)
          → Memᴰ e rest
          → get e.0 baseline ≡ none
          → IsHarmless baseline e.1)
      → All IsCompatible (current_changes resolve handled baseline rest)
  unfolding current_changes current_member_changes
  current_changes-IsCompatible [] h new = tt
  current_changes-IsCompatible ((k, m) ∷ rest) h new =
      let later =
        current_changes-IsCompatible rest (λ e i. h e (Memᴰ.tail i)) (λ e i. new e (Memᴰ.tail i)) in
      elim (Bool-cases (contains k handled)) [
        | inl there ↦ rw there later
        | inr absent ↦ elim (Option-cases (get k baseline)) [
          | inl added ↦
              rw (absent, added)
                (
                  (added_member-compatible_iff baseline m).1 (new (k, m) (Memᴰ.head refl) added),
                  later,
                )
          | inr (b, found) ↦
              rw (absent, found, same_member k m b (h (k, m) (Memᴰ.head refl)) found)
                (rw (compare_matched_member_itself m resolve) later)
        ]
      ]
    where
      same_member :
          (k : String) (m b : NormalizedMember)
          → Memᴰ (k, m) current
          → get k baseline ≡ some b
          → b ≡ m
      same_member k m b i found = cc (
        get_of_mem current unique i,
        get_of_mem current unique (kept (k, b) (mem_of_get k baseline found)),
      )

  baseline_changes_none :
      (rest : Members)
      → ((e : String × NormalizedMember) → Memᴰ e rest → Memᴰ e baseline)
      → baseline_changes resolve handled current rest ≡ []
  unfolding baseline_changes baseline_member_changes
  baseline_changes_none [] h = refl
  baseline_changes_none ((k, m) ∷ rest) h =
      let later = baseline_changes_none rest (λ e i. h e (Memᴰ.tail i)) in
      elim (Bool-cases (contains k handled)) [
        | inl there ↦ rw there later
        | inr absent ↦
            rw (absent, get_of_mem current unique (kept (k, m) (h (k, m) (Memᴰ.head refl))), has)
              later
      ]

pushed-IsCompatible :
    (resolve : ResolveAssignability) (baseline current : Members)
    → HasUniqueKeys current
    → HasNoOverloads current
    → ((e : String × NormalizedMember) → Memᴰ e baseline → Memᴰ e current)
    → ((e : String × NormalizedMember)
        → Memᴰ e current
        → get e.0 baseline ≡ none
        → IsHarmless baseline e.1)
    → All IsCompatible (pushed_changes resolve baseline current)
unfolding pushed_changes classify_groups classify_keys set_of
pushed-IsCompatible resolve baseline current unique plain kept new =
    let handled = (new_grouping baseline current).handled in
    rw
      (
        group_overloads_none baseline (record { groups = []; handled = [] })
            (All-of_mem _ baseline (λ e i. All-mem _ current plain (kept e i))),
        group_overloads_none current (record { groups = []; handled = [] }) plain,
      )
      (All-append IsCompatible _ _
        (current_changes-IsCompatible resolve [] baseline current unique kept current (λ e i. i)
          new)
        (rw (baseline_changes_none resolve [] baseline current unique kept baseline (λ e i. i)) tt))

impact_of_compatible : (c : Compatibility) → c ≡ Compatibility.compatible → impact_of c ≡ compatible
impact_of_compatible c h = ground arith

-- Where the current side names each reference once and has no overloadable member, every member of
-- the baseline is still there, and each new one breaks nobody, the impact is at most `compatible`.
pub added-compatible :
    (id_le : String → String → Bool) (resolve : ResolveAssignability) (baseline current : Members)
    → HasUniqueKeys current
    → HasNoOverloads current
    → ((e : String × NormalizedMember) → Memᴰ e baseline → Memᴰ e current)
    → ((e : String × NormalizedMember)
        → Memᴰ e current
        → get e.0 baseline ≡ none
        → IsHarmless baseline e.1)
    → let r = classify_contract_changes id_le resolve baseline current in
      (r.impact ≡ unchanged) ⊎ (r.impact ≡ compatible)
unfolding classify_contract_changes
added-compatible id_le resolve baseline current unique plain kept new =
    let pushed = pushed_changes resolve baseline current in
    let worst = worst_from-IsWorst (sort (change_le id_le) pushed) in
    elim worst.attained [
      | inl (_, e) ↦ inl e
      | inr (c, m, e) ↦ inr (
          e
          ∙ impact_of_compatible c.compatibility (
              All-mem IsCompatible pushed
                (pushed-IsCompatible resolve baseline current unique plain kept new)
                (mem_of_sort (change_le id_le) pushed m)))
    ]
