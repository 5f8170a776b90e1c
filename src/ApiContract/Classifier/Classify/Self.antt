-- ===== src/ApiContract/Classifier/Classify/Self.antt =====
-- A contract compared with itself (scripts/api-contract/compatibility-classifier.ts).
use internal_package_contrac.Shared.{
  String, List, [], ◌∷◌, ◌≡◌, refl, Memᴰ, Bool-cases, inl, inr, string_Eq, Bool,
}
use internal_package_contrac.Shared.Dicts.{contains, HasUniqueKeys, get_of_mem}
use internal_package_contrac.Shared.Sorting.{sort}
use internal_package_contrac.ApiContract.Evidence.{unchanged}
use internal_package_contrac.ApiContract.Members.{NormalizedMember}
use internal_package_contrac.ApiContract.Classifier.Changes.{ResolveAssignability}
use internal_package_contrac.ApiContract.Classifier.Matched.Itself.{compare_matched_member_itself}
use internal_package_contrac.ApiContract.Classifier.Overloads.Handled.{
  group_overloads_groups, classify_groups_itself,
}
use internal_package_contrac.ApiContract.Classifier.Classify.{
  Members, has, current_member_changes, current_changes, baseline_member_changes, baseline_changes,
  worst_from, pushed_changes, old_grouping, new_grouping, classify_contract_changes,
}

module _ (resolve : ResolveAssignability) (handled : List String) (members : Members)
    (unique : HasUniqueKeys members) where
  current_changes_itself :
      (rest : Members)
      → ((e : String × NormalizedMember) → Memᴰ e rest → Memᴰ e members)
      → current_changes resolve handled members rest ≡ []
  unfolding current_changes current_member_changes
  current_changes_itself [] h = refl
  current_changes_itself ((k, m) ∷ rest) h =
      let later = current_changes_itself rest (λ e i. h e (Memᴰ.tail i)) in
      elim (Bool-cases (contains k handled)) [
        | inl there ↦ rw there later
        | inr absent ↦
            rw (absent, get_of_mem members unique (h (k, m) (Memᴰ.head refl)))
              (rw (compare_matched_member_itself m resolve) later)
      ]

  baseline_changes_itself :
      (rest : Members)
      → ((e : String × NormalizedMember) → Memᴰ e rest → Memᴰ e members)
      → baseline_changes resolve handled members rest ≡ []
  unfolding baseline_changes baseline_member_changes
  baseline_changes_itself [] h = refl
  baseline_changes_itself ((k, m) ∷ rest) h =
      let later = baseline_changes_itself rest (λ e i. h e (Memᴰ.tail i)) in
      elim (Bool-cases (contains k handled)) [
        | inl there ↦ rw there later
        | inr absent ↦ rw (absent, get_of_mem members unique (h (k, m) (Memᴰ.head refl)), has) later
      ]

-- A contract that names each reference once and did not change has no change and the impact `unchanged`, whatever the callback
-- answers and however texts are ordered.
pub classify_contract_changes_itself :
    (id_le : String → String → Bool) (resolve : ResolveAssignability) (members : Members)
    → HasUniqueKeys members
    → classify_contract_changes id_le resolve members members
      ≡ record { changes = []; impact = unchanged }
unfolding classify_contract_changes pushed_changes sort worst_from
classify_contract_changes_itself id_le resolve members unique =
    let old = old_grouping members in
    let new = new_grouping members members in
    rw (
      group_overloads_groups members (record { groups = []; handled = [] })
          (record { groups = []; handled = old.handled }) refl,
      classify_groups_itself resolve new.groups,
      current_changes_itself resolve new.handled members unique members (λ e i. i),
      baseline_changes_itself resolve new.handled members unique members (λ e i. i),
    )
