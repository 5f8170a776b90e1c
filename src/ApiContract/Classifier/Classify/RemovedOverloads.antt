-- ===== src/ApiContract/Classifier/Classify/RemovedOverloads.antt =====
-- Removing a whole overload set is breaking (scripts/api-contract/compatibility-classifier.ts).
use mathlib.Core.Option
use internal_package_contrac.Shared.{
  String, Bool, true, none, List, [], ◌∷◌, ◌++◌, ◌≡◌, refl, subst, Memᴰ, mem-append_left,
  mem-append_right, template,
}
use internal_package_contrac.Shared.Dicts.{get, keys, mem-set_of, mem-keys_of_get}
use internal_package_contrac.ApiContract.Evidence.{
  breaking, Compatibility, ChangeKind, ApiContractChange,
}
use internal_package_contrac.ApiContract.Members.{NormalizedMember}
use internal_package_contrac.ApiContract.Classifier.Changes.{ResolveAssignability, change_of}
use internal_package_contrac.ApiContract.Classifier.Overloads.{
  GroupKey, group_key, group_key_Eq, Groups, is_overloadable, classify_overload_set, classify_keys,
  classify_groups,
}
use internal_package_contrac.ApiContract.Classifier.Overloads.Lookup.{
  NoneInGroup, InGroup, AreFrom-group_overloads, HasGroup-of_mem, lacks_of_NoneInGroup,
}
use internal_package_contrac.ApiContract.Classifier.Classify.{
  Members, pushed_changes, classify_contract_changes, old_grouping, new_grouping,
}
use internal_package_contrac.ApiContract.Classifier.Classify.Removal.{breaking_of_pushed}

module _ (resolve : ResolveAssignability) (old new : Groups) where
  mem-classify_keys :
      {key : GroupKey} {c : ApiContractChange} (ks : List GroupKey)
      → Memᴰ key ks
      → Memᴰ c (
          classify_overload_set resolve
            (Option.get_or (get key old) [])
            (Option.get_or (get key new) []))
      → Memᴰ c (classify_keys resolve old new ks)
  unfolding classify_keys
  mem-classify_keys [] i m = elim i [ ]
  mem-classify_keys {key} {c} (k ∷ ks) (Memᴰ.head e) m =
      mem-append_left (classify_keys resolve old new ks) (
        subst
          (λ z. Memᴰ c (
            classify_overload_set resolve (Option.get_or (get z old) [])
              (Option.get_or (get z new) [])))
          e m)
  mem-classify_keys (k ∷ ks) (Memᴰ.tail i) m = mem-append_right _ (mem-classify_keys ks i m)

-- The change that a removed overload set is reported by, at its first member.
abbrev pub removed_export : NormalizedMember → ApiContractChange
removed_export first =
    change_of first ChangeKind.export_removed Compatibility.breaking
      (template ("Removed " ∷ first.scoped_name ∷ "." ∷ [])) ""

removed_set :
    (resolve : ResolveAssignability) (first : NormalizedMember) (rest : List NormalizedMember)
    → Memᴰ (removed_export first) (classify_overload_set resolve (first ∷ rest) [])
unfolding classify_overload_set
removed_set resolve first rest = Memᴰ.head refl

removed_export-breaking :
    (first : NormalizedMember) → (removed_export first).compatibility ≡ Compatibility.breaking
unfolding change_of
removed_export-breaking first = refl

-- An overload set of the baseline, none of whose members the current side has, makes the result
-- breaking: among the changes is the removal of a member that the baseline has in that set.
pub removed_overloads-breaking :
    (id_le : String → String → Bool) (resolve : ResolveAssignability) (baseline current : Members)
    (k : String) (m : NormalizedMember)
    → Memᴰ (k, m) baseline
    → is_overloadable m ≡ true
    → NoneInGroup (group_key m) current
    → let r = classify_contract_changes id_le resolve baseline current in
      ((first : NormalizedMember) × InGroup (group_key m) baseline first
        × Memᴰ (removed_export first) r.changes)
      × (r.impact ≡ breaking)
removed_overloads-breaking id_le resolve baseline current k m i over gone =
    let key = group_key m in
    let old = (old_grouping baseline).groups in
    let new = (new_grouping baseline current).groups in
    let (first, rest, there) =
      HasGroup-of_mem baseline (record { groups = []; handled = [] }) i over in
    let absent : get key new ≡ none =
      lacks_of_NoneInGroup key current _ gone (unfold get in refl) in
    let reported : Memᴰ (removed_export first) (
        classify_overload_set resolve (Option.get_or (get key old) [])
          (Option.get_or (get key new) [])) =
      rw (there, absent) (removed_set resolve first rest) in
    let listed =
      mem-classify_keys resolve old new _
        (mem-set_of (keys old ++ keys new)
          (mem-append_left (keys new) (mem-keys_of_get key old there)))
        reported in
    let pushed : Memᴰ (removed_export first) (pushed_changes resolve baseline current) =
      (unfold pushed_changes classify_groups in mem-append_left _ listed) in
    let (found, worst) =
      breaking_of_pushed id_le resolve baseline current pushed (removed_export-breaking first) in
    let from =
      AreFrom-group_overloads baseline baseline (record { groups = []; handled = [] })
        (λ key xs x e i. absurd (unfold get in cc e)) (λ e i. i) in
    ((first, from key (first ∷ rest) first there (Memᴰ.head refl), found), worst)
