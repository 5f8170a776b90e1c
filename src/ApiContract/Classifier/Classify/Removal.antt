-- ===== src/ApiContract/Classifier/Classify/Removal.antt =====
-- Removing a part of a contract is breaking (scripts/api-contract/compatibility-classifier.ts).
use internal_package_contrac.Shared.{
  String, Bool, true, false, none, List, [], ◌∷◌, ◌≡◌, sym, ap, ◌∙◌, Memᴰ, Bool-cases, inl, inr,
  string_Eq, All, All-mem, mem-append_right, ◌≤◌, arith, ◌≢◌,
}
use internal_package_contrac.Shared.Dicts.{get, contains, HasUniqueKeys, get_of_mem, contains-mem}
use internal_package_contrac.Shared.Sorting.{sort, mem-sort}
use internal_package_contrac.ApiContract.Evidence.{
  ContractImpact, breaking, Compatibility, ApiContractChange,
}
use internal_package_contrac.ApiContract.Members.{NormalizedMember}
use internal_package_contrac.ApiContract.Classifier.Changes.{
  ResolveAssignability, impact_rank, impact_of, change_of,
}
use internal_package_contrac.ApiContract.Classifier.Overloads.{is_overloadable}
use internal_package_contrac.ApiContract.Classifier.Overloads.Handled.{handled_of_group_overloads}
use internal_package_contrac.ApiContract.Classifier.Classify.{
  Members, has, removed_member, baseline_member_changes, baseline_changes, pushed_changes,
  new_grouping, change_le, classify_contract_changes,
}
use internal_package_contrac.ApiContract.Classifier.Classify.Impact.{worst_from-IsWorst}

-- The map that the normalizer builds: each member under its own reference, once.
pub record IsKeyed (members : Members) : Type 0 where
  pub unique : HasUniqueKeys members
  pub own : All (λ e. e.1.canonical_reference ≡ e.0) members

removed_member-breaking :
    (m : NormalizedMember) → (removed_member m).compatibility ≡ Compatibility.breaking
unfolding removed_member change_of
removed_member-breaking m = ground arith

breaking_of_rank :
    (impact : ContractImpact)
    → impact_rank (impact_of Compatibility.breaking) ≤ impact_rank impact
    → impact ≡ breaking
breaking_of_rank impact h = ground arith

-- A breaking change among those pushed makes the result breaking, and stands in it.
pub breaking_of_pushed :
    (id_le : String → String → Bool) (resolve : ResolveAssignability) (baseline current : Members)
    {c : ApiContractChange}
    → Memᴰ c (pushed_changes resolve baseline current)
    → c.compatibility ≡ Compatibility.breaking
    → let r = classify_contract_changes id_le resolve baseline current in
      Memᴰ c r.changes × (r.impact ≡ breaking)
unfolding classify_contract_changes
breaking_of_pushed id_le resolve baseline current {c} m h =
    let i = mem-sort (change_le id_le) (pushed_changes resolve baseline current) m in
    let w = worst_from-IsWorst (sort (change_le id_le) (pushed_changes resolve baseline current)) in
    let bound = All-mem _ _ w.bounds i in (i, breaking_of_rank _ (rw h at bound))

module _ (resolve : ResolveAssignability) (handled : List String) (current : Members) where
  mem-baseline_changes :
      {k : String} {m : NormalizedMember} (rest : Members)
      → Memᴰ (k, m) rest
      → contains k handled ≡ false
      → get k current ≡ none
      → Memᴰ (removed_member m) (baseline_changes resolve handled current rest)
  unfolding baseline_changes baseline_member_changes
  mem-baseline_changes [] i h g = elim i [ ]
  mem-baseline_changes {k} {m} ((j, n) ∷ rest) (Memᴰ.head e) h g =
      let here : j ≡ k = ap (λ x. x.0) (sym e) in
      let member : n ≡ m = ap (λ x. x.1) (sym e) in
      rw (here, h, g, has) (Memᴰ.head (ap removed_member (sym member)))
  mem-baseline_changes ((j, n) ∷ rest) (Memᴰ.tail i) h g =
      mem-append_right (baseline_member_changes resolve handled current j n)
        (mem-baseline_changes rest i h g)

-- A reference that no overloadable member has is not handled.
pub unhandled :
    (baseline current : Members) {k : String}
    → ((e : String × NormalizedMember)
        → Memᴰ e baseline
        → is_overloadable e.1 ≡ true
        → e.1.canonical_reference ≢ k)
    → ((e : String × NormalizedMember)
        → Memᴰ e current
        → is_overloadable e.1 ≡ true
        → e.1.canonical_reference ≢ k)
    → contains k (new_grouping baseline current).handled ≡ false
unhandled baseline current {k} old new =
    elim (Bool-cases (contains k (new_grouping baseline current).handled)) [
      | inr absent ↦ absent
      | inl there ↦ elim (handled_of_group_overloads current _ (contains-mem k _ there)) [
        | inr (e, i, over, same) ↦ absurd (new e i over same)
        | inl before ↦ elim (handled_of_group_overloads baseline _ before) [
          | inr (e, i, over, same) ↦ absurd (old e i over same)
          | inl start ↦ elim start [ ]
        ]
      ]
    ]

-- In a keyed map, no overloadable member has the reference of one that is not.
pub not_of_plain :
    (members : Members) (k : String) (m : NormalizedMember)
    → IsKeyed members
    → Memᴰ (k, m) members
    → is_overloadable m ≡ false
    → (e : String × NormalizedMember) → Memᴰ e members
    → is_overloadable e.1 ≡ true
    → e.1.canonical_reference ≢ k
not_of_plain members k m keyed i plain e j over same =
    let key : e.0 ≡ k = sym (All-mem _ members keyed.own j) ∙ same in
    cc (get_of_mem members keyed.unique i, get_of_mem {k = e.0} {v = e.1} members keyed.unique j)

-- Nor has one a reference that the map lacks.
not_of_absent :
    (members : Members) (k : String)
    → IsKeyed members
    → get k members ≡ none
    → (e : String × NormalizedMember) → Memᴰ e members
    → is_overloadable e.1 ≡ true
    → e.1.canonical_reference ≢ k
not_of_absent members k keyed gone e j over same =
    let key : e.0 ≡ k = sym (All-mem _ members keyed.own j) ∙ same in
    cc (get_of_mem {k = e.0} {v = e.1} members keyed.unique j)

-- In two maps keyed by the members' own references, each once: a member that is no overload, and
-- whose reference the current side lacks, makes the result breaking: its removal is among the changes.
pub removed-breaking :
    (id_le : String → String → Bool) (resolve : ResolveAssignability) (baseline current : Members)
    (k : String) (m : NormalizedMember)
    → IsKeyed baseline
    → IsKeyed current
    → Memᴰ (k, m) baseline
    → is_overloadable m ≡ false
    → get k current ≡ none
    → let r = classify_contract_changes id_le resolve baseline current in
      Memᴰ (removed_member m) r.changes × (r.impact ≡ breaking)
removed-breaking id_le resolve baseline current k m old new i plain gone =
    breaking_of_pushed id_le resolve baseline current (pushed) (removed_member-breaking m)
  where
    pushed : Memᴰ (removed_member m) (pushed_changes resolve baseline current)
    pushed =
        unfold pushed_changes in
        mem-append_right _ (
          mem-append_right _ (
            mem-baseline_changes resolve _ current baseline i
              (unhandled baseline current (not_of_plain baseline k m old i plain)
                (not_of_absent current k new gone))
              gone))
