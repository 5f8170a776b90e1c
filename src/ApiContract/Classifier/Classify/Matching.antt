-- ===== src/ApiContract/Classifier/Classify/Matching.antt =====
-- Members on both sides (scripts/api-contract/compatibility-classifier.ts).
use internal_package_contrac.Shared.{
  String, Bool, false, some, List, [], ◌∷◌, ◌≡◌, ◌≤◌, sym, ap, Memᴰ, string_Eq, All-mem,
  mem-append_left, mem-append_right,
}
use internal_package_contrac.Shared.Dicts.{get, contains, get_of_mem}
use internal_package_contrac.Shared.Sorting.{sort, mem-sort}
use internal_package_contrac.ApiContract.Evidence.{ApiContractChange}
use internal_package_contrac.ApiContract.Members.{NormalizedMember}
use internal_package_contrac.ApiContract.Classifier.Changes.{
  ResolveAssignability, impact_rank, impact_of,
}
use internal_package_contrac.ApiContract.Classifier.Matched.{compare_matched_member}
use internal_package_contrac.ApiContract.Classifier.Overloads.{is_overloadable}
use internal_package_contrac.ApiContract.Classifier.Classify.{
  Members, current_member_changes, current_changes, baseline_changes, pushed_changes, new_grouping,
  change_le, classify_contract_changes,
}
use internal_package_contrac.ApiContract.Classifier.Classify.Impact.{worst_from-IsWorst}
use internal_package_contrac.ApiContract.Classifier.Classify.Removal.{
  IsKeyed, unhandled, not_of_plain,
}

mem-current_changes :
    (resolve : ResolveAssignability) (handled : List String) (baseline : Members) {k : String}
    {old new : NormalizedMember} {c : ApiContractChange} (rest : Members)
    → Memᴰ (k, new) rest
    → contains k handled ≡ false
    → get k baseline ≡ some old
    → Memᴰ c (compare_matched_member old new resolve)
    → Memᴰ c (current_changes resolve handled baseline rest)
unfolding current_changes current_member_changes
mem-current_changes resolve handled baseline [] i h g m = elim i [ ]
mem-current_changes resolve handled baseline {k} {old} {new} {c} ((j, n) ∷ rest) (Memᴰ.head e) h g
      m =
    let here : j ≡ k = ap (λ x. x.0) (sym e) in
    let member : n ≡ new = ap (λ x. x.1) (sym e) in
    mem-append_left (current_changes resolve handled baseline rest) (rw (here, h, g, member) m)
mem-current_changes resolve handled baseline ((j, n) ∷ rest) (Memᴰ.tail i) h g m =
    mem-append_right (current_member_changes resolve handled baseline j n)
      (mem-current_changes resolve handled baseline rest i h g m)

-- In two maps keyed by the members' own references, each once: of a member that both sides have
-- under one reference, and that is no overload on either, every change found is reported, and the impact is at least as bad: an `unknown` is never downgraded.
pub matched_changes_reported :
    (id_le : String → String → Bool) (resolve : ResolveAssignability) (baseline current : Members)
    (k : String) (old new : NormalizedMember) (c : ApiContractChange)
    → IsKeyed baseline
    → IsKeyed current
    → Memᴰ (k, old) baseline
    → Memᴰ (k, new) current
    → is_overloadable old ≡ false
    → is_overloadable new ≡ false
    → Memᴰ c (compare_matched_member old new resolve)
    → let r = classify_contract_changes id_le resolve baseline current in
      Memᴰ c r.changes × (impact_rank (impact_of c.compatibility) ≤ impact_rank r.impact)
unfolding classify_contract_changes
matched_changes_reported id_le resolve baseline current k old new c kb kc i j plain plain' m =
    let reported = mem-sort (change_le id_le) (pushed_changes resolve baseline current) pushed in
    let worst =
      worst_from-IsWorst (sort (change_le id_le) (pushed_changes resolve baseline current)) in
    (reported, All-mem _ _ worst.bounds reported)
  where
    pushed : Memᴰ c (pushed_changes resolve baseline current)
    pushed =
        unfold pushed_changes in
        mem-append_right _ (
          mem-append_left
            (baseline_changes resolve (new_grouping baseline current).handled current baseline)
            (mem-current_changes resolve (new_grouping baseline current).handled baseline current j
              (unhandled baseline current (not_of_plain baseline k old kb i plain)
                (not_of_plain current k new kc j plain'))
              (get_of_mem baseline kb.unique i) m))
