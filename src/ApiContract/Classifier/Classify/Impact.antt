-- ===== src/ApiContract/Classifier/Classify/Impact.antt =====
-- The impact is the worst one, and the changes are sorted
-- (scripts/api-contract/compatibility-classifier.ts).
use mathlib.Core.List.{Perm}
use internal_package_contrac.Shared.{
  String, Bool, List, [], ◌∷◌, ◌≡◌, ◌≤◌, ◌⊎◌, inl, inr, refl, Memᴰ, All, if◌then◌else◌, ltb, arith,
  ◌∙◌, ap,
}
use internal_package_contrac.Shared.Sorting.{
  IsTotalPreorder, IsSorted, sort, sort-perm, sort-IsSorted,
}
use internal_package_contrac.ApiContract.Evidence.{
  ContractImpact, unchanged, Compatibility, ApiContractChange,
}
use internal_package_contrac.ApiContract.Classifier.Changes.{
  ResolveAssignability, impact_rank, impact_of,
}
use internal_package_contrac.ApiContract.Classifier.Classify.{
  Members, worst_from, change_le, pushed_changes, classify_contract_changes,
}

-- `impact` is the worst of `start` and the impacts of the changes.
record IsWorstFrom (start : ContractImpact) (changes : List ApiContractChange)
    (impact : ContractImpact) : Type 0 where
  starts : impact_rank start ≤ impact_rank impact
  bounds : All (λ c. impact_rank (impact_of c.compatibility) ≤ impact_rank impact) changes
  attained :
      (impact ≡ start)
      ⊎ ((c : ApiContractChange) × Memᴰ c changes × (impact ≡ impact_of c.compatibility))

abbrev worse : ContractImpact → ContractImpact → ContractImpact
worse a b = if ltb (impact_rank a) (impact_rank b) then b else a

worse_bounds :
    (a b : ContractImpact)
    → (impact_rank a ≤ impact_rank (worse a b)) × (impact_rank b ≤ impact_rank (worse a b))
worse_bounds a b = ground arith

worse_attained : (a b : ContractImpact) → (worse a b ≡ a) ⊎ (worse a b ≡ b)
worse_attained a b = ground arith

worst_cons :
    (start : ContractImpact) (change : ApiContractChange) (changes : List ApiContractChange)
    {impact : ContractImpact}
    → IsWorstFrom (worse start (impact_of change.compatibility)) changes impact
    → IsWorstFrom start (change ∷ changes) impact
worst_cons start change changes h =
    let (left, right) = worse_bounds start (impact_of change.compatibility) in
    record {
      starts = omega (arith, left, h.starts);
      bounds = (omega (arith, right, h.starts), h.bounds);
      attained = elim h.attained [
        | inl e ↦ elim (worse_attained start (impact_of change.compatibility)) [
          | inl l ↦ inl (e ∙ l)
          | inr r ↦ inr (change, Memᴰ.head refl, e ∙ r)
        ]
        | inr (c, m, e) ↦ inr (c, Memᴰ.tail m, e)
      ];
    }

worst_from-IsWorstFrom :
    (start : ContractImpact) (changes : List ApiContractChange)
    → IsWorstFrom start changes (worst_from start changes)
unfolding worst_from
worst_from-IsWorstFrom start [] = record { starts = omega arith; bounds = tt; attained = inl refl }
worst_from-IsWorstFrom start (change ∷ changes) =
    worst_cons start change changes
      (worst_from-IsWorstFrom (worse start (impact_of change.compatibility)) changes)

impact_of-positive : (c : Compatibility) → 1 ≤ impact_rank (impact_of c)
impact_of-positive c = ground arith

-- What is promised of a result: every change bounds the impact from below, the impact is that of
-- some change, and there is none exactly if the impact is `unchanged`.
pub record IsWorst (changes : List ApiContractChange) (impact : ContractImpact) : Type 0 where
  pub bounds : All (λ c. impact_rank (impact_of c.compatibility) ≤ impact_rank impact) changes
  pub attained :
      ((changes ≡ []) × (impact ≡ unchanged))
      ⊎ ((c : ApiContractChange) × Memᴰ c changes × (impact ≡ impact_of c.compatibility))

pub worst_from-IsWorst :
    (changes : List ApiContractChange) → IsWorst changes (worst_from unchanged changes)
worst_from-IsWorst [] = record { bounds = tt; attained = inl (refl, unfold worst_from in refl) }
worst_from-IsWorst (c ∷ cs) =
    let h = worst_from-IsWorstFrom unchanged (c ∷ cs) in
    record {
      bounds = h.bounds;
      attained = elim h.attained [
        | inl e ↦
            absurd (omega (arith, impact_of-positive c.compatibility, h.bounds.0, ap impact_rank e))
        | inr found ↦ inr found
      ];
    }

module _ (id_le : String → String → Bool) (resolve : ResolveAssignability) where
  -- Where the comparison of texts is a total preorder, the changes are those which were pushed, in
  -- the order of their ids, and the impact is the worst of theirs.
  pub classify_contract_changes_result :
      IsTotalPreorder id_le
      → (baseline current : Members)
      → let r = classify_contract_changes id_le resolve baseline current in
        IsSorted (change_le id_le) r.changes
        × Perm r.changes (pushed_changes resolve baseline current)
        × IsWorst r.changes r.impact
  unfolding classify_contract_changes
  classify_contract_changes_result order baseline current =
      let pushed = pushed_changes resolve baseline current in
      (
        sort-IsSorted (change_le id_le)
            (record {
              total = λ a b. order.total a.id b.id;
              trans = λ a b c. order.trans a.id b.id c.id;
            })
            pushed,
        sort-perm (change_le id_le) pushed,
        worst_from-IsWorst (sort (change_le id_le) pushed),
      )
