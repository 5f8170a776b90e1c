-- ===== src/ApiContract/Check/Required.antt =====
-- The level that all targets together require, and when it is satisfied (scripts/api-contract/check.ts).
use Prim.Native.Nat.{◌≤◌}
use internal_package_contrac.Shared.{
  String, Bool, true, false, Option, none, some, List, [], ◌∷◌, filter, any, ◌≡◌, ◌↔◌, ◌⊎◌, refl,
  sym, subst, arith, ◌===◌, option_Eq, if◌then◌else◌, Memᴰ, All, All-mem, Bool-cases, inl, inr,
  eq_of_same, ap,
}
use internal_package_contrac.ApiContract.Evidence.{
  RequiredReleaseLevel, minor, major, ApiContractTargetResult,
}
use internal_package_contrac.ApiContract.Levels.{max_level, level_rank, level_Eq}
use internal_package_contrac.ApiContract.Semver.{Version, parse_version, is_pre_one}
use internal_package_contrac.ApiContract.Semver.Order.{Releases, declared_or_bumped_iff}
use internal_package_contrac.ApiContract.Changesets.{DeclaredRelease}
use internal_package_contrac.ApiContract.Check.{
  worst_level, aggregate_level, is_known, is_unknown, collect_evidence, first_baseline_version,
  is_satisfied, reached_minimum, minimum_for,
}

-- No level, or one that `r` covers.
abbrev AtMost : Option RequiredReleaseLevel → RequiredReleaseLevel → Type 0
AtMost none r = Unit
AtMost (some l) r = level_rank l ≤ level_rank r

max_level-AtMost :
    (a b : Option RequiredReleaseLevel) (r : RequiredReleaseLevel)
    → AtMost (max_level a b) r
    → AtMost a r × AtMost b r
unfolding max_level
max_level-AtMost a b r h = ground arith

AtMost-self : (a : Option RequiredReleaseLevel) (r : RequiredReleaseLevel) → a ≡ some r → AtMost a r
AtMost-self a r p = rw p (omega arith)

AtMost-level :
    (a : Option RequiredReleaseLevel) (l r : RequiredReleaseLevel)
    → AtMost a r
    → a ≡ some l
    → level_rank l ≤ level_rank r
AtMost-level a l r h p = rw p at h

worst_level-AtMost :
    (worst : Option RequiredReleaseLevel) (results : List ApiContractTargetResult)
    (r : RequiredReleaseLevel)
    → AtMost (worst_level worst results) r
    → AtMost worst r × All (λ t. AtMost t.required_level r) results
unfolding worst_level
worst_level-AtMost worst [] r h = (h, tt)
worst_level-AtMost worst (t ∷ results) r h =
    let (here, later) = worst_level-AtMost (max_level worst t.required_level) results r h in
    let (before, this) = max_level-AtMost worst t.required_level r here in (before, (this, later))

filter-mem :
    {t : ApiContractTargetResult} (p : ApiContractTargetResult → Bool)
    (results : List ApiContractTargetResult)
    → Memᴰ t results
    → p t ≡ true
    → Memᴰ t (filter p results)
filter-mem p [] m h = elim m [ ]
filter-mem {t} p (x ∷ results) (Memᴰ.head e) h =
    let kept : p x ≡ true = subst (λ z. p z ≡ true) e h in rw kept (Memᴰ.head e)
filter-mem p (x ∷ results) (Memᴰ.tail m) h = elim (Bool-cases (p x)) [
  | inl kept ↦ rw kept (Memᴰ.tail (filter-mem p results m h))
  | inr dropped ↦ rw dropped (filter-mem p results m h)
]

unknown-mem :
    {t : ApiContractTargetResult} (results : List ApiContractTargetResult)
    → Memᴰ t results
    → is_unknown t.impact ≡ true
    → any (λ r. is_unknown r.impact) results ≡ true
unknown-mem [] m h = elim m [ ]
unknown-mem (x ∷ results) (Memᴰ.head e) h =
    let here : is_unknown x.impact ≡ true = subst (λ z. is_unknown z.impact ≡ true) e h in
    ground (arith, here)
unknown-mem (x ∷ results) (Memᴰ.tail m) h = ground (arith, unknown-mem results m h)

top_level : Bool → RequiredReleaseLevel
top_level pre_one = if pre_one then minor else major

module _ (pre_one : Bool) (results : List ApiContractTargetResult) (r : RequiredReleaseLevel) where
  aggregate_parts :
      aggregate_level pre_one results ≡ some r
      → (worst_level none (filter is_known results) ≡ some r)
        × ((any (λ t. is_unknown t.impact) results ≡ false) ⊎ (r ≡ top_level pre_one))
  unfolding aggregate_level top_level
  aggregate_parts h = elim (Bool-cases (any (λ t. is_unknown t.impact) results)) [
    | inr all_known ↦ (rw (all_known, aggregate_level) at h, inl all_known)
    | inl unsure ↦
        elim (Bool-cases (
          worst_level none (filter is_known results) === some (if pre_one then minor else major))) [
            | inr lower ↦ absurd (cc (rw (unsure, lower, aggregate_level) at h))
            | inl top ↦
                let worst = rw (unsure, top, aggregate_level) at h in
                (
                  worst,
                  inr (
                      cc (
                        worst,
                        eq_of_same (worst_level none (filter is_known results))
                            (some (if pre_one then minor else major)) top,
                      )),
                )
          ]
  ]

  -- A level that is required of the release covers every target: it is at least the level of each
  -- target whose changes could be classified, and where some target's could not, it is the largest
  -- level that there is, which below 1.0.0 is `minor` and from then on `major`.
  pub aggregate_level-covers :
      aggregate_level pre_one results ≡ some r
      → (t : ApiContractTargetResult) → Memᴰ t results
      → ((l : RequiredReleaseLevel)
          → is_known t ≡ true
          → t.required_level ≡ some l
          → level_rank l ≤ level_rank r)
        × (is_known t ≡ false → r ≡ (if pre_one then minor else major))
  unfolding top_level
  aggregate_level-covers h t m =
      let (worst, unsure) = aggregate_parts h in
      (
        λ l known level.
            AtMost-level t.required_level l r
              (All-mem (λ s. AtMost s.required_level r) _
                ((worst_level-AtMost none (filter is_known results) r (AtMost-self _ r worst)).1)
                (filter-mem is_known results m known))
              level,
        λ unknown. elim unsure [
          | inr top ↦ top
          | inl all_known ↦ absurd (cc (all_known, unknown-mem results m (ground (arith, unknown))))
        ],
      )

satisfied_iff :
    (version was : String) (declared : RequiredReleaseLevel)
    (required : Option RequiredReleaseLevel) (b w : Version)
    → parse_version version ≡ some w
    → parse_version was ≡ some b
    → (is_satisfied declared required (reached_minimum version (minimum_for (some was) required))
        ≡ some true)
      ↔ ((r : RequiredReleaseLevel) × (required ≡ some r)
          × ((level_rank r ≤ level_rank declared) ⊎ Releases r b w))
satisfied_iff version was declared none b w current readable = (λ h. cc, λ h. cc (h.1))
satisfied_iff version was declared (some r) b w current readable =
    let (enough, only) = declared_or_bumped_iff declared r b w in
    rw (current, readable)
      (
        λ h. (r, refl, enough (cc)),
        λ h.
            let same : r ≡ h.0 = cc (h.1) in
            ap some (
              only (
                subst (λ z. (level_rank z ≤ level_rank declared) ⊎ Releases z b w) (sym same) h.2)),
      )

-- Where the first target with a baseline has the readable version `b` and the package has the
-- readable version `w`, the release is satisfied exactly when a level is known to be required and the
-- changesets declare at least that level or `w` is a release of at least that level after `b`.
pub collect_evidence_satisfied_iff :
    (version was : String) (declared : DeclaredRelease) (results : List ApiContractTargetResult)
    (b w : Version)
    → parse_version version ≡ some w
    → first_baseline_version results ≡ some was
    → parse_version was ≡ some b
    → ((collect_evidence version declared results).changesets.satisfied ≡ some true) ↔ (
        (r : RequiredReleaseLevel) × (aggregate_level (is_pre_one (parse_version version)) results
          ≡ some r)
        × ((level_rank r ≤ level_rank declared.declared_level) ⊎ Releases r b w))
unfolding collect_evidence
collect_evidence_satisfied_iff version was declared results b w current first readable = rw first (
    satisfied_iff version was declared.declared_level
      (aggregate_level (is_pre_one (parse_version version)) results) b w current readable)
