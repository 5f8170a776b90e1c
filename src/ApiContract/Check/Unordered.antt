-- ===== src/ApiContract/Check/Unordered.antt =====
-- The order of the targets (scripts/api-contract/check.ts).
use mathlib.Core.List.{Permᴰ}
use internal_package_contrac.Shared.{
  Bool, Option, none, List, ◌∷◌, filter, any, ◌≡◌, refl, sym, ap, ◌∙◌, arith, Bool-cases, inl, inr,
  if◌then◌else◌,
}
use internal_package_contrac.ApiContract.Evidence.{RequiredReleaseLevel, ApiContractTargetResult}
use internal_package_contrac.ApiContract.Levels.{max_level}
use internal_package_contrac.ApiContract.Levels.Laws.{max_level_swap}
use internal_package_contrac.ApiContract.Check.{worst_level, aggregate_level, is_known, is_unknown}

-- One more target before the known ones.
abbrev with_target :
    Option RequiredReleaseLevel → ApiContractTargetResult → Option RequiredReleaseLevel
with_target worst t = if is_known t then max_level worst t.required_level else worst

worst_level-filter :
    (worst : Option RequiredReleaseLevel) (t : ApiContractTargetResult)
    (results : List ApiContractTargetResult)
    → worst_level worst (filter is_known (t ∷ results))
      ≡ worst_level (with_target worst t) (filter is_known results)
unfolding worst_level
worst_level-filter worst t results = elim (Bool-cases (is_known t)) [
  | inl known ↦ rw known refl
  | inr unknown ↦ rw unknown refl
]

with_target_swap :
    (worst : Option RequiredReleaseLevel) (s t : ApiContractTargetResult)
    → with_target (with_target worst s) t ≡ with_target (with_target worst t) s
with_target_swap worst s t = elim (Bool-cases (is_known s)) [
  | inl known_s ↦ elim (Bool-cases (is_known t)) [
    | inl known_t ↦ rw (known_s, known_t) (max_level_swap worst s.required_level t.required_level)
    | inr unknown_t ↦ rw (known_s, unknown_t) refl
  ]
  | inr unknown_s ↦ rw unknown_s refl
]

two_targets :
    (worst : Option RequiredReleaseLevel) (s t : ApiContractTargetResult)
    (results : List ApiContractTargetResult)
    → worst_level worst (filter is_known (s ∷ t ∷ results))
      ≡ worst_level (with_target (with_target worst s) t) (filter is_known results)
two_targets worst s t results =
    worst_level-filter worst s (t ∷ results) ∙ worst_level-filter (with_target worst s) t results

worst_level_unordered :
    {xs ys : List ApiContractTargetResult} (worst : Option RequiredReleaseLevel)
    → Permᴰ xs ys
    → worst_level worst (filter is_known xs) ≡ worst_level worst (filter is_known ys)
worst_level_unordered worst Permᴰ.nil = refl
worst_level_unordered worst (Permᴰ.cons {a = s} {b = t} {l₁ = xs} {l₂ = ys} p h) =
    worst_level-filter worst s xs
    ∙ (worst_level_unordered (with_target worst s) h
        ∙ (ap (λ z. worst_level (with_target worst z) (filter is_known ys)) p
            ∙ sym (worst_level-filter worst t ys)))
worst_level_unordered worst (Permᴰ.swap {a = s} {b = t} {a' = u} {b' = v} {l = xs} p q) =
    two_targets worst s t xs
    ∙ (ap (λ z. worst_level z (filter is_known xs))
          (with_target_swap worst s t
            ∙ (ap (λ z. with_target (with_target worst z) s) q
                ∙ ap (λ z. with_target (with_target worst u) z) p))
        ∙ sym (two_targets worst u v xs))
worst_level_unordered worst (Permᴰ.trans h k) =
    worst_level_unordered worst h ∙ worst_level_unordered worst k

any_unordered :
    {xs ys : List ApiContractTargetResult}
    → Permᴰ xs ys
    → any (λ r. is_unknown r.impact) xs ≡ any (λ r. is_unknown r.impact) ys
any_unordered Permᴰ.nil = refl
any_unordered (Permᴰ.cons {l₁ = xs} p h) = cc (ap (λ z. is_unknown z.impact) p, any_unordered h)
any_unordered (Permᴰ.swap p q) =
    ground (arith, ap (λ z. is_unknown z.impact) p, ap (λ z. is_unknown z.impact) q)
any_unordered (Permᴰ.trans h k) = any_unordered h ∙ any_unordered k

-- The level that all targets require does not depend on the order in which they are checked.
pub aggregate_level_unordered :
    (pre_one : Bool) {xs ys : List ApiContractTargetResult}
    → Permᴰ xs ys
    → aggregate_level pre_one xs ≡ aggregate_level pre_one ys
unfolding aggregate_level
aggregate_level_unordered pre_one h = cc (worst_level_unordered none h, any_unordered h)
