-- ===== src/Checks/SurfaceContract/Verdict.antt =====
-- The check of the surface and its policy together (scripts/surface-contract/run.ts,
-- checks/surface-contract.ts).
use Prim.Native.Nat.{◌≤◌}
use internal_package_contrac.Shared.{
  String, Bool, true, false, Option, none, some, List, [], ◌∷◌, ◌≡◌, ◌↔◌, ◌⊎◌, refl, subst, inl,
  inr, Bool-cases, arith, ◌===◌, nat_Eq, if◌then◌else◌,
}
use internal_package_contrac.ApiContract.Levels.{level_rank}
use internal_package_contrac.ApiContract.Semver.{Version, parse_version}
use internal_package_contrac.ApiContract.Semver.Order.{Releases}
use internal_package_contrac.ApiContract.Changesets.{
  DeclaredRelease, declared_level_from_changesets,
}
use internal_package_contrac.Checks.Shared.{pass, fail}
use internal_package_contrac.Surface.Types.{SurfaceChange}
use internal_package_contrac.Surface.Classify.{classify_surface}
use internal_package_contrac.Surface.Run.{
  Package, SurfaceBaseline, absent, committed, SurfaceEvidence, missing_baseline, checked,
  run_surface_check, compare_surface, is_empty,
}
use internal_package_contrac.Surface.Run.Required.{Requires, surface_required_level-Requires}
use internal_package_contrac.Surface.Run.Update.{run_surface_check-committed}
use internal_package_contrac.Surface.Run.Satisfied.{compare_surface_satisfied_iff}
use internal_package_contrac.Checks.SurfaceContract.{
  evaluate_surface_policy, evaluate_changed, evaluate_compared,
}

evaluate_changed-outcome :
    (e : SurfaceEvidence) → (evaluate_changed e).outcome ≡ (if e.satisfied then pass else fail)
unfolding evaluate_changed
evaluate_changed-outcome e = ground arith

compared-outcome :
    (e : SurfaceEvidence) (changes : List SurfaceChange)
    → ((evaluate_compared e changes).outcome ≡ pass) ↔ ((changes ≡ []) ⊎ (e.satisfied ≡ true))
compared-outcome e [] = (λ _. inl refl, λ _. refl)
compared-outcome e (c ∷ changes) = elim (Bool-cases e.satisfied) [
  | inl satisfied ↦ (λ _. inr satisfied, λ _. cc (evaluate_changed-outcome e, satisfied))
  | inr unmet ↦ (
    λ h. absurd (cc (evaluate_changed-outcome e, unmet, h)),
    λ h. elim h [ inl same ↦ absurd (cc same) | inr satisfied ↦ absurd (cc (unmet, satisfied)) ],
  )
]

missing-fails :
    (e : SurfaceEvidence) → e.status ≡ missing_baseline → (evaluate_surface_policy e).outcome ≡ fail
unfolding evaluate_surface_policy
missing-fails e missing = rw (missing, evaluate_surface_policy) refl

module _ (id_le : String → String → Bool) (pkg : Package) where
  compared_iff :
      (declared : DeclaredRelease) (baseline : SurfaceBaseline) (b w : Version)
      → parse_version pkg.version ≡ some w
      → ((evaluate_surface_policy (compare_surface id_le pkg declared baseline b)).outcome ≡ pass)
        ↔ ((classify_surface id_le baseline.surface pkg.surface ≡ [])
            ⊎ ((level_rank (compare_surface id_le pkg declared baseline b).required_level
                  ≤ level_rank declared.declared_level)
                ⊎ Releases (compare_surface id_le pkg declared baseline b).required_level b w))
  unfolding evaluate_surface_policy compare_surface
  compared_iff declared baseline b w current =
      let (passes, only) =
        compared-outcome (compare_surface id_le pkg declared baseline b)
          (classify_surface id_le baseline.surface pkg.surface) in
      let (enough, needed) =
        compare_surface_satisfied_iff id_le pkg declared baseline b w current in
      (
        λ h. elim (passes h) [ inl same ↦ inl same | inr satisfied ↦ inr (enough satisfied) ],
        λ h. only (elim h [ inl same ↦ inl same | inr covered ↦ inr (needed covered) ]),
      )

  compared-Requires :
      (declared : DeclaredRelease) (baseline : SurfaceBaseline) (b w : Version)
      → parse_version pkg.version ≡ some w
      → Requires
          (classify_surface id_le baseline.surface pkg.surface)
          (w.major === 0)
          (compare_surface id_le pkg declared baseline b).required_level
  unfolding compare_surface
  compared-Requires declared baseline b w current = rw current (
      surface_required_level-Requires (classify_surface id_le baseline.surface pkg.surface)
        (w.major === 0))

  -- What the gate asks of a package of version `w`, against a baseline of version `b`.
  abbrev pub PassesWhere : SurfaceBaseline → Version → Version → SurfaceEvidence → Type 0
  PassesWhere baseline b w e = ((evaluate_surface_policy e).outcome ≡ pass) ↔ (
      (classify_surface id_le baseline.surface pkg.surface ≡ [])
      ⊎ ((level_rank e.required_level
            ≤ level_rank (declared_level_from_changesets pkg.changesets pkg.name).declared_level)
          ⊎ Releases e.required_level b w))

  -- The whole gate, from the committed baseline to the verdict. A package of the readable version `w`
  -- against a baseline of the readable version `b`: the level of the evidence is the one that the
  -- changes of the surface require, which is none for no change, major for a breaking one, or minor
  -- before 1.0, else minor where one widens the surface, from 1.0 on, and patch otherwise; and the
  -- package passes exactly when nothing of its surface changed, or its changesets declare at least that
  -- level, or `w` already is a release of at least that level after `b`.
  pub surface_gate_iff :
      (ci : Bool) (baseline : SurfaceBaseline) (b w : Version) (e : SurfaceEvidence)
      (written : Option SurfaceBaseline)
      → parse_version pkg.version ≡ some w
      → parse_version baseline.package_version ≡ some b
      → run_surface_check id_le ci pkg (committed baseline) ≡ checked e written
      → Requires
          (classify_surface id_le baseline.surface pkg.surface)
          (w.major === 0)
          e.required_level
        × PassesWhere baseline b w e
  surface_gate_iff ci baseline b w e written current readable h =
      let declared = declared_level_from_changesets pkg.changesets pkg.name in
      let same : compare_surface id_le pkg declared baseline b ≡ e =
        cc (run_surface_check-committed id_le pkg ci baseline b readable, h) in
      (
        subst
            (λ z.
              Requires (classify_surface id_le baseline.surface pkg.surface) (w.major === 0)
                z.required_level)
            same (compared-Requires declared baseline b w current),
        subst (λ z. PassesWhere baseline b w z) same (compared_iff declared baseline b w current),
      )

  -- In CI a package that has a surface and no committed baseline fails.
  pub surface_gate-no_baseline :
      (e : SurfaceEvidence) (written : Option SurfaceBaseline)
      → is_empty pkg.surface ≡ false
      → run_surface_check id_le true pkg absent ≡ checked e written
      → ((evaluate_surface_policy e).outcome ≡ fail) × (written ≡ none)
  unfolding run_surface_check evaluate_surface_policy
  surface_gate-no_baseline e written guarded h =
      let found : checked _ none ≡ checked e written = rw (guarded, run_surface_check) at h in
      (missing-fails e (cc found), cc found)
