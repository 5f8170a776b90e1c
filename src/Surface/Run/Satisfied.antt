-- ===== src/Surface/Run/Satisfied.antt =====
-- When the check of the surface is satisfied, and what it writes (scripts/surface-contract/run.ts).
use internal_package_contrac.Shared.{
  ◌≤◌, String, Bool, true, false, Option, none, some, ◌≡◌, ◌↔◌, ◌⊎◌, inl, inr, Bool-cases,
  Option-cases,
}
use internal_package_contrac.ApiContract.Levels.{level_rank}
use internal_package_contrac.ApiContract.Semver.{Version, parse_version}
use internal_package_contrac.ApiContract.Semver.Order.{Releases, declared_or_bumped_iff}
use internal_package_contrac.ApiContract.Changesets.{DeclaredRelease}
use internal_package_contrac.Surface.Run.{
  Package, SurfaceBaseline, absent, committed, SurfaceEvidence, checked, run_surface_check,
  compare_surface, is_empty, baseline_of,
}

module _ (id_le : String → String → Bool) (pkg : Package) (declared : DeclaredRelease)
    (baseline : SurfaceBaseline) (b w : Version) where
  -- Compared with a baseline of version `b`, a package of the readable version `w` satisfies the check
  -- exactly when its changesets declare at least the level that the changes require, or `w` already
  -- is a release of at least that level after `b`.
  pub compare_surface_satisfied_iff :
      parse_version pkg.version ≡ some w
      → ((compare_surface id_le pkg declared baseline b).satisfied ≡ true) ↔ (
          (level_rank (compare_surface id_le pkg declared baseline b).required_level
            ≤ level_rank declared.declared_level)
          ⊎ Releases (compare_surface id_le pkg declared baseline b).required_level b w)
  unfolding compare_surface
  compare_surface_satisfied_iff readable = rw readable (declared_or_bumped_iff _ _ b w)

module _ (id_le : String → String → Bool) (ci : Bool) (pkg : Package) where
  -- Without a committed baseline a run writes nothing but the current surface, its keys in order, as the
  -- first one, and that only where the package has a surface and the run is not in CI; in CI it writes nothing and
  -- is satisfied exactly where there is no surface. With a committed baseline nothing is ever written.
  pub run_surface_check-first :
      ((e : SurfaceEvidence) (written : SurfaceBaseline)
        → run_surface_check id_le ci pkg absent ≡ checked e (some written)
        → (written ≡ baseline_of id_le pkg) × (is_empty pkg.surface ≡ false) × (ci ≡ false))
      × ((e : SurfaceEvidence) (written : Option SurfaceBaseline)
          → ci ≡ true
          → run_surface_check id_le ci pkg absent ≡ checked e written
          → (written ≡ none) × (e.satisfied ≡ is_empty pkg.surface))
      × ((baseline : SurfaceBaseline) (e : SurfaceEvidence) (written : Option SurfaceBaseline)
          → run_surface_check id_le ci pkg (committed baseline) ≡ checked e written
          → written ≡ none)
  unfolding run_surface_check
  run_surface_check-first = (
    λ e written h. elim (Bool-cases (is_empty pkg.surface)) [
      | inl empty ↦ absurd (cc (rw empty at h))
      | inr guarded ↦ elim (Bool-cases ci) [
        | inl on_ci ↦ absurd (cc (rw (guarded, on_ci) at h))
        | inr locally ↦ (cc (rw (guarded, locally) at h), cc, cc)
      ]
    ],
    λ e written on_ci h. elim (Bool-cases (is_empty pkg.surface)) [
      | inl empty ↦ (cc (rw empty at h), cc (empty, rw empty at h))
      | inr guarded ↦ (cc (rw (guarded, on_ci) at h), cc (guarded, rw (guarded, on_ci) at h))
    ],
    λ baseline e written h. elim (Option-cases (parse_version baseline.package_version)) [
      | inl unreadable ↦ absurd (cc (rw (unreadable, run_surface_check) at h))
      | inr (version, readable) ↦ cc (rw (readable, run_surface_check) at h)
    ],
  )
