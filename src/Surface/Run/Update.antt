-- ===== src/Surface/Run/Update.antt =====
-- The update of the baseline, and the check that follows it (scripts/surface-contract/run.ts).
use internal_package_contrac.Shared.{
  String, Bool, true, false, ◌&&◌, none, some, [], ◌≡◌, refl, arith, inl, inr, Bool-cases,
  Option-cases, ◌===◌, string_Eq, same_refl,
}
use internal_package_contrac.Shared.Int.{is_negative, is_zero}
use internal_package_contrac.ApiContract.Evidence.{RequiredReleaseLevel, no_release}
use internal_package_contrac.ApiContract.Levels.{rank_at_least}
use internal_package_contrac.ApiContract.Changesets.{
  DeclaredRelease, declared_level_from_changesets,
}
use internal_package_contrac.ApiContract.Semver.{Version, parse_version, compare_versions}
use internal_package_contrac.ApiContract.Semver.Order.{Precedes, compare_versions_iff}
use internal_package_contrac.Shared.Sorting.{IsTotalPreorder}
use internal_package_contrac.Surface.Classify.Self.Sorted.{IsStable, classify_surface_sorted}
use internal_package_contrac.Surface.Stable.Twice.{stable_text-sorted_surface}
use internal_package_contrac.Surface.Stable.{entry_le, stable_text}
use internal_package_contrac.Surface.Run.{
  Package, SurfaceBaseline, CommittedBaseline, absent, invalid, committed, SurfaceEvidence,
  compared, checked, run_surface_check, compare_surface, is_empty, baseline_of, already_current,
  surface_required_level, UpdateStatus, updated, current, ended, update_committed,
  run_surface_update,
}

module _ (id_le : String → String → Bool) (pkg : Package) where
  -- What an update that writes has established of the committed baseline: it has a readable version
  -- that the package's own does not precede, or there is none and the package has a surface.
  abbrev pub MovesForward : CommittedBaseline → Version → Type 0
  MovesForward absent version = is_empty pkg.surface ≡ false
  MovesForward invalid version = ⊥
  MovesForward (committed baseline) version =
      (was : Version) × (parse_version baseline.package_version ≡ some was)
      × (¬ Precedes version was)

  update_committed-forward :
      (baseline : SurfaceBaseline) (version was : Version) (status : UpdateStatus)
      (message : String) (written : SurfaceBaseline)
      → update_committed id_le pkg baseline version was ≡ ended status message (some written)
      → (status ≡ updated) × (written ≡ baseline_of id_le pkg) × (¬ Precedes version was)
  unfolding update_committed
  update_committed-forward baseline version was status message written h =
      elim (Bool-cases (is_negative (compare_versions version was))) [
        | inl older ↦ absurd (cc (rw older at h))
        | inr forward ↦
            elim (Bool-cases (
              is_zero (compare_versions version was)
              && stable_text id_le baseline.surface === stable_text id_le pkg.surface)) [
                | inl same ↦ absurd (cc (rw (forward, same) at h))
                | inr other ↦ (
                  cc (rw (forward, other) at h),
                  cc (rw (forward, other) at h),
                  λ precedes. cc (forward, (compare_versions_iff version was).0.1 precedes),
                )
              ]
      ]

  -- An update that writes has the status `updated`, writes the package's own name, version and
  -- surface, the keys of its objects in order, and only over no baseline or one of a version that the package's does not precede.
  pub run_surface_update-forward :
      (found : CommittedBaseline) (status : UpdateStatus) (message : String)
      (written : SurfaceBaseline)
      → run_surface_update id_le pkg found ≡ ended status message (some written)
      → (status ≡ updated)
        × (written ≡ baseline_of id_le pkg)
        × ((version : Version) × (parse_version pkg.version ≡ some version)
            × MovesForward found version)
  unfolding run_surface_update
  run_surface_update-forward invalid status message written h = absurd (cc)
  run_surface_update-forward absent status message written h =
      elim (Bool-cases (is_empty pkg.surface)) [
        | inl empty ↦ absurd (cc (rw (empty, run_surface_update) at h))
        | inr guarded ↦ elim (Option-cases (parse_version pkg.version)) [
          | inl unreadable ↦ absurd (cc (rw (guarded, unreadable, run_surface_update) at h))
          | inr (version, readable) ↦ (
            cc (rw (guarded, readable, run_surface_update) at h),
            cc (rw (guarded, readable, run_surface_update) at h),
            (version, readable, guarded),
          )
        ]
      ]
  run_surface_update-forward (committed baseline) status message written h =
      elim (Option-cases (parse_version pkg.version)) [
        | inl unreadable ↦ absurd (cc (rw (unreadable, run_surface_update) at h))
        | inr (version, readable) ↦ elim (Option-cases (parse_version baseline.package_version)) [
          | inl lost ↦ absurd (cc (rw (readable, lost, run_surface_update) at h))
          | inr (was, was_readable) ↦
              let (done, same, forward) =
                update_committed-forward baseline version was status message written
                  (rw (readable, was_readable, run_surface_update) at h) in
              (done, same, (version, readable, (was, was_readable, forward)))
        ]
      ]

  entry_order : IsTotalPreorder id_le → IsTotalPreorder (entry_le id_le)
  entry_order order = record {
    total = λ a b. order.total a.0 b.0;
    trans = λ a b c. order.trans a.0 b.0 c.0;
  }

  zero_itself :
      (v : Version)
      → (is_negative (compare_versions v v) ≡ false) × (is_zero (compare_versions v v) ≡ true)
  unfolding compare_versions
  zero_itself v = ground arith

  clears_none : (declared : RequiredReleaseLevel) → rank_at_least declared no_release ≡ true
  unfolding rank_at_least
  clears_none declared = ground arith

  compare_surface_itself :
      (declared : DeclaredRelease) (version : Version)
      → IsStable id_le pkg.surface
      → ((compare_surface id_le pkg declared (baseline_of id_le pkg) version).changes ≡ [])
        × ((compare_surface id_le pkg declared (baseline_of id_le pkg) version).required_level
            ≡ no_release)
        × ((compare_surface id_le pkg declared (baseline_of id_le pkg) version).satisfied ≡ true)
  unfolding compare_surface surface_required_level
  compare_surface_itself declared version stable =
      rw (classify_surface_sorted id_le pkg.surface stable, clears_none declared.declared_level)
        (refl, refl, refl)

  pub run_surface_check-committed :
      (ci : Bool) (baseline : SurfaceBaseline) (version : Version)
      → parse_version baseline.package_version ≡ some version
      → run_surface_check id_le ci pkg (committed baseline)
        ≡ checked
            (compare_surface id_le pkg
              (declared_level_from_changesets pkg.changesets pkg.name)
              baseline
              version)
            none
  unfolding run_surface_check
  run_surface_check-committed ci baseline version readable = rw (readable, run_surface_check) refl

  check_itself :
      (ci : Bool) (version : Version)
      → IsStable id_le pkg.surface
      → parse_version pkg.version ≡ some version
      → (e : SurfaceEvidence) × (run_surface_check id_le ci pkg (committed (baseline_of id_le pkg))
          ≡ checked e none)
        × (e.status ≡ compared)
        × (e.changes ≡ [])
        × (e.required_level ≡ no_release)
        × (e.satisfied ≡ true)
  unfolding compare_surface
  check_itself ci version stable readable =
      let declared = declared_level_from_changesets pkg.changesets pkg.name in
      let (unchanged, nothing, satisfied) = compare_surface_itself declared version stable in
      (
        compare_surface id_le pkg declared (baseline_of id_le pkg) version,
        run_surface_check-committed ci (baseline_of id_le pkg) version readable,
        refl,
        unchanged,
        nothing,
        satisfied,
      )

  update_itself :
      (version : Version)
      → IsTotalPreorder id_le
      → parse_version pkg.version ≡ some version
      → (again : String) × (run_surface_update id_le pkg (committed (baseline_of id_le pkg))
          ≡ ended current again none)
  unfolding run_surface_update update_committed
  update_itself version order readable =
      let (forward, same) = zero_itself version in
      (
        already_current pkg.version,
        rw
            (
              readable,
              readable,
              forward,
              same,
              stable_text-sorted_surface id_le (entry_order order) pkg.surface,
              same_refl (stable_text id_le pkg.surface),
              run_surface_update,
            )
            refl,
      )

  -- Once an update has written a baseline, a check of the same package against it is satisfied, finds
  -- no change, requires no release and writes nothing, in CI or not; and another update is `current`
  -- and writes nothing. The order of keys is total; the surface has each command,
  -- schema and input once; and each schema has the same entries, those of its documentation included,
  -- once its keys are put in order, as they are when the baseline is written.
  pub update_then_check :
      (found : CommittedBaseline) (status : UpdateStatus) (message : String)
      (written : SurfaceBaseline) (ci : Bool)
      → IsTotalPreorder id_le
      → IsStable id_le pkg.surface
      → run_surface_update id_le pkg found ≡ ended status message (some written)
      → ((e : SurfaceEvidence) × (run_surface_check id_le ci pkg (committed written)
            ≡ checked e none)
          × (e.status ≡ compared)
          × (e.changes ≡ [])
          × (e.required_level ≡ no_release)
          × (e.satisfied ≡ true))
        × ((again : String) × (run_surface_update id_le pkg (committed written)
              ≡ ended current again none))
  update_then_check found status message written ci order stable h =
      let (done, same, moved) = run_surface_update-forward found status message written h in
      let (version, readable, forward) = moved in
      rw same (check_itself ci version stable readable, update_itself version order readable)
