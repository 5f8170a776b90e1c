-- ===== src/Surface/Run/Required.antt =====
-- The level that the changes of a surface require, told on its own (`requiredLevel` of
-- scripts/surface-contract/run.ts).
use internal_package_contrac.Shared.{
  Bool, true, false, List, [], ◌∷◌, ◌≡◌, ◌≢◌, ◌⊎◌, inl, inr, refl, any, All, All-weaken, Memᴰ,
  Bool-cases, arith, nat_Eq,
}
use internal_package_contrac.ApiContract.Evidence.{
  RequiredReleaseLevel, no_release, patch, minor, major,
}
use internal_package_contrac.ApiContract.Levels.{required_level_for}
use internal_package_contrac.Surface.Types.{SurfaceChange, breaking, compatible}
use internal_package_contrac.Surface.Run.{surface_required_level, is_breaking}

-- Nothing for no change; for a breaking one a major release, or a minor one before 1.0; else a minor
-- release where some change widens the surface, from 1.0 on, and a patch otherwise.
pub data Requires (changes : List SurfaceChange) (pre_one : Bool)
    : RequiredReleaseLevel → Type 0 where
  unchanged : changes ≡ [] → Requires changes pre_one no_release
  broken :
      (c : SurfaceChange)
      → Memᴰ c changes
      → c.impact ≡ breaking
      → pre_one ≡ false
      → Requires changes pre_one major
  broken_early :
      (c : SurfaceChange)
      → Memᴰ c changes
      → c.impact ≡ breaking
      → pre_one ≡ true
      → Requires changes pre_one minor
  widened :
      All (λ c. c.impact ≡ compatible) changes
      → (c : SurfaceChange) → Memᴰ c changes
      → c.widens ≡ true
      → pre_one ≡ false
      → Requires changes pre_one minor
  touched :
      changes ≢ []
      → All (λ c. c.impact ≡ compatible) changes
      → (pre_one ≡ true) ⊎ All (λ c. c.widens ≡ false) changes
      → Requires changes pre_one patch

any-cases :
    (p : SurfaceChange → Bool) (cs : List SurfaceChange)
    → ((any p cs ≡ true) × ((c : SurfaceChange) × Memᴰ c cs × (p c ≡ true)))
      ⊎ ((any p cs ≡ false) × All (λ c. p c ≡ false) cs)
any-cases p [] = inr (refl, tt)
any-cases p (c ∷ cs) = elim (Bool-cases (p c)) [
  | inl here ↦ inl (rw here refl, (c, Memᴰ.head refl, here))
  | inr not_here ↦ elim (any-cases p cs) [
    | inl (found, (d, there, holds)) ↦ inl (rw not_here found, (d, Memᴰ.tail there, holds))
    | inr (none_there, all) ↦ inr (rw not_here none_there, (not_here, all))
  ]
]

is_breaking-impact : (c : SurfaceChange) → is_breaking c ≡ true → c.impact ≡ breaking
is_breaking-impact c h = ground arith

is_compatible-impact : (c : SurfaceChange) → is_breaking c ≡ false → c.impact ≡ compatible
is_compatible-impact c h = ground arith

-- Every breaking change comes to its level.
level_of_breaking :
    (c d : SurfaceChange) (cs : List SurfaceChange) (pre_one : Bool)
    → any is_breaking (c ∷ cs) ≡ true
    → Memᴰ d (c ∷ cs)
    → d.impact ≡ breaking
    → Requires (c ∷ cs) pre_one (surface_required_level (c ∷ cs) pre_one)
unfolding surface_required_level required_level_for
level_of_breaking c d cs true found there breaks = rw found (broken_early d there breaks refl)
level_of_breaking c d cs false found there breaks = rw found (broken d there breaks refl)

level_of_compatible :
    (c : SurfaceChange) (cs : List SurfaceChange) (pre_one : Bool)
    → any is_breaking (c ∷ cs) ≡ false
    → All (λ d. d.impact ≡ compatible) (c ∷ cs)
    → Requires (c ∷ cs) pre_one (surface_required_level (c ∷ cs) pre_one)
unfolding surface_required_level required_level_for
level_of_compatible c cs pre_one none_breaks all = elim (any-cases (λ d. d.widens) (c ∷ cs)) [
  | inr (none_widens, narrow) ↦ rw (none_breaks, none_widens) (touched (λ e. cc e) all (inr narrow))
  | inl (some_widens, (d, there, widens)) ↦ elim (Bool-cases pre_one) [
    | inl early ↦ rw (none_breaks, some_widens, early) (touched (λ e. cc e) all (inl refl))
    | inr later ↦ rw (none_breaks, some_widens, later) (widened all d there widens refl)
  ]
]

-- The level that a comparison computes is the one that its changes require.
pub surface_required_level-Requires :
    (changes : List SurfaceChange) (pre_one : Bool)
    → Requires changes pre_one (surface_required_level changes pre_one)
unfolding surface_required_level
surface_required_level-Requires [] pre_one = unchanged refl
surface_required_level-Requires (c ∷ cs) pre_one = elim (any-cases is_breaking (c ∷ cs)) [
  | inl (found, (d, there, breaks)) ↦
      level_of_breaking c d cs pre_one found there (is_breaking-impact d breaks)
  | inr (none_breaks, harmless) ↦
      level_of_compatible c cs pre_one none_breaks
        (All-weaken _ _ (c ∷ cs) is_compatible-impact harmless)
]
