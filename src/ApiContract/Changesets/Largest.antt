-- ===== src/ApiContract/Changesets/Largest.antt =====
-- The declared level is the largest one (scripts/api-contract/changesets.ts).
use mathlib.Core.Option
use internal_package_contrac.Shared.{
  ◌+◌, ◌≤◌, String, none, some, List, [], ◌∷◌, ◌≡◌, refl, ◌⊎◌, inl, inr, filter, arith, Memᴰ,
  length, Option-cases, ◌∙◌, All,
}
use internal_package_contrac.ApiContract.Evidence.{RequiredReleaseLevel, no_release}
use internal_package_contrac.ApiContract.Levels.{level_rank, max_level}
use internal_package_contrac.ApiContract.Changesets.{
  DeclaredRelease, declared_level_for_package, declared_level_from_changesets, declared_from,
  is_changeset, count_level,
}

-- The levels that the files declare for a package, in order.
abbrev pub levels_declared : String → List (String × String) → List RequiredReleaseLevel
levels_declared package_name [] = []
levels_declared package_name ((name, content) ∷ files) =
    elim (declared_level_for_package content package_name) [
      | none ↦ levels_declared package_name files
      | some level ↦ level ∷ levels_declared package_name files
    ]

abbrev max_of : RequiredReleaseLevel → RequiredReleaseLevel → RequiredReleaseLevel
max_of a b = Option.get_or (max_level (some a) (some b)) a

max_of_bounds :
    (a b : RequiredReleaseLevel)
    → (level_rank a ≤ level_rank (max_of a b)) × (level_rank b ≤ level_rank (max_of a b))
unfolding max_level
max_of_bounds a b = ground arith

max_of_attained : (a b : RequiredReleaseLevel) → (max_of a b ≡ a) ⊎ (max_of a b ≡ b)
unfolding max_level
max_of_attained a b = ground arith

-- `level` is the largest of `start` and the levels.
record IsLargestFrom (start : RequiredReleaseLevel) (levels : List RequiredReleaseLevel)
    (level : RequiredReleaseLevel) : Type 0 where
  starts : level_rank start ≤ level_rank level
  bounds : All (λ l. level_rank l ≤ level_rank level) levels
  attained : (level ≡ start) ⊎ Memᴰ level levels

largest_cons :
    (start a : RequiredReleaseLevel) (levels : List RequiredReleaseLevel)
    {level : RequiredReleaseLevel}
    → IsLargestFrom (max_of start a) levels level
    → IsLargestFrom start (a ∷ levels) level
largest_cons start a levels {level} h =
    let (left, right) = max_of_bounds start a in
    record {
      starts = omega (arith, left, h.starts);
      bounds = (omega (arith, right, h.starts), h.bounds);
      attained = elim h.attained [
        | inl e ↦ elim (max_of_attained start a) [
          | inl l ↦ inl (e ∙ l)
          | inr r ↦ inr (Memᴰ.head (e ∙ r))
        ]
        | inr m ↦ inr (Memᴰ.tail m)
      ];
    }

declared_from-IsLargest :
    (package_name : String) (so_far : DeclaredRelease) (files : List (String × String))
    → IsLargestFrom so_far.declared_level
        (levels_declared package_name files)
        (declared_from package_name so_far files).declared_level
unfolding declared_from
declared_from-IsLargest package_name so_far [] = record {
  starts = omega arith;
  bounds = tt;
  attained = inl refl;
}
declared_from-IsLargest package_name so_far ((name, content) ∷ files) =
    elim (Option-cases (declared_level_for_package content package_name)) [
      | inl silent ↦
          rw (silent, declared_from, levels_declared)
            (declared_from-IsLargest package_name so_far files)
      | inr (level, names) ↦
          rw (names, declared_from, levels_declared)
            (largest_cons so_far.declared_level level (levels_declared package_name files)
              (declared_from-IsLargest package_name (count_level (some level) so_far) files))
    ]

declared_from_count :
    (package_name : String) (so_far : DeclaredRelease) (files : List (String × String))
    → (declared_from package_name so_far files).changeset_count
      ≡ so_far.changeset_count + length (levels_declared package_name files)
unfolding declared_from
declared_from_count package_name so_far [] = omega arith
declared_from_count package_name so_far ((name, content) ∷ files) =
    elim (Option-cases (declared_level_for_package content package_name)) [
      | inl silent ↦
          rw (silent, declared_from, levels_declared)
            (declared_from_count package_name so_far files)
      | inr (level, names) ↦
          rw (names, declared_from, levels_declared)
            (omega
              (arith, declared_from_count package_name (count_level (some level) so_far) files))
    ]

-- What `.changeset` declares for a package: the count is that of the changesets which name it, the
-- level is at least that of each of them, and it is the level of one of them, or `none`.
pub declared_level_from_changesets-largest :
    (package_name : String) (files : List (String × String))
    → let levels = levels_declared package_name (filter (λ file. is_changeset file.0) files) in
      let r = declared_level_from_changesets (some files) package_name in
      (r.changeset_count ≡ length levels)
      × All (λ l. level_rank l ≤ level_rank r.declared_level) levels
      × ((r.declared_level ≡ no_release) ⊎ Memᴰ r.declared_level levels)
unfolding declared_level_from_changesets
declared_level_from_changesets-largest package_name files =
    let changesets = filter (λ (file : String × String). is_changeset file.0) files in
    let start : DeclaredRelease = record { changeset_count = 0; declared_level = no_release } in
    let largest = declared_from-IsLargest package_name start changesets in
    (
      omega (arith, declared_from_count package_name start changesets),
      largest.bounds,
      largest.attained,
    )
