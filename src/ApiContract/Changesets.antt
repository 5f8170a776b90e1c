-- ===== src/ApiContract/Changesets.antt =====
-- The release that the pending changesets declare (scripts/api-contract/changesets.ts).
pub mod Largest
pub mod Lines
use Prim.Native.Char.{Char, code}
use Prim.Native.String
use mathlib.Core.Option
use internal_package_contrac.Shared.{
  ℕ, ◌+◌, String, Bool, true, false, ◌&&◌, ◌||◌, Option, none, some, List, [], ◌∷◌, ◌===◌, ◌!==◌,
  nat_Eq, string_Eq, if◌then◌else◌, filter, find_index?, take, drop, negate,
}
use internal_package_contrac.Shared.Regex.{
  is_space, at_end, one, optional, star, plus, literal, or_else,
}
use internal_package_contrac.Shared.Trim.{trim}
use internal_package_contrac.ApiContract.Evidence.{
  RequiredReleaseLevel, no_release, patch, minor, major,
}
use internal_package_contrac.ApiContract.Levels.{max_level}

abbrev pub is_quote : Char → Bool
is_quote c = code c === b'"' || code c === b'\''

abbrev pub is_colon : Char → Bool
is_colon c = code c === b':'

-- `[^"':]`
abbrev pub is_name : Char → Bool
is_name c = negate (is_quote c || is_colon c)

-- `(major|minor|patch)\s*$`
unfoldable pub bump_word : String → String → Option (String × RequiredReleaseLevel)
bump_word name s = or_else (literal "major" (star is_space λ _. at_end (name, major)) s) (
    or_else (literal "minor" (star is_space λ _. at_end (name, minor)) s)
      (literal "patch" (star is_space λ _. at_end (name, patch)) s))

-- `BUMP_LINE_PATTERN`, with its two groups.
unfoldable pub bump_line : String → Option (String × RequiredReleaseLevel)
bump_line = star is_space λ _. optional is_quote (
    plus is_name λ name.
      optional is_quote (star is_space λ _. one is_colon (star is_space λ _. bump_word name)))

begins_line : String → Bool
begins_line String.[] = false
begins_line (String.◌∷◌ c s) = code c === 10

extend_first : Char → List String → List String
extend_first c [] = String.◌∷◌ c "" ∷ []
extend_first c (line ∷ lines) = String.◌∷◌ c line ∷ lines

-- `content.split(/\r?\n/)`
unfoldable pub split_lines : String → List String
unfolding begins_line extend_first
split_lines String.[] = "" ∷ []
split_lines (String.◌∷◌ c s) =
    let rest = split_lines s in
    if code c === 10
    then "" ∷ rest
    else if code c === 13 && begins_line s
    then rest
    else extend_first c rest

abbrev is_delimiter : String → Bool
is_delimiter line = trim line === "---"

-- `lines[0]?.trim() === FRONTMATTER_DELIMITER`
abbrev opens : List String → Bool
opens [] = false
opens (line ∷ lines) = is_delimiter line

unfoldable pub extract_frontmatter_lines : String → List String
extract_frontmatter_lines content =
    let lines = split_lines content in
    elim (find_index? is_delimiter (drop 1 lines)) [
      | none ↦ []
      | some inner ↦ if opens lines then take inner (drop 1 lines) else []
    ]

-- The loop of `declaredLevelForPackage`.
declared_in : String → List String → Option RequiredReleaseLevel
declared_in package_name [] = none
declared_in package_name (line ∷ lines) =
    let later = declared_in package_name lines in
    elim (bump_line line) [
      | none ↦ later
      | some (name, level) ↦ if name === package_name then some level else later
    ]

unfoldable pub declared_level_for_package : String → String → Option RequiredReleaseLevel
unfolding declared_in
declared_level_for_package content package_name =
    declared_in package_name (extract_frontmatter_lines content)

unfoldable pub ends_with : String → String → Bool
ends_with String.[] suffix = "" === suffix
ends_with (String.◌∷◌ c s) suffix = String.◌∷◌ c s === suffix || ends_with s suffix

abbrev pub is_changeset : String → Bool
is_changeset name = ends_with name ".md" && name !== "README.md"

pub record DeclaredRelease : Type 0 where
  pub changeset_count : ℕ
  pub declared_level : RequiredReleaseLevel

-- One round of the loop of `declaredLevelFromChangesets`.
count_level : Option RequiredReleaseLevel → DeclaredRelease → DeclaredRelease
count_level none so_far = so_far
count_level (some level) so_far = record {
  changeset_count = so_far.changeset_count + 1;
  declared_level =
      Option.get_or (max_level (some so_far.declared_level) (some level)) so_far.declared_level;
}

unfoldable pub declared_from : String → DeclaredRelease → List (String × String) → DeclaredRelease
unfolding count_level
declared_from package_name so_far [] = so_far
declared_from package_name so_far ((name, content) ∷ entries) =
    declared_from package_name
      (count_level (declared_level_for_package content package_name) so_far) entries

-- The directory `.changeset` as it was read: its files, by name and content, or `none` where
-- `readdir` fails.
unfoldable pub declared_level_from_changesets :
    Option (List (String × String)) → String → DeclaredRelease
declared_level_from_changesets none package_name = record {
  changeset_count = 0;
  declared_level = no_release;
}
declared_level_from_changesets (some files) package_name =
    declared_from package_name (record { changeset_count = 0; declared_level = no_release })
      (filter (λ file. is_changeset file.0) files)
