-- ===== src/ApiContract/Changesets/Lines.antt =====
-- A bump line as Changesets writes it is read back (scripts/api-contract/changesets.ts).
use Prim.Native.String
use text.Mathlib.TextLemmas.{cons-append, nil-append}
use internal_package_contrac.Shared.{String, ◌≡◌, refl, some, [], ◌∷◌, template, Option, ◌≢◌}
use internal_package_contrac.Shared.Regex.{
  is_space, at_end, one, optional, star, plus, literal, plus_run, AllChars, IsNonEmpty, StopsAt,
}
use internal_package_contrac.ApiContract.Evidence.{
  RequiredReleaseLevel, no_release, patch, minor, major,
}
use internal_package_contrac.ApiContract.Changesets.{
  is_quote, is_name, is_colon, bump_word, bump_line,
}

abbrev pub level_text : RequiredReleaseLevel → String
level_text no_release = "none"
level_text patch = "patch"
level_text minor = "minor"
level_text major = "major"

abbrev after_name : String → String → Option (String × RequiredReleaseLevel)
after_name name =
    optional is_quote (star is_space λ _. one is_colon (star is_space λ _. bump_word name))

after_name-level :
    (name : String) (level : RequiredReleaseLevel)
    → level ≢ no_release
    → after_name name (String.◌++◌ "\": " (String.◌++◌ (level_text level) "")) ≡ some (name, level)
unfolding optional star one bump_word literal is_space at_end
after_name-level name no_release h = absurd (h refl)
after_name-level name patch h = refl
after_name-level name minor h = refl
after_name-level name major h = refl

quoted :
    (name rest : String) {r : String × RequiredReleaseLevel}
    → plus is_name after_name (String.◌++◌ name rest) ≡ some r
    → bump_line (String.◌++◌ "\"" (String.◌++◌ name rest)) ≡ some r
unfolding bump_line optional star is_space
quoted name rest h = rw (cons-append, nil-append) (rw h)

stops :
    (level : RequiredReleaseLevel)
    → level ≢ no_release
    → StopsAt is_name (String.◌++◌ "\": " (String.◌++◌ (level_text level) ""))
stops no_release h = absurd (h refl)
stops patch h = refl
stops minor h = refl
stops major h = refl

-- The line `"<name>": <level>` declares that level for that name, whatever the name, if it is not
-- empty and has no quote and no colon.
pub bump_line-written :
    (name : String) (level : RequiredReleaseLevel)
    → IsNonEmpty name
    → AllChars is_name name
    → level ≢ no_release
    → bump_line (template ("\"" ∷ name ∷ "\": " ∷ level_text level ∷ [])) ≡ some (name, level)
unfolding template
bump_line-written name level n h l =
    quoted name _
      (plus_run is_name after_name name _ n h (stops level l) (after_name-level name level l))
