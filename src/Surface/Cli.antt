-- ===== src/Surface/Cli.antt =====
-- How a change of a CLI is classified (scripts/surface-contract/classify.ts).
use Prim.Native.Char.{Char, code}
use internal_package_contrac.Shared.{
  ℕ, String, Bool, true, false, ◌&&◌, ◌||◌, Option, none, some, List, [], ◌∷◌, ◌++◌, map, filter,
  any, template, ◌===◌, ◌!==◌, string_Eq, nat_Eq, option_Eq, if◌then◌else◌, leb, negate,
}
use internal_package_contrac.Shared.Dicts.{contains, set_of}
use internal_package_contrac.Shared.Decimals.{decimal}
use internal_package_contrac.Shared.Regex.{is_digit, literal, star, starts_with}
use internal_package_contrac.Surface.Types.{CliSurface, SurfaceChange, breaking, compatible}

-- `[A-Za-z]`
abbrev is_flag_letter : Char → Bool
is_flag_letter c =
    (leb b'A' (code c) && leb (code c) b'Z') || (leb b'a' (code c) && leb (code c) b'z')

-- `[A-Za-z0-9-]`
abbrev is_flag_char : Char → Bool
is_flag_char c = is_flag_letter c || is_digit c || code c === b'-'

-- `[\w-]`, which may not stand before a flag.
abbrev holds_back : Char → Bool
holds_back c = is_flag_char c || code c === b'_'

flag_name : String → Option String
flag_name String.[] = none
flag_name (String.◌∷◌ c s) =
    if is_flag_letter c
    then star is_flag_char (λ rest _. some (template ("--" ∷ String.◌∷◌ c rest ∷ []))) s
    else none

abbrev push_flag : Option String → List String → List String
push_flag none flags = flags
push_flag (some flag) flags = flag ∷ flags

-- `help.matchAll(FLAG)`; `held` says that the character before is one of `[\w-]`. Inside of a match it
-- always is, so that no other match begins there.
flags_from : Bool → String → List String
unfolding flag_name
flags_from held String.[] = []
flags_from held (String.◌∷◌ c s) =
    let later = flags_from (holds_back c) s in
    if held then later else push_flag (literal "--" flag_name (String.◌∷◌ c s)) later

unfoldable pub flags_of : String → List String
unfolding flags_from
flags_of help = set_of (flags_from false help)

abbrev exit_text : Option ℕ → String
exit_text none = "null"
exit_text (some code) = decimal code

unfoldable pub exit_code_changes : String → CliSurface → CliSurface → List SurfaceChange
exit_code_changes name before after =
    if before.exit_code !== after.exit_code
    then record {
      id = template ("cli:" ∷ name ∷ []);
      kind = "cli-exit-code-changed";
      impact = breaking;
      widens = false;
      explanation = template (
          "`"
          ∷ name
          ∷ " --help` exited "
          ∷ exit_text before.exit_code
          ∷ ", now "
          ∷ exit_text after.exit_code
          ∷ "."
          ∷ []);
    }
      ∷ []
    else []

abbrev pub flag_removed : String → String → SurfaceChange
flag_removed name flag = record {
  id = template ("cli:" ∷ name ∷ ":" ∷ flag ∷ []);
  kind = "cli-flag-removed";
  impact = breaking;
  widens = false;
  explanation = template ("`" ∷ name ∷ "` no longer documents " ∷ flag ∷ "." ∷ []);
}

abbrev pub flag_added : String → String → SurfaceChange
flag_added name flag = record {
  id = template ("cli:" ∷ name ∷ ":" ∷ flag ∷ []);
  kind = "cli-flag-added";
  impact = compatible;
  widens = true;
  explanation = template ("`" ∷ name ∷ "` now documents " ∷ flag ∷ "." ∷ []);
}

-- The flags of one text that the other does not have.
abbrev pub flags_missing : String → String → List String
flags_missing help other = filter (λ flag. negate (contains flag (flags_of other))) (flags_of help)

unfoldable pub flag_changes : String → CliSurface → CliSurface → List SurfaceChange
flag_changes name before after =
    map (flag_removed name) (flags_missing before.help after.help)
    ++ map (flag_added name) (flags_missing after.help before.help)

unfoldable pub classify_cli : String → CliSurface → CliSurface → List SurfaceChange
classify_cli name before after =
    let changes = exit_code_changes name before after ++ flag_changes name before after in
    let flag_changed = any (λ c. starts_with c.kind "cli-flag") changes in
    changes
    ++ (if before.help !== after.help && negate flag_changed
        then record {
          id = template ("cli:" ∷ name ∷ []);
          kind = "cli-help-changed";
          impact = compatible;
          widens = false;
          explanation = template ("The `" ∷ name ∷ " --help` text changed." ∷ []);
        }
          ∷ []
        else [])
