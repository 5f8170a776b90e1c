-- ===== src/Adoption/Promotion.antt =====
-- The command `promote` of adoption mode (scripts/adoption/mode.mjs), which has a package enforce more
-- of its checks.
use internal_package_contrac.Shared.{
  ℕ, ◌+◌, String, Bool, true, false, List, [], ◌∷◌, ◌++◌, filter, length, template, join, string_Eq,
  nat_Eq, option_Eq, if◌then◌else◌, negate, ltb,
}
use internal_package_contrac.Shared.Dicts.{contains, set_of}
use internal_package_contrac.Shared.Decimals.{decimal}
use internal_package_contrac.Shared.Int.{ℤ, pos, negsuc, sub_ℕ}
use internal_package_contrac.Shared.Sorting.{sort}
use internal_package_contrac.Shared.CodeUnits.{text_le}
use internal_package_contrac.Adoption.{AdoptionFile, Adoption, absent, invalid, active, expired}

pub data FileChange : Type 0 where
  kept removed : FileChange
  written : AdoptionFile → FileChange

pub record PromoteRun : Type 0 where
  pub exit_code : ℕ
  pub out : String
  pub err : String
  pub file : FileChange

abbrev usage : String
usage = "Usage: internal-package-contract promote <Check> [<Check>...] | --all\n"

abbrev refusal : ℕ → String → PromoteRun
refusal exit_code message = record { exit_code = exit_code; out = ""; err = message; file = kept }

abbrev int_text : ℤ → String
int_text (pos n) = decimal n
int_text (negsuc n) = template ("-" ∷ decimal (n + 1) ∷ [])

unfoldable pub promoted : List String → List String → List String
promoted enforce argv = sort text_le (set_of (enforce ++ argv))

abbrev success : List String → List String → AdoptionFile → PromoteRun
success argv available file =
    let enforce = promoted file.enforce argv in
    record {
      exit_code = 0;
      out = template (
          "[promote] now enforcing: "
          ∷ join ", " argv
          ∷ ". "
          ∷ int_text (sub_ℕ (length available) (length enforce))
          ∷ " check(s) still report failures without failing the run.\n"
          ∷ []);
      err = "";
      file = written (record {
        started_at = file.started_at;
        expires_at = file.expires_at;
        enforce = enforce;
      });
    }

abbrev pub is_nil : List String → Bool
is_nil [] = true
is_nil (x ∷ xs) = false

abbrev pub unknown_ids : List String → List String → List String
unknown_ids argv available = filter (λ id. negate (contains id available)) argv

-- The command, once the file is known to be an adoption.
unfoldable pub promote_file : List String → List String → AdoptionFile → PromoteRun
promote_file argv available file =
    if is_nil argv
    then refusal 2 (template ("[promote] name the checks to enforce, or --all.\n" ∷ usage ∷ []))
    else if contains "--all" argv
    then if ltb 1 (length argv)
      then refusal 2 (template ("[promote] --all stands alone.\n" ∷ usage ∷ []))
      else record {
        exit_code = 0;
        out = "[promote] adoption mode is over: every check enforces from now on.\n";
        err = "";
        file = removed;
      }
    else if is_nil (unknown_ids argv available)
    then success argv available file
    else refusal 2 (
        template (
          "[promote] not a check: "
          ∷ join ", " (unknown_ids argv available)
          ∷ ". Checks: "
          ∷ join ", " available
          ∷ ".\n"
          ∷ []))

unfoldable pub promote : List String → List String → Adoption → PromoteRun
promote argv available absent =
    refusal 1 "[promote] this package is not in adoption mode: every check already enforces.\n"
promote argv available (invalid what) = refusal 1 (template ("[promote] " ∷ what ∷ "\n" ∷ []))
promote argv available (active file left) = promote_file argv available file
promote argv available (expired file left) = promote_file argv available file
