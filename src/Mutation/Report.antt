-- ===== src/Mutation/Report.antt =====
-- The mutants of Stryker's report (checks/mutation.ts), and the schema of the registry. The report is
-- given as the values that `JSON.parse` makes of it, with `files` in the order of `Object.entries`. The digest of
-- two fields, `hashRequirementFields` of the package repo-contract, is an argument.
use Prim.Native.Char.{Char, code}
use mathlib.Core.Option
use internal_package_contrac.Shared.{
  ℕ, zero, suc, ◌-◌, String, Option, none, some, List, [], ◌∷◌, ◌++◌, map, length, take, drop,
  get_elem?, template, join, ◌===◌, string_Eq, nat_Eq, if◌then◌else◌,
}
use internal_package_contrac.Shared.CodeUnits.{code_units}
use internal_package_contrac.Shared.Json.{Fields, lookup}
use internal_package_contrac.Exceptions.{ExceptionRecord, ExceptionRegistrySchema, Checked}
use internal_package_contrac.Exceptions.FieldChecks.{
  both, and_then, text_or, is_valid_non_empty_string_field,
}
use internal_package_contrac.Exceptions.Security.{field_place, derived_record}
use internal_package_contrac.Mutation.{ResolvedMutant}
use internal_package_contrac.Mutation.Score.{first_units}

pub record Position : Type 0 where
  pub line : ℕ
  pub column : ℕ

pub record MutantLocation : Type 0 where
  pub start : Position
  pub end : Position

pub record Mutant : Type 0 where
  pub status : String
  pub mutator_name : Option String
  pub replacement : Option String
  pub location : Option MutantLocation

pub record MutationReportFile : Type 0 where
  pub mutants : Option (List Mutant)
  pub source : Option String

pub record MutationReport : Type 0 where
  pub files : Option (List (String × MutationReportFile))

-- The index `n - 1` of `slice` in so many elements: at 0 it is -1, the last of them.
abbrev index_before : ℕ → ℕ → ℕ
index_before n size = if n === 0 then size - 1 else n - 1

-- What follows the first code units of a text.
after_units : ℕ → String → String
after_units n String.[] = ""
after_units n (String.◌∷◌ c s) =
    let width = length (code_units (String.◌∷◌ c "")) in
    let rest = after_units (n - width) s in if n === 0 then String.◌∷◌ c s else rest

-- The last code units of a text.
unfoldable pub last_units : ℕ → String → String
unfolding after_units
last_units n s = after_units (length (code_units s) - n) s

-- `lines[line - 1]`
abbrev line_at : ℕ → List String → Option String
line_at zero lines = none
line_at (suc n) lines = get_elem? lines n

extend_first : Char → List String → List String
extend_first c [] = String.◌∷◌ c "" ∷ []
extend_first c (line ∷ lines) = String.◌∷◌ c line ∷ lines

-- `source.split("\n")`
lines_of : String → List String
unfolding extend_first
lines_of String.[] = "" ∷ []
lines_of (String.◌∷◌ c s) =
    let rest = lines_of s in if code c === 10 then "" ∷ rest else extend_first c rest

-- `line.slice(from - 1, to - 1)`; a bound that is absent is the end of the line.
abbrev slice_of : Option ℕ → Option ℕ → String → String
slice_of from to s =
    let size = length (code_units s) in
    let until : String = elim to [ none ↦ s | some n ↦ first_units (index_before n size) s ] in
    elim from [ none ↦ until | some n ↦ after_units (index_before n size) until ]

abbrev slice_or : Option String → Option ℕ → Option ℕ → String
slice_or none from to = ""
slice_or (some line) from to = slice_of from to line

abbrev span_of : Position → Position → List String → String
span_of start end lines =
    if start.line === end.line
    then slice_or (line_at start.line lines) (some start.column) (some end.column)
    else let middle_lines = drop start.line (take (index_before end.line (length lines)) lines) in
      join "\n" (
        slice_or (line_at start.line lines) (some start.column) none
        ∷ (middle_lines ++ slice_or (line_at end.line lines) none (some end.column) ∷ []))

unfoldable pub extract_span : Option String → Option MutantLocation → String
unfolding lines_of after_units
extract_span (some source) (some location) = span_of location.start location.end (lines_of source)
extract_span _ _ = ""

abbrev line_of : Option MutantLocation → ℕ
line_of none = 0
line_of (some location) = location.start.line

abbrev resolved_of : String → Option String → Mutant → ResolvedMutant
resolved_of file source mutant = record {
  file = file;
  status = mutant.status;
  mutator = Option.get_or mutant.mutator_name "";
  original = extract_span source mutant.location;
  replacement = Option.get_or mutant.replacement "";
  line = line_of mutant.location;
}

abbrev resolve_files : List (String × MutationReportFile) → List ResolvedMutant
resolve_files [] = []
resolve_files ((file, result) ∷ files) =
    map (resolved_of file result.source) (Option.get_or result.mutants []) ++ resolve_files files

unfoldable pub resolve_mutants : MutationReport → List ResolvedMutant
resolve_mutants report = resolve_files (Option.get_or report.files [])

-- The four fields that identify a mutant, validated one by one.
abbrev MutationFields : Type 0
MutationFields = String × (String × (String × String))

unfoldable pub mutation_fields : Fields → ℕ → Checked MutationFields
mutation_fields raw index =
    let filled : String → Checked String =
      λ key. is_valid_non_empty_string_field (lookup key raw) (field_place index key) in
    both (filled "file") (
      both (filled "mutator") (
        both (filled "original") (
          text_or (template (field_place index "replacement" ∷ " must be a string." ∷ []))
            (lookup "replacement" raw))))

unfoldable pub derive_mutation_id : (String → String → String) → MutationFields → String
derive_mutation_id digest (file, (mutator, (original, replacement))) =
    template
      ("mutation:" ∷ file ∷ ":" ∷ mutator ∷ ":" ∷ first_units 12 (digest original replacement) ∷ [])

abbrev mutation_record :
    (String → String → String) → String → String → ℕ → MutationFields → Checked ExceptionRecord
mutation_record digest id justification index (file, (mutator, (original, replacement))) =
    derived_record (derive_mutation_id digest (file, (mutator, (original, replacement))))
      "file/mutator/original/replacement" id justification index
      (("file", file)
        ∷ ("mutator", mutator)
        ∷ ("original", original)
        ∷ ("replacement", replacement)
        ∷ [])

abbrev pub mutation_exception_schema : (String → String → String) → ExceptionRegistrySchema
mutation_exception_schema digest = record {
  namespace = "mutation:";
  metadata_keys = "file" ∷ "mutator" ∷ "original" ∷ "replacement" ∷ [];
  validate_record = λ id justification raw index.
      and_then (mutation_fields raw index) (mutation_record digest id justification index);
}
