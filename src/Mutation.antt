-- ===== src/Mutation.antt =====
-- The check `Mutation` (checks/mutation.ts), and first what the registry makes of the mutants. A `Set`
-- of mutants is held by their fields: the same records match mutants that agree in them, so that they
-- are suppressed together; its size is counted over the mutants. `String.prototype.localeCompare` and
-- `toFixed` of the score are arguments.
pub mod Score
pub mod Report
pub mod Suppressed
pub mod Passed
pub mod Policy
mod Tests
use internal_package_contrac.Shared.{
  ℕ, ◌+◌, ◌-◌, String, Bool, true, false, ◌&&◌, ◌||◌, Option, none, some, List, [], ◌∷◌, ◌++◌, map,
  filter, length, take, negate, ltb, leb, template, join, ◌===◌, string_Eq, nat_Eq, option_Eq,
  pair_Eq, if◌then◌else◌,
}
use internal_package_contrac.Shared.Decimals.{decimal}
use internal_package_contrac.Shared.Dicts.{get, set, contains}
use internal_package_contrac.Shared.Sorting.{sort}
use internal_package_contrac.Checks.Shared.{pass, fail, PolicyResult}
use internal_package_contrac.Exceptions.{ExceptionRecord, v2_field_keys}
use internal_package_contrac.Exceptions.Registry.{record_field_value}
use internal_package_contrac.Exceptions.Findings.{
  Verdict, insufficient, forbidden, permitted, unmatched, Determinant, Evaluate, requiring,
  ExceptionPolicy, Classification,
}

abbrev pub registry_path : String
registry_path = ".repo-contract/exceptions/mutation.json"

pub record ResolvedMutant : Type 0 where
  pub file : String
  pub status : String
  pub mutator : String
  pub original : String
  pub replacement : String
  pub line : ℕ

-- All that a mutant holds.
abbrev pub Key : Type 0
Key = String × (String × (String × (String × (String × ℕ))))

abbrev pub key_of : ResolvedMutant → Key
key_of m = (m.file, (m.status, (m.mutator, (m.original, (m.replacement, m.line)))))

unfoldable pub matches_record : ResolvedMutant → ExceptionRecord → Bool
matches_record m r =
    (some m.file === get "file" r.fields)
    && ((some m.mutator === get "mutator" r.fields)
        && ((some m.original === get "original" r.fields)
            && (some m.replacement === get "replacement" r.fields)))

abbrev pub requirements : List String
requirements = "justification" ∷ v2_field_keys

abbrev pub classification : Classification
classification = record { group = "mutation"; category = "waived" }

abbrev pub is_survived_like : String → Bool
is_survived_like status = (status === "Survived") || (status === "NoCoverage")

pub record RecordOutcome : Type 0 where
  pub stale : Option String
  pub lacking : Option String
  pub suppressed : List ResolvedMutant

abbrev field : ExceptionRecord → String → String
field r key = record_field_value r key

abbrev stale_text : ExceptionRecord → String
stale_text r = template (
    r.id
    ∷ " -- "
    ∷ field r "file"
    ∷ " ["
    ∷ field r "mutator"
    ∷ "] \""
    ∷ field r "original"
    ∷ "\" -> \""
    ∷ field r "replacement"
    ∷ "\" no longer matches any mutant in the report; the surrounding code likely changed."
    ∷ [])

-- The outcome of a record that matches some mutants.
abbrev by_verdict : ExceptionRecord → List ResolvedMutant → Verdict → List String → RecordOutcome
by_verdict r matched insufficient missing = record {
  stale = none;
  lacking = some (
      template (
        r.id
        ∷ " -- missing: "
        ∷ join ", " missing
        ∷ ". Fill those fields in "
        ∷ registry_path
        ∷ "."
        ∷ []));
  suppressed = [];
}
by_verdict r matched forbidden missing = record {
  stale = none;
  lacking = some (template (r.id ∷ " -- policy forbids waiving this mutant." ∷ []));
  suppressed = [];
}
by_verdict r matched _ missing = record {
  stale = none;
  lacking = none;
  suppressed = filter (λ m. is_survived_like m.status) matched;
}

abbrev by_matches : Evaluate → ExceptionRecord → List ResolvedMutant → RecordOutcome
by_matches evaluate r [] = record { stale = some (stale_text r); lacking = none; suppressed = [] }
by_matches evaluate r (m ∷ matched) =
    let determinant = evaluate r classification [] (requiring requirements) record_field_value in
    by_verdict r (m ∷ matched) determinant.verdict determinant.missing

unfoldable pub resolve_record_outcome :
    Evaluate → ExceptionRecord → List ResolvedMutant → RecordOutcome
resolve_record_outcome evaluate r mutants =
    by_matches evaluate r (filter (λ m. matches_record m r) mutants)

pub record Applied : Type 0 where
  pub stale : List String
  pub lacking : List String
  pub suppressed : List Key

abbrev listed : Option String → List String
listed none = []
listed (some s) = s ∷ []

unfoldable pub apply_exception_registry :
    Evaluate → List ResolvedMutant → List ExceptionRecord → Applied
apply_exception_registry evaluate mutants [] = record { stale = []; lacking = []; suppressed = [] }
apply_exception_registry evaluate mutants (r ∷ records) =
    let outcome = resolve_record_outcome evaluate r mutants in
    let rest = apply_exception_registry evaluate mutants records in
    record {
      stale = listed outcome.stale ++ rest.stale;
      lacking = listed outcome.lacking ++ rest.lacking;
      suppressed = map key_of outcome.suppressed ++ rest.suppressed;
    }

abbrev pub has : List Key → ResolvedMutant → Bool
has suppressed m = contains (key_of m) suppressed

-- The mutants of a status that no record suppresses.
abbrev pub counted : List Key → String → List ResolvedMutant → List ResolvedMutant
counted suppressed status = filter (λ m. negate (has suppressed m) && m.status === status)

abbrev pub count : List Key → String → List ResolvedMutant → ℕ
count suppressed status mutants = length (counted suppressed status mutants)

-- The ignored mutants of each file.
abbrev one_more : Option ℕ → ℕ
one_more none = 1
one_more (some n) = n + 1

ignored_by_file : List (String × ℕ) → List ResolvedMutant → List (String × ℕ)
ignored_by_file found [] = found
ignored_by_file found (m ∷ mutants) =
    ignored_by_file
      (if m.status === "Ignored" then set m.file (one_more (get m.file found)) found else found)
      mutants

abbrev sum : List (String × ℕ) → ℕ
sum [] = 0
sum ((file, n) ∷ found) = n + sum found

abbrev file_text : String × ℕ → String
file_text (file, n) = template (file ∷ " " ∷ decimal n ∷ [])

-- The larger count first, then by name.
abbrev ignored_le : (String → String → Bool) → String × ℕ → String × ℕ → Bool
ignored_le name_le (f, n) (g, k) = ltb k n || (n === k && name_le f g)

unfoldable pub describe_ignored : (String → String → Bool) → List ResolvedMutant → String
unfolding ignored_by_file
describe_ignored name_le mutants = elim (ignored_by_file [] mutants) [
  | [] ↦ ""
  | first ∷ rest ↦
      let found = first ∷ rest in
      template (
        "; "
        ∷ decimal (sum found)
        ∷ " ignored by Stryker disable comments or ignoreStatic ("
        ∷ join ", " (map file_text (take 5 (sort (ignored_le name_le) found)))
        ∷ (if ltb 5 (length found)
            then template (", +" ∷ decimal (length found - 5) ∷ " more file(s)" ∷ [])
            else "")
        ∷ ")"
        ∷ [])
]
