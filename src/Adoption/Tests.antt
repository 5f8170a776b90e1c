-- ===== src/Adoption/Tests.antt =====
-- A concrete adoption, and what the theorems of this component give for it.
use internal_package_contrac.Shared.{
  String, Option, none, List, [], ◌∷◌, ◌≡◌, ◌≢◌, ◌↔◌, ◌⊎◌, refl, Memᴰ, string_Eq,
}
use internal_package_contrac.Shared.Dicts.{set_of}
use internal_package_contrac.Shared.Sorting.{sort, insert}
use internal_package_contrac.Shared.CodeUnits.{text_le, code_units}
use internal_package_contrac.Shared.Int.{ℤ}
use internal_package_contrac.Shared.Json.{
  number, text, array, object, item, no_items, field, no_fields,
}
use internal_package_contrac.Checks.Shared.{Outcome, fail, pass}
use internal_package_contrac.Adoption.{
  AdoptionFile, active, FileRead, parsed, read_adoption, state_of, end_of, days_of,
  advisory_failures,
}
use internal_package_contrac.Adoption.Promotion.{written, promote_file, promoted}
use internal_package_contrac.Adoption.Expiry.{Ends, read_adoption-Ends}
use internal_package_contrac.Adoption.Promote.{
  promote_file-written, promote_file-advisory, advisory_failures_iff,
}

abbrev adopting : AdoptionFile
adopting = record { started_at = "2026-01-01"; expires_at = "2026-03-01"; enforce = "Lint" ∷ [] }

abbrev adopting_read : FileRead
adopting_read = parsed (
    object (
      field "version" (number "1") (
        field "startedAt" (text "2026-01-01") (
          field "expiresAt" (text "2026-03-01")
            (field "enforce" (array (item (text "Lint") no_items)) no_fields)))))

read_adoption-Ends_example : Ends (read_adoption adopting_read 1770000000000) 1770000000000
read_adoption-Ends_example = read_adoption-Ends adopting_read 1770000000000

abbrev checks : List String
checks = "Lint" ∷ "Docs" ∷ "Tests" ∷ []

abbrev new_file : AdoptionFile
new_file = record {
  started_at = "2026-01-01";
  expires_at = "2026-03-01";
  enforce = "Docs" ∷ "Lint" ∷ [];
}

docs-promoted : (promote_file ("Docs" ∷ []) checks adopting).file ≡ written new_file
unfolding promote_file promoted sort insert set_of text_le code_units
docs-promoted = refl

promote_file-written_example :
    ((id : String) → Memᴰ id new_file.enforce ↔ (Memᴰ id adopting.enforce ⊎ Memᴰ id ("Docs" ∷ [])))
    × ((id : String) → Memᴰ id ("Docs" ∷ []) → Memᴰ id checks)
    × (new_file.started_at ≡ adopting.started_at)
    × (new_file.expires_at ≡ adopting.expires_at)
    × ((promote_file ("Docs" ∷ []) checks adopting).exit_code ≡ 0)
promote_file-written_example =
    promote_file-written ("Docs" ∷ []) checks adopting new_file docs-promoted

abbrev results : List (String × Outcome)
results = ("Lint", fail) ∷ ("Docs", fail) ∷ ("Tests", pass) ∷ []

promote_file-advisory_example :
    ((id : String)
      → Memᴰ id ("Docs" ∷ [])
      → ¬ Memᴰ id (advisory_failures results (active new_file none)))
    × ((id : String)
        → Memᴰ id (advisory_failures results (active new_file none))
        → Memᴰ id (advisory_failures results (active adopting none)))
promote_file-advisory_example =
    promote_file-advisory ("Docs" ∷ []) checks adopting new_file results none docs-promoted

advisory_failures_iff_example : Memᴰ "Docs" (advisory_failures results (active adopting none)) ↔ (
    (file : AdoptionFile) × (left : Option ℤ) × (active adopting none ≡ active file left)
    × Memᴰ ("Docs", fail) results
    × (¬ Memᴰ "Docs" file.enforce)
    × (◌≢◌ {A = String} "Docs" "AdoptionMode"))
advisory_failures_iff_example = advisory_failures_iff results (active adopting none) "Docs"

-- A date that does not exist never ends.
abbrev endless : AdoptionFile
endless = record adopting { expires_at = "2026-13-01" }

endless-active :
    state_of 9000000000000 endless (record { year = 2026; month = 13; date = 1 })
    ≡ active endless none
unfolding state_of end_of
endless-active = refl

epoch_starts : days_of (record { year = 1970; month = 1; date = 1 }) ≡ 865565
unfolding days_of
epoch_starts = refl
