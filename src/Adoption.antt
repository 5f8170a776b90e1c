-- ===== src/Adoption.antt =====
-- Adoption mode (scripts/adoption/mode.mjs): a package that moves to the standard enforces the checks
-- that it has promoted, until a date. The file as it was read is given, and the time in milliseconds
-- since 1970; what is written or removed is returned. `Date.parse` is that of Node: a month from 1 to
-- 12, a day from 1 to 31, and days past the month's end run on into the next.
pub mod Expiry
pub mod Promotion
pub mod Promote
mod Tests
use Prim.Native.Char.{Char, code}
use internal_package_contrac.Shared.{
  ℕ, zero, suc, ◌+◌, ◌-◌, ◌*◌, ◌/◌, String, Bool, true, false, ◌&&◌, ◌||◌, Option, none, some, List,
  [], ◌∷◌, ◌++◌, map, filter, length, template, join, ◌===◌, ◌!==◌, string_Eq, nat_Eq, option_Eq,
  if◌then◌else◌, negate, ltb, leb,
}
use internal_package_contrac.Shared.Dicts.{contains, set_of}
use internal_package_contrac.Shared.Decimals.{decimal}
use internal_package_contrac.Shared.Int.{ℤ, pos, negsuc, sub_ℕ}
use internal_package_contrac.Shared.Json.{
  Json, null, boolean, number, text, array, object, Items, no_items, item, Fields, property,
}
use internal_package_contrac.Shared.Regex.{is_digit, one, at_end}
use internal_package_contrac.Shared.Sorting.{sort}
use internal_package_contrac.Shared.CodeUnits.{text_le}
use internal_package_contrac.Checks.Shared.{Outcome, pass, warn, fail}

abbrev pub day : ℕ
day = 86400000

pub record Date : Type 0 where
  pub year : ℕ
  pub month : ℕ
  pub date : ℕ

abbrev is_dash : Char → Bool
is_dash c = code c === b'-'

-- So many digits, as the number that they write.
digits : ℕ → (ℕ → String → Option Date) → ℕ → String → Option Date
digits zero k n s = k n s
digits (suc i) k n String.[] = none
digits (suc i) k n (String.◌∷◌ c s) =
    let rest = digits i k (n * 10 + (code c - 48)) s in if is_digit c then rest else none

-- `DATE`, with its three numbers.
unfoldable pub date_pattern : String → Option Date
unfolding digits
date_pattern =
    digits 4
      (λ y. one is_dash (
        digits 2
          (λ m. one is_dash (digits 2 (λ d. at_end (record { year = y; month = m; date = d })) 0))
          0))
      0

-- Days since the first of March of the year -400.
unfoldable pub days_of : Date → ℕ
days_of d =
    let early = leb d.month 2 in
    let y = if early then d.year + 399 else d.year + 400 in
    let m = if early then d.month + 9 else d.month - 3 in
    365 * y + y / 4 - y / 100 + y / 400 + (153 * m + 2) / 5 + d.date - 1

-- The first of January 1970, in those days.
abbrev pub epoch_days : ℕ
epoch_days = 865565

abbrev pub exists_on : Date → Bool
exists_on d = leb 1 d.month && leb d.month 12 && leb 1 d.date && leb d.date 31

-- `Date.parse` of the last millisecond of a date, `none` for NaN.
unfoldable pub end_of : Date → Option ℕ
end_of d = if exists_on d then some (days_of d * day + 86399999) else none

-- A file that has the right shape. A value that is no text, but whose text is a date (a list of
-- one), is held as that text.
pub record AdoptionFile : Type 0 where
  pub started_at : String
  pub expires_at : String
  pub enforce : List String

pub data Adoption : Type 0 where
  absent : Adoption
  invalid : String → Adoption
  active : AdoptionFile → Option ℤ → Adoption
  expired : AdoptionFile → Option ℤ → Adoption

-- The file: none, one that is not JSON, or a value.
pub data FileRead : Type 0 where
  no_file not_json : FileRead
  parsed : Json → FileRead

abbrev adoption_file : String
adoption_file = ".repo-contract/adoption.json"

-- `String(value)`; null and undefined are empty inside of a list.
mutual
  text_of : Json → String
  text_of null = "null"
  text_of (boolean b) = if b then "true" else "false"
  text_of (number n) = n
  text_of (text s) = s
  text_of (array no_items) = ""
  text_of (array (item v vs)) = template (listed v ∷ texts_of vs ∷ [])
  text_of (object fs) = "[object Object]"

  listed : Json → String
  listed null = ""
  listed (boolean b) = if b then "true" else "false"
  listed (number n) = n
  listed (text s) = s
  listed (array no_items) = ""
  listed (array (item v vs)) = template (listed v ∷ texts_of vs ∷ [])
  listed (object fs) = "[object Object]"

  texts_of : Items → String
  texts_of no_items = ""
  texts_of (item v vs) = template ("," ∷ listed v ∷ texts_of vs ∷ [])

date_text : Option Json → String
unfolding text_of
date_text none = "undefined"
date_text (some v) = text_of v

-- A list of texts, or `none`.
abbrev push_text : Json → Option (List String) → Option (List String)
push_text (text s) (some rest) = some (s ∷ rest)
push_text _ _ = none

ids_of_items : Items → Option (List String)
ids_of_items no_items = some []
ids_of_items (item v vs) = push_text v (ids_of_items vs)

ids_of : Option Json → Option (List String)
unfolding ids_of_items
ids_of (some (array vs)) = ids_of_items vs
ids_of _ = none

abbrev is_one : Option Json → Bool
is_one (some (number n)) = n === "1"
is_one _ = false

abbrev problem : String → Adoption
problem what = invalid (template (adoption_file ∷ " " ∷ what ∷ []))

-- `Math.ceil((end - now) / DAY)`
abbrev days_left : ℕ → Option ℕ → Option ℤ
days_left now none = none
days_left now (some end) =
    some (if leb now end then pos ((end - now + (day - 1)) / day) else sub_ℕ 0 ((now - end) / day))

-- `end < now`, which is false where `end` is NaN.
abbrev is_over : ℕ → Option ℕ → Bool
is_over now none = false
is_over now (some end) = ltb end now

-- The state of a file that has the right shape and this last date.
unfoldable pub state_of : ℕ → AdoptionFile → Date → Adoption
state_of now file last =
    let end = end_of last in
    let time = now + epoch_days * day in
    if is_over time end then expired file (days_left time end) else active file (days_left time end)

unfoldable pub read_adoption : FileRead → ℕ → Adoption
unfolding date_text ids_of
read_adoption no_file now = absent
read_adoption not_json now = invalid (template (adoption_file ∷ " is not valid JSON." ∷ []))
read_adoption (parsed value) now =
    let started = date_text (property "startedAt" value) in
    let expires = date_text (property "expiresAt" value) in
    if is_one (property "version" value)
    then elim (date_pattern started) [
      | none ↦ problem "needs \"startedAt\" and \"expiresAt\" dates (YYYY-MM-DD)."
      | some first ↦ elim (date_pattern expires) [
        | none ↦ problem "needs \"startedAt\" and \"expiresAt\" dates (YYYY-MM-DD)."
        | some last ↦ elim (ids_of (property "enforce" value)) [
          | none ↦ problem "\"enforce\" must be a list of check ids."
          | some ids ↦
              state_of now (record { started_at = started; expires_at = expires; enforce = ids })
                last
        ]
      ]
    ]
    else problem "needs version 1."

abbrev pub is_failing : Outcome → Bool
is_failing fail = true
is_failing pass = false
is_failing warn = false

abbrev pub is_advisory : List String → String × Outcome → Bool
is_advisory enforce (id, outcome) =
    is_failing outcome && (negate (contains id enforce) && id !== "AdoptionMode")

abbrev pub ids : List (String × Outcome) → List String
ids = map (λ r. r.0)

unfoldable pub advisory_failures : List (String × Outcome) → Adoption → List String
advisory_failures results (active file left) = ids (filter (is_advisory file.enforce) results)
advisory_failures results _ = []
