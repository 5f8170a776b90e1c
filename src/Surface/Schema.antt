-- ===== src/Surface/Schema.antt =====
-- How a change of a JSON Schema is classified (scripts/surface-contract/classify.ts).
use Prim.Native.Char.{Char, code}
use Prim.Native.String.{count}
use internal_package_contrac.Shared.{
  list_Eq, pair_Eq, ℕ, zero, suc, ◌-◌, String, Bool, true, false, ◌&&◌, ◌||◌, Option, none, some,
  List, [], ◌∷◌, ◌++◌, map, any, find?, template, ◌===◌, ◌!==◌, string_Eq, nat_Eq, if◌then◌else◌,
  negate,
}
use internal_package_contrac.Shared.Dicts.{get, contains, keys, set_of}
use internal_package_contrac.Shared.Json.{Json}
use internal_package_contrac.Shared.Regex.{literal, plus, starts_with}
use internal_package_contrac.Surface.Types.{SurfaceChange, SurfaceImpact, breaking, compatible}
use internal_package_contrac.Surface.Flatten.{flatten_schema}

-- `[^/#]`
abbrev is_name_char : Char → Bool
is_name_char c = code c !== b'/' && code c !== b'#'

-- A match of `/properties/NAME` at the front: its text.
property_here : String → Option String
property_here =
    literal "/properties/"
      (plus is_name_char λ name _. some (template ("/properties/" ∷ name ∷ [])))

abbrev skip_of : Option String → ℕ
skip_of none = 0
skip_of (some found) = count found - 1

abbrev root_here : String → Option String → List String
root_here before none = []
root_here before (some found) = template (before ∷ found ∷ []) ∷ []

-- `before` was read already; the next `skip` characters belong to the match before.
roots_from : String → ℕ → String → List String
unfolding property_here
roots_from before skip String.[] = []
roots_from before (suc skip) (String.◌∷◌ c s) =
    roots_from (template (before ∷ String.◌∷◌ c "" ∷ [])) skip s
roots_from before zero (String.◌∷◌ c s) =
    let found = property_here (String.◌∷◌ c s) in
    let later = roots_from (template (before ∷ String.◌∷◌ c "" ∷ [])) (skip_of found) s in
    root_here before found ++ later

unfoldable pub property_roots : String → List String
unfolding roots_from
property_roots = roots_from "" 0

abbrev pub Entries : Type 0
Entries = List (String × String)

-- A key is the root itself, or stands below it.
abbrev under : Entries → String → Bool
under entries root =
    any (λ p. p === root || starts_with p (template (root ∷ "/" ∷ []))) (keys entries)

-- The outermost property of a pointer that the other version does not have at all.
unfoldable pub fresh_root : Entries → String → Option String
fresh_root other pointer = find? (λ root. negate (under other root)) (property_roots pointer)

abbrev push_char : Char → Option (String × String) → Option (String × String)
push_char c none = none
push_char c (some (before, after)) = some (String.◌∷◌ c before, after)

-- What stands before the first `#`, and after it: `indexOf("#")` and the slices at it.
split_hash : String → Option (String × String)
split_hash String.[] = none
split_hash (String.◌∷◌ c s) =
    let later = split_hash s in if code c === b'#' then some ("", s) else push_char c later

-- What stands after the last `/`, or the whole.
after_slash : String → String → String
after_slash so_far String.[] = so_far
after_slash so_far (String.◌∷◌ c s) =
    if code c === b'/'
    then after_slash "" s
    else after_slash (template (so_far ∷ String.◌∷◌ c "" ∷ [])) s

-- What `add` is given, with the pointer that it reports.
pub record Report : Type 0 where
  pub pointer : String
  pub kind : String
  pub impact : SurfaceImpact
  pub widens : Bool
  pub explanation : String

module _ (key : String) where
  unfoldable pub value_changed : String → String → String → Report
  value_changed pointer was now = record {
    pointer = pointer;
    kind = "schema-changed";
    impact = breaking;
    widens = false;
    explanation =
        template (pointer ∷ " changed from " ∷ was ∷ " to " ∷ now ∷ " in " ∷ key ∷ "." ∷ []);
  }

  unfoldable pub entry_added : Entries → String → Report
  unfolding split_hash after_slash
  entry_added old pointer = elim (split_hash pointer) [
    | some (before, member) ↦ record {
      pointer = pointer;
      kind =
          if after_slash "" before === "required"
          then "schema-required-added"
          else "schema-set-member-added";
      impact = breaking;
      widens = false;
      explanation = template (pointer ∷ " now lists " ∷ member ∷ " in " ∷ key ∷ "." ∷ []);
    }
    | none ↦ elim (fresh_root old pointer) [
      | some root ↦ record {
        pointer = root;
        kind = "schema-property-added";
        impact = compatible;
        widens = true;
        explanation = template (root ∷ " is a new property in " ∷ key ∷ "." ∷ []);
      }
      | none ↦ record {
        pointer = pointer;
        kind = "schema-constraint-added";
        impact = breaking;
        widens = false;
        explanation = template (pointer ∷ " is a new constraint in " ∷ key ∷ "." ∷ []);
      }
    ]
  ]

  unfoldable pub entry_removed : Entries → String → Report
  unfolding split_hash after_slash
  entry_removed new pointer = elim (split_hash pointer) [
    | some (before, member) ↦
        let required = after_slash "" before === "required" in
        record {
          pointer = pointer;
          kind = if required then "schema-required-removed" else "schema-set-member-removed";
          impact = if required then compatible else breaking;
          widens = false;
          explanation = template (pointer ∷ " no longer lists " ∷ member ∷ " in " ∷ key ∷ "." ∷ []);
        }
    | none ↦ elim (fresh_root new pointer) [
      | some root ↦ record {
        pointer = root;
        kind = "schema-property-removed";
        impact = breaking;
        widens = false;
        explanation = template (root ∷ " was removed from " ∷ key ∷ "." ∷ []);
      }
      | none ↦ record {
        pointer = pointer;
        kind = "schema-constraint-removed";
        impact = breaking;
        widens = false;
        explanation = template (pointer ∷ " was removed from " ∷ key ∷ "." ∷ []);
      }
    ]
  ]

  -- What one pointer calls `add` with, if at all; a pointer of neither version does not occur.
  unfoldable pub pointer_report : Entries → Entries → String → Option Report
  pointer_report old new pointer = elim (get pointer old) [
    | some was ↦ elim (get pointer new) [
      | some now ↦ if was === now then none else some (value_changed pointer was now)
      | none ↦ some (entry_removed new pointer)
    ]
    | none ↦ elim (get pointer new) [ some now ↦ some (entry_added old pointer) | none ↦ none ]
  ]

  abbrev pub reported_key : Report → String
  reported_key report = template (report.kind ∷ "|" ∷ report.pointer ∷ [])

  abbrev pub reported_change : Report → SurfaceChange
  reported_change report = record {
    id = template ("schema:" ∷ key ∷ ":" ∷ report.pointer ∷ []);
    kind = report.kind;
    impact = report.impact;
    widens = report.widens;
    explanation = report.explanation;
  }

  -- `add`, then the rest of the loop; `reported` holds what was reported so far.
  unfoldable pub add_reports : List String → List (Option Report) → List SurfaceChange
  add_reports reported [] = []
  add_reports reported (none ∷ reports) = add_reports reported reports
  add_reports reported (some report ∷ reports) =
      let known = contains (reported_key report) reported in
      let rest = add_reports (if known then reported else reported_key report ∷ reported) reports in
      if known then rest else reported_change report ∷ rest

  unfoldable pub classify_schema : (String → String → Bool) → Json → Json → List SurfaceChange
  classify_schema id_le before after =
      let a = flatten_schema id_le before in
      let b = flatten_schema id_le after in
      add_reports [] (
        map (pointer_report a.structure b.structure)
          (set_of (keys a.structure ++ keys b.structure)))
      ++ (if a.docs !== b.docs
          then record {
            id = template ("schema:" ∷ key ∷ []);
            kind = "schema-docs-changed";
            impact = compatible;
            widens = false;
            explanation = template ("Descriptions or examples in " ∷ key ∷ " changed." ∷ []);
          }
            ∷ []
          else [])
