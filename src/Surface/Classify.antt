-- ===== src/Surface/Classify.antt =====
-- The differences between two surfaces (`classifySurface`, scripts/surface-contract/classify.ts).
pub mod Widening
pub mod Self
pub mod Kept
use internal_package_contrac.Shared.{
  String, Bool, true, false, Option, none, some, List, [], ◌∷◌, ◌++◌, map, template, string_Eq,
  if◌then◌else◌,
}
use internal_package_contrac.Shared.Dicts.{get, contains, keys, set_of}
use internal_package_contrac.Shared.Json.{Json}
use internal_package_contrac.Shared.Sorting.{sort}
use internal_package_contrac.Surface.Types.{
  CliSurface, ActionSurface, Surface, SurfaceChange, breaking, compatible,
}
use internal_package_contrac.Surface.Cli.{classify_cli}
use internal_package_contrac.Surface.Schema.{classify_schema}
use internal_package_contrac.Surface.Action.{classify_action}

abbrev pub whole : String → String → Bool → String → List SurfaceChange
whole id kind present what =
    record {
      id = id;
      kind = kind;
      impact = if present then compatible else breaking;
      widens = present;
      explanation = template (what ∷ " was " ∷ (if present then "added" else "removed") ∷ "." ∷ []);
    }
    ∷ []

abbrev cli_whole : String → Bool → List SurfaceChange
cli_whole name present =
    whole (template ("cli:" ∷ name ∷ [])) (if present then "cli-added" else "cli-removed") present
      (template ("The `" ∷ name ∷ "` command" ∷ []))

unfoldable pub cli_changes : Surface → Surface → String → List SurfaceChange
cli_changes baseline current name = elim (get name baseline.cli) [
  | some was ↦ elim (get name current.cli) [
    | some now ↦ classify_cli name was now
    | none ↦ cli_whole name false
  ]
  | none ↦ elim (get name current.cli) [
    | some now ↦ cli_whole name true
    | none ↦ cli_whole name false
  ]
]

abbrev schema_whole : String → Bool → List SurfaceChange
schema_whole key present =
    whole (template ("schema:" ∷ key ∷ [])) (if present then "schema-added" else "schema-removed")
      present (template ("The schema served at " ∷ key ∷ []))

unfoldable pub schema_changes :
    (String → String → Bool) → Surface → Surface → String → List SurfaceChange
schema_changes id_le baseline current key = elim (get key baseline.schemas) [
  | some was ↦ elim (get key current.schemas) [
    | some now ↦ classify_schema key id_le was now
    | none ↦ schema_whole key false
  ]
  | none ↦ elim (get key current.schemas) [
    | some now ↦ schema_whole key true
    | none ↦ schema_whole key false
  ]
]

unfoldable pub action_changes : Option ActionSurface → Option ActionSurface → List SurfaceChange
action_changes (some was) (some now) = classify_action was now
action_changes none (some now) = whole "action" "action-added" true "The GitHub Action"
action_changes (some was) none = whole "action" "action-removed" false "The GitHub Action"
action_changes none none = []

unfoldable pub concat_map : (String → List SurfaceChange) → List String → List SurfaceChange
concat_map f [] = []
concat_map f (x ∷ xs) = f x ++ concat_map f xs

module _ (id_le : String → String → Bool) where
  unfoldable pub surface_changes : Surface → Surface → List SurfaceChange
  surface_changes baseline current =
      concat_map (cli_changes baseline current) (set_of (keys baseline.cli ++ keys current.cli))
      ++ (concat_map (schema_changes id_le baseline current)
            (set_of (keys baseline.schemas ++ keys current.schemas))
          ++ action_changes baseline.action current.action)

  abbrev pub surface_change_le : SurfaceChange → SurfaceChange → Bool
  surface_change_le x y = id_le x.id y.id

  unfoldable pub classify_surface : Surface → Surface → List SurfaceChange
  classify_surface baseline current = sort surface_change_le (surface_changes baseline current)
