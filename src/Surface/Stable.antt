-- ===== src/Surface/Stable.antt =====
-- The text of a surface that does not depend on the order of keys (`stableStringify` of
-- scripts/surface-contract/run.ts). Keys that are array indices, which `Object.fromEntries` would
-- move to the front, are left out. `id_le a b` stands for `a.localeCompare(b) <= 0`.
pub mod Twice
use mathlib.Core.Option
use internal_package_contrac.Shared.{
  String, Bool, true, false, Option, none, some, List, [], ◌∷◌, template,
}
use internal_package_contrac.Shared.Decimals.{decimal}
use internal_package_contrac.Shared.Sorting.{sort}
use internal_package_contrac.Shared.Json.{
  Json, null, boolean, number, text, array, object, Items, no_items, item, Fields, no_fields, field,
  quoted,
}
use internal_package_contrac.Surface.Types.{CliSurface, ActionInput, ActionSurface, Surface}

abbrev fields_of : List (String × Json) → Fields
fields_of [] = no_fields
fields_of ((key, value) ∷ entries) = field key value (fields_of entries)

abbrev items_of : List String → Items
items_of [] = no_items
items_of (s ∷ rest) = item (text s) (items_of rest)

-- `JSON.stringify(value, null, 2)`; `indent` is that of the value itself.
mutual
  pretty : String → Json → String
  pretty indent null = "null"
  pretty indent (boolean true) = "true"
  pretty indent (boolean false) = "false"
  pretty indent (number n) = n
  pretty indent (text s) = quoted s
  pretty indent (array no_items) = "[]"
  pretty indent (array (item v vs)) = template (
      "[\n  "
      ∷ indent
      ∷ pretty (template (indent ∷ "  " ∷ [])) v
      ∷ pretty_items (template (indent ∷ "  " ∷ [])) vs
      ∷ "\n"
      ∷ indent
      ∷ "]"
      ∷ [])
  pretty indent (object no_fields) = "{}"
  pretty indent (object (field key v fs)) = template (
      "{\n  "
      ∷ indent
      ∷ quoted key
      ∷ ": "
      ∷ pretty (template (indent ∷ "  " ∷ [])) v
      ∷ pretty_fields (template (indent ∷ "  " ∷ [])) fs
      ∷ "\n"
      ∷ indent
      ∷ "}"
      ∷ [])

  pretty_items : String → Items → String
  pretty_items indent no_items = ""
  pretty_items indent (item v vs) =
      template (",\n" ∷ indent ∷ pretty indent v ∷ pretty_items indent vs ∷ [])

  pretty_fields : String → Fields → String
  pretty_fields indent no_fields = ""
  pretty_fields indent (field key v fs) =
      template (",\n" ∷ indent ∷ quoted key ∷ ": " ∷ pretty indent v ∷ pretty_fields indent fs ∷ [])

abbrev input_json : ActionInput → Json
input_json input = object (
    fields_of (
      ("required", boolean input.required)
      ∷ ("default", elim input.default [ none ↦ null | some s ↦ text s ])
      ∷ []))

abbrev cli_json : CliSurface → Json
cli_json cli = object (
    fields_of (
      ("exitCode", elim cli.exit_code [ none ↦ null | some n ↦ number (decimal n) ])
      ∷ ("help", text cli.help)
      ∷ []))

abbrev pub map_values : {A : Type 0} → (A → Json) → List (String × A) → List (String × Json)
map_values f [] = []
map_values f ((key, a) ∷ entries) = (key, f a) ∷ map_values f entries

abbrev action_json : Option ActionSurface → Json
action_json none = null
action_json (some action) = object (
    fields_of (
      ("inputs", object (fields_of (map_values input_json action.inputs)))
      ∷ ("outputs", array (items_of action.outputs))
      ∷ []))

-- A surface as the object that it is.
abbrev surface_json : Surface → Json
surface_json surface = object (
    fields_of (
      ("cli", object (fields_of (map_values cli_json surface.cli)))
      ∷ ("schemas", object (fields_of surface.schemas))
      ∷ ("action", action_json surface.action)
      ∷ []))

module _ (id_le : String → String → Bool) where
  abbrev pub entry_le : String × Json → String × Json → Bool
  entry_le a b = id_le a.0 b.0

  unfoldable mutual
    unfolding sort

    -- The children are sorted before the entries are put in order, which looks at the keys only.
    pub sort_keys : Json → Json
    sort_keys null = null
    sort_keys (boolean b) = boolean b
    sort_keys (number n) = number n
    sort_keys (text s) = text s
    sort_keys (array vs) = array (sort_items vs)
    sort_keys (object fs) = object (fields_of (sort entry_le (sorted_entries fs)))

    sort_items : Items → Items
    sort_items no_items = no_items
    sort_items (item v vs) = item (sort_keys v) (sort_items vs)

    sorted_entries : Fields → List (String × Json)
    sorted_entries no_fields = []
    sorted_entries (field key v fs) = (key, sort_keys v) ∷ sorted_entries fs

  abbrev pub sorted_action : ActionSurface → ActionSurface
  sorted_action action = record {
    inputs = sort (λ a b. id_le a.0 b.0) action.inputs;
    outputs = action.outputs;
  }

  -- A surface as it is read back from its text: the keys of every object are in order.
  unfoldable pub sorted_surface : Surface → Surface
  unfolding sort_keys
  sorted_surface surface = record {
    cli = sort (λ a b. id_le a.0 b.0) surface.cli;
    schemas = sort entry_le (map_values sort_keys surface.schemas);
    action = Option.map sorted_action surface.action;
  }

  unfoldable pub stable_stringify : Json → String
  unfolding pretty sort_keys
  stable_stringify value = template (pretty "" (sort_keys value) ∷ "\n" ∷ [])

  unfoldable pub stable_text : Surface → String
  stable_text surface = stable_stringify (surface_json surface)
