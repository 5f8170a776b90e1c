-- ===== src/Surface/Classify/Self.antt =====
-- A surface compared with itself (scripts/surface-contract/classify.ts).
pub mod Sorted
use internal_package_contrac.Shared.{
  String, Bool, false, Option, none, some, List, [], ◌∷◌, ◌++◌, map, filter, negate, mem_of_append,
  ◌≡◌, refl, ap, arith, Memᴰ, inl, inr, Option-cases, string_Eq, option_Eq, list_Eq, pair_Eq,
  nat_Eq, same_refl,
}
use internal_package_contrac.Shared.Dicts.{
  get, contains, keys, set_of, mem-contains, HasUniqueKeys, get_of_mem, mem_of_set_of,
  get_of_mem_keys, mem-keys_of_get,
}
use internal_package_contrac.Shared.Sorting.{sort}
use internal_package_contrac.Shared.Json.{Json}
use internal_package_contrac.Surface.Types.{
  CliSurface, ActionSurface, ActionInput, Surface, SurfaceChange,
}
use internal_package_contrac.Surface.Cli.{exit_code_changes, flag_changes, flags_of, classify_cli}
use internal_package_contrac.Surface.Flatten.{flatten_schema}
use internal_package_contrac.Surface.Schema.{Entries, pointer_report, add_reports, classify_schema}
use internal_package_contrac.Surface.Action.{
  classify_input, old_input, old_inputs, new_input, new_inputs, classify_action,
}
use internal_package_contrac.Surface.Classify.{
  cli_changes, schema_changes, action_changes, concat_map, surface_changes, classify_surface,
}

filter-nil :
    (p : String → Bool) (xs : List String)
    → ((x : String) → Memᴰ x xs → p x ≡ false)
    → filter p xs ≡ []
filter-nil p [] h = refl
filter-nil p (x ∷ xs) h = rw (h x (Memᴰ.head refl)) (filter-nil p xs (λ y m. h y (Memᴰ.tail m)))

filter-contained : (xs : List String) → filter (λ x. negate (contains x xs)) xs ≡ []
filter-contained xs = filter-nil _ xs (λ x m. ap negate (mem-contains x xs m))

classify_cli_itself : (name : String) (cli : CliSurface) → classify_cli name cli cli ≡ []
unfolding classify_cli flag_changes exit_code_changes
classify_cli_itself name cli =
    rw
      (
        same_refl cli.exit_code,
        same_refl cli.help,
        filter-contained (flags_of cli.help),
        classify_cli,
      )
      refl

pointer_report_itself :
    (key : String) (entries : Entries) (pointer : String)
    → pointer_report key entries entries pointer ≡ none
unfolding pointer_report
pointer_report_itself key entries pointer = elim (Option-cases (get pointer entries)) [
  | inl absent ↦ rw (absent, absent, pointer_report) refl
  | inr (value, present) ↦ rw (present, present, same_refl value, pointer_report) refl
]

add_reports_itself :
    (key : String) (entries : Entries) (pointers reported : List String)
    → add_reports key reported (map (pointer_report key entries entries) pointers) ≡ []
unfolding add_reports
add_reports_itself key entries [] reported = refl
add_reports_itself key entries (pointer ∷ pointers) reported =
    rw (pointer_report_itself key entries pointer, add_reports)
      (add_reports_itself key entries pointers reported)

classify_schema_itself :
    (key : String) (id_le : String → String → Bool) (schema : Json)
    → classify_schema key id_le schema schema ≡ []
unfolding classify_schema
classify_schema_itself key id_le schema =
    rw
      (
        add_reports_itself key (flatten_schema id_le schema).structure
            (set_of (
              keys (flatten_schema id_le schema).structure
              ++ keys (flatten_schema id_le schema).structure))
            [],
        same_refl (flatten_schema id_le schema).docs,
        classify_schema,
      )
      refl

classify_input_itself : (name : String) (input : ActionInput) → classify_input name input input ≡ []
unfolding classify_input
classify_input_itself name input = ground (arith, same_refl input.default)

module _ (action : ActionSurface) (unique : HasUniqueKeys action.inputs) where
  old_inputs_itself :
      (rest : List (String × ActionInput))
      → ((e : String × ActionInput) → Memᴰ e rest → Memᴰ e action.inputs)
      → old_inputs action rest ≡ []
  unfolding old_inputs
  old_inputs_itself [] h = refl
  old_inputs_itself ((name, input) ∷ rest) h =
      rw
        (
          get_of_mem action.inputs unique (h (name, input) (Memᴰ.head refl)),
          classify_input_itself name input,
          old_inputs,
          old_input,
        )
        (old_inputs_itself rest (λ e m. h e (Memᴰ.tail m)))

  new_inputs_itself :
      (rest : List (String × ActionInput))
      → ((e : String × ActionInput) → Memᴰ e rest → Memᴰ e action.inputs)
      → new_inputs action rest ≡ []
  unfolding new_inputs
  new_inputs_itself [] h = refl
  new_inputs_itself ((name, input) ∷ rest) h =
      rw
        (
          mem-contains name (keys action.inputs) (
              mem-keys_of_get name action.inputs
                (get_of_mem action.inputs unique (h (name, input) (Memᴰ.head refl)))),
          new_inputs,
          new_input,
        )
        (new_inputs_itself rest (λ e m. h e (Memᴰ.tail m)))

  classify_action_itself : classify_action action action ≡ []
  unfolding classify_action
  classify_action_itself =
      rw
        (
          old_inputs_itself action.inputs (λ e m. m),
          new_inputs_itself action.inputs (λ e m. m),
          filter-contained action.outputs,
        )
        refl

abbrev pub HasUniqueInputs : Option ActionSurface → Type 0
HasUniqueInputs none = Unit
HasUniqueInputs (some action) = HasUniqueKeys action.inputs

action_changes_itself :
    (action : Option ActionSurface) → HasUniqueInputs action → action_changes action action ≡ []
unfolding action_changes
action_changes_itself none unique = refl
action_changes_itself (some action) unique = classify_action_itself action unique

concat_map-nil :
    (f : String → List SurfaceChange) (names : List String)
    → ((name : String) → Memᴰ name names → f name ≡ [])
    → concat_map f names ≡ []
unfolding concat_map
concat_map-nil f [] h = refl
concat_map-nil f (name ∷ names) h =
    rw (h name (Memᴰ.head refl), concat_map) (concat_map-nil f names (λ n m. h n (Memᴰ.tail m)))

-- A key of either of two equal maps is a key of the map.
key_of_both {κ} :
    {V : Type κ} (m : List (String × V)) {k : String}
    → Memᴰ k (set_of (keys m ++ keys m))
    → (v : V) × (get k m ≡ some v)
key_of_both m {k} there = elim (mem_of_append (keys m) (mem_of_set_of _ there)) [
  | inl first ↦ get_of_mem_keys k m first
  | inr second ↦ get_of_mem_keys k m second
]

cli_changes_itself :
    (surface : Surface) (name : String)
    → Memᴰ name (set_of (keys surface.cli ++ keys surface.cli))
    → cli_changes surface surface name ≡ []
unfolding cli_changes
cli_changes_itself surface name m =
    let (cli, present) = key_of_both surface.cli m in
    rw (present, present, cli_changes) (classify_cli_itself name cli)

schema_changes_itself :
    (id_le : String → String → Bool) (surface : Surface) (key : String)
    → Memᴰ key (set_of (keys surface.schemas ++ keys surface.schemas))
    → schema_changes id_le surface surface key ≡ []
unfolding schema_changes
schema_changes_itself id_le surface key m =
    let (schema, present) = key_of_both surface.schemas m in
    rw (present, present, schema_changes) (classify_schema_itself key id_le schema)

-- A surface compared with itself has no change, where its Action, if it has one, names each input
-- once.
pub classify_surface_itself :
    (id_le : String → String → Bool) (surface : Surface)
    → HasUniqueInputs surface.action
    → classify_surface id_le surface surface ≡ []
unfolding classify_surface surface_changes sort
classify_surface_itself id_le surface unique =
    rw
      (
        concat_map-nil _ _ (cli_changes_itself surface),
        concat_map-nil _ _ (schema_changes_itself id_le surface),
        action_changes_itself surface.action unique,
        classify_surface,
      )
      refl
