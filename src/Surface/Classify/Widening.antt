-- ===== src/Surface/Classify/Widening.antt =====
-- A change that widens the surface cannot break a consumer (scripts/surface-contract/classify.ts).
use internal_package_contrac.Shared.{
  String, Bool, true, Option, none, some, List, [], ◌∷◌, ◌++◌, map, ◌≡◌, refl, arith, Memᴰ, All,
  All-append, All-mem, inl, inr, Bool-cases, Option-cases, string_Eq, option_Eq, ◌===◌,
}
use internal_package_contrac.Shared.Dicts.{get, contains}
use internal_package_contrac.Shared.Sorting.{mem_of_sort}
use internal_package_contrac.Shared.Json.{Json}
use internal_package_contrac.Surface.Types.{
  CliSurface, ActionSurface, ActionInput, Surface, SurfaceChange, compatible,
}
use internal_package_contrac.Surface.Cli.{
  exit_code_changes, flag_changes, flag_removed, flag_added, flags_missing, classify_cli,
}
use internal_package_contrac.Surface.Schema.{
  Entries, Report, value_changed, entry_added, entry_removed, pointer_report, add_reports,
  classify_schema, reported_key,
}
use internal_package_contrac.Surface.Action.{
  inherited_names, is_in, classify_input, old_input, old_inputs, new_input, new_inputs,
  output_removed, output_added, outputs_missing, classify_action,
}
use internal_package_contrac.Surface.Classify.{
  cli_changes, schema_changes, action_changes, concat_map, surface_changes, surface_change_le,
  classify_surface,
}

-- A change that widens is compatible.
abbrev pub IsSound : SurfaceChange → Type 0
IsSound c = c.widens ≡ true → c.impact ≡ compatible

abbrev Sound : List SurfaceChange → Type 0
Sound = All IsSound

append-Sound : (xs ys : List SurfaceChange) → Sound xs → Sound ys → Sound (xs ++ ys)
append-Sound = All-append IsSound

map-Sound :
    (f : String → SurfaceChange) (names : List String)
    → ((name : String) → IsSound (f name))
    → Sound (map f names)
map-Sound f [] each = tt
map-Sound f (name ∷ names) each = (each name, map-Sound f names each)

exit_code_changes-Sound :
    (name : String) (before after : CliSurface) → Sound (exit_code_changes name before after)
unfolding exit_code_changes
exit_code_changes-Sound name before after = ground arith

classify_cli-Sound :
    (name : String) (before after : CliSurface) → Sound (classify_cli name before after)
unfolding classify_cli flag_changes
classify_cli-Sound name before after =
    append-Sound _ _
      (append-Sound _ _ (exit_code_changes-Sound name before after) (
        append-Sound _ _
          (map-Sound (flag_removed name) (flags_missing before.help after.help) (λ flag h. cc))
          (map-Sound (flag_added name) (flags_missing after.help before.help) (λ flag h. refl))))
      (ground arith)

abbrev IsSoundReport : Option Report → Type 0
IsSoundReport none = Unit
IsSoundReport (some r) = r.widens ≡ true → r.impact ≡ compatible

module _ (key : String) where
  added_sound :
      (old : Entries) (pointer : String) → IsSoundReport (some (entry_added key old pointer))
  unfolding entry_added
  added_sound old pointer = ground arith

  removed_sound :
      (new : Entries) (pointer : String) → IsSoundReport (some (entry_removed key new pointer))
  unfolding entry_removed
  removed_sound new pointer = ground arith

  pointer_report_sound :
      (old new : Entries) (pointer : String) → IsSoundReport (pointer_report key old new pointer)
  unfolding pointer_report value_changed
  pointer_report_sound old new pointer = elim (Option-cases (get pointer old)) [
    | inl absent ↦ elim (Option-cases (get pointer new)) [
      | inl gone ↦ rw (absent, gone, pointer_report) tt
      | inr (now, is_now) ↦ rw (absent, is_now, pointer_report) (added_sound old pointer)
    ]
    | inr (was, is_was) ↦ elim (Option-cases (get pointer new)) [
      | inl gone ↦ rw (is_was, gone, pointer_report) (removed_sound new pointer)
      | inr (now, is_now) ↦ elim (Bool-cases (was === now)) [
        | inl same ↦ rw (is_was, is_now, same, pointer_report) tt
        | inr other ↦ rw (is_was, is_now, other, pointer_report) (λ h. cc)
      ]
    ]
  ]

  add_reports-Sound :
      (reported : List String) (reports : List (Option Report))
      → All IsSoundReport reports
      → Sound (add_reports key reported reports)
  unfolding add_reports
  add_reports-Sound reported [] each = tt
  add_reports-Sound reported (none ∷ reports) (_, each) = add_reports-Sound reported reports each
  add_reports-Sound reported (some r ∷ reports) (here, each) =
      elim (Bool-cases (contains (reported_key key r) reported)) [
        | inl known ↦ rw (known, add_reports) (add_reports-Sound reported reports each)
        | inr unknown ↦
            rw (unknown, add_reports)
              (here, add_reports-Sound (reported_key key r ∷ reported) reports each)
      ]

  reports_sound :
      (old new : Entries) (pointers : List String)
      → All IsSoundReport (map (pointer_report key old new) pointers)
  reports_sound old new [] = tt
  reports_sound old new (pointer ∷ pointers) =
      (pointer_report_sound old new pointer, reports_sound old new pointers)

  classify_schema-Sound :
      (id_le : String → String → Bool) (before after : Json)
      → Sound (classify_schema key id_le before after)
  unfolding classify_schema
  classify_schema-Sound id_le before after =
      append-Sound _ _ (add_reports-Sound _ _ (reports_sound _ _ _)) (ground arith)

classify_input-Sound : (name : String) (was now : ActionInput) → Sound (classify_input name was now)
unfolding classify_input
classify_input-Sound name was now = elim (Bool-cases (was.default === now.default)) [
  | inl same ↦ ground (arith, same)
  | inr other ↦ ground (arith, other)
]

old_input-Sound :
    (after : ActionSurface) (input : String × ActionInput) → Sound (old_input after input)
old_input-Sound after (name, was) = elim (Option-cases (get name after.inputs)) [
  | inl gone ↦ elim (Bool-cases (contains name inherited_names)) [
    | inl inherited ↦
        rw (gone, inherited, old_input)
          (elim (Bool-cases was.required) [
            | inl needed ↦ rw needed ((λ h. cc), ((λ h. cc), tt))
            | inr optional ↦ rw optional ((λ h. cc), tt)
          ])
    | inr own ↦ rw (gone, own, old_input) ((λ h. cc), tt)
  ]
  | inr (now, is_now) ↦ rw (is_now, old_input) (classify_input-Sound name was now)
]

old_inputs-Sound :
    (after : ActionSurface) (inputs : List (String × ActionInput)) → Sound (old_inputs after inputs)
unfolding old_inputs
old_inputs-Sound after [] = tt
old_inputs-Sound after (input ∷ inputs) =
    append-Sound _ _ (old_input-Sound after input) (old_inputs-Sound after inputs)

new_input-Sound :
    (before : ActionSurface) (input : String × ActionInput) → Sound (new_input before input)
new_input-Sound before (name, now) = elim (Bool-cases (is_in name before.inputs)) [
  | inl there ↦ rw there tt
  | inr fresh ↦ elim (Bool-cases now.required) [
    | inl needed ↦ rw (fresh, needed) ((λ h. cc), tt)
    | inr optional ↦ rw (fresh, optional) ((λ h. refl), tt)
  ]
]

new_inputs-Sound :
    (before : ActionSurface) (inputs : List (String × ActionInput))
    → Sound (new_inputs before inputs)
unfolding new_inputs
new_inputs-Sound before [] = tt
new_inputs-Sound before (input ∷ inputs) =
    append-Sound _ _ (new_input-Sound before input) (new_inputs-Sound before inputs)

classify_action-Sound : (before after : ActionSurface) → Sound (classify_action before after)
unfolding classify_action
classify_action-Sound before after = append-Sound _ _ (old_inputs-Sound after before.inputs) (
    append-Sound _ _ (new_inputs-Sound before after.inputs) (
      append-Sound _ _ (map-Sound output_removed (outputs_missing before after) (λ name h. cc))
        (map-Sound output_added (outputs_missing after before) (λ name h. refl))))

cli_changes-Sound :
    (baseline current : Surface) (name : String) → Sound (cli_changes baseline current name)
unfolding cli_changes
cli_changes-Sound baseline current name = elim (Option-cases (get name baseline.cli)) [
  | inl absent ↦ elim (Option-cases (get name current.cli)) [
    | inl gone ↦ rw (absent, gone, cli_changes) ((λ h. cc), tt)
    | inr (now, is_now) ↦ rw (absent, is_now, cli_changes) ((λ h. refl), tt)
  ]
  | inr (was, is_was) ↦ elim (Option-cases (get name current.cli)) [
    | inl gone ↦ rw (is_was, gone, cli_changes) ((λ h. cc), tt)
    | inr (now, is_now) ↦ rw (is_was, is_now, cli_changes) (classify_cli-Sound name was now)
  ]
]

module _ (id_le : String → String → Bool) (baseline current : Surface) where
  schema_changes-Sound : (key : String) → Sound (schema_changes id_le baseline current key)
  unfolding schema_changes
  schema_changes-Sound key = elim (Option-cases (get key baseline.schemas)) [
    | inl absent ↦ elim (Option-cases (get key current.schemas)) [
      | inl gone ↦ rw (absent, gone, schema_changes) ((λ h. cc), tt)
      | inr (now, is_now) ↦ rw (absent, is_now, schema_changes) ((λ h. refl), tt)
    ]
    | inr (was, is_was) ↦ elim (Option-cases (get key current.schemas)) [
      | inl gone ↦ rw (is_was, gone, schema_changes) ((λ h. cc), tt)
      | inr (now, is_now) ↦
          rw (is_was, is_now, schema_changes) (classify_schema-Sound key id_le was now)
    ]
  ]

  action_changes-Sound : (was now : Option ActionSurface) → Sound (action_changes was now)
  unfolding action_changes
  action_changes-Sound none none = tt
  action_changes-Sound none (some now) = ((λ h. refl), tt)
  action_changes-Sound (some was) none = ((λ h. cc), tt)
  action_changes-Sound (some was) (some now) = classify_action-Sound was now

  concat_map-Sound :
      (f : String → List SurfaceChange) (names : List String)
      → ((name : String) → Sound (f name))
      → Sound (concat_map f names)
  unfolding concat_map
  concat_map-Sound f [] each = tt
  concat_map-Sound f (name ∷ names) each =
      append-Sound _ _ (each name) (concat_map-Sound f names each)

  surface_changes-Sound : Sound (surface_changes id_le baseline current)
  unfolding surface_changes
  surface_changes-Sound =
      append-Sound _ _ (concat_map-Sound _ _ (cli_changes-Sound baseline current)) (
        append-Sound _ _ (concat_map-Sound _ _ schema_changes-Sound)
          (action_changes-Sound baseline.action current.action))

  -- Between any two surfaces, every reported change that widens the surface is compatible: no change
  -- of a CLI, a JSON Schema or a GitHub Action is both breaking and a mere addition.
  pub widens-compatible :
      (c : SurfaceChange)
      → Memᴰ c (classify_surface id_le baseline current)
      → c.widens ≡ true
      → c.impact ≡ compatible
  unfolding classify_surface
  widens-compatible c m =
      All-mem IsSound _ surface_changes-Sound (mem_of_sort (surface_change_le id_le) _ m)
