-- ===== src/Surface/Classify/Kept.antt =====
-- What a consumer keeps when no change is breaking (scripts/surface-contract/classify.ts).
use internal_package_contrac.Shared.{
  String, Bool, true, false, Option, none, some, List, [], ◌∷◌, ◌++◌, map, filter, negate, ◌≡◌,
  refl, subst, arith, Memᴰ, inl, inr, Bool-cases, Option-cases, string_Eq, option_Eq, nat_Eq, ◌===◌,
  eq_of_same, All, All-of_append, All-of_mem, All-mem, mem-append_left, template, if◌then◌else◌,
}
use internal_package_contrac.Shared.Dicts.{
  get, contains, contains-mem, keys, set_of, mem-set_of, mem-keys_of_get,
}
use internal_package_contrac.Shared.Sorting.{mem-sort}
use internal_package_contrac.Shared.Json.{Json}
use internal_package_contrac.Surface.Types.{
  CliSurface, ActionSurface, ActionInput, Surface, SurfaceChange, breaking, compatible,
}
use internal_package_contrac.Surface.Cli.{
  exit_code_changes, flag_changes, flag_removed, flags_of, flags_missing, classify_cli,
}
use internal_package_contrac.Surface.Action.{
  push, input_id, inherited_names, inherited_input, is_in, classify_input, old_input, old_inputs,
  new_input, new_inputs, output_removed, outputs_missing, classify_action,
}
use internal_package_contrac.Surface.Classify.{
  cli_changes, schema_changes, action_changes, concat_map, surface_changes, surface_change_le,
  classify_surface,
}

abbrev pub IsHarmless : SurfaceChange → Type 0
IsHarmless c = c.impact ≡ compatible

abbrev Harmless : List SurfaceChange → Type 0
Harmless = All IsHarmless

-- Names that a breaking change is reported for are kept.
kept_of_filter :
    (f : String → SurfaceChange) (xs ys : List String)
    → ((x : String) → (f x).impact ≡ breaking)
    → Harmless (map f (filter (λ x. negate (contains x ys)) xs))
    → (x : String) → Memᴰ x xs
    → Memᴰ x ys
kept_of_filter f [] ys breaks h x m = elim m [ ]
kept_of_filter f (z ∷ zs) ys breaks h x m = elim (Bool-cases (contains z ys)) [
  | inr absent ↦ absurd (cc (breaks z, (rw absent at h).0))
  | inl there ↦ elim m [
    | Memᴰ.head p ↦ rw p (contains-mem z ys there)
    | Memᴰ.tail t ↦ kept_of_filter f zs ys breaks (rw there at h) x t
  ]
]

exit_code_kept :
    (name : String) (was now : CliSurface)
    → Harmless (exit_code_changes name was now)
    → was.exit_code ≡ now.exit_code
unfolding exit_code_changes
exit_code_kept name was now h = elim (Bool-cases (was.exit_code === now.exit_code)) [
  | inl same ↦ eq_of_same was.exit_code now.exit_code same
  | inr other ↦ absurd (cc ((rw other at h).0))
]

abbrev pub KeepsFlags : CliSurface → CliSurface → Type 0
KeepsFlags was now = (flag : String) → Memᴰ flag (flags_of was.help) → Memᴰ flag (flags_of now.help)

classify_cli-kept :
    (name : String) (was now : CliSurface)
    → Harmless (classify_cli name was now)
    → (was.exit_code ≡ now.exit_code) × KeepsFlags was now
unfolding classify_cli flag_changes
classify_cli-kept name was now h =
    let (front, help) =
      All-of_append IsHarmless (exit_code_changes name was now ++ flag_changes name was now) _ h in
    let (exits, flags) = All-of_append IsHarmless (exit_code_changes name was now) _ front in
    let (removed, added) =
      All-of_append IsHarmless (map (flag_removed name) (flags_missing was.help now.help)) _
        flags in
    (
      exit_code_kept name was now exits,
      kept_of_filter (flag_removed name) (flags_of was.help) (flags_of now.help) (λ flag. refl)
          removed,
    )

-- An input that a caller may go on to leave out, with the same effect.
abbrev pub KeepsInput : ActionInput → ActionInput → Type 0
KeepsInput was now = (was.default ≡ now.default) × (now.required ≡ true → was.required ≡ true)

classify_input-kept :
    (name : String) (was now : ActionInput)
    → Harmless (classify_input name was now)
    → KeepsInput was now
unfolding classify_input
classify_input-kept name was now h = elim (Bool-cases (was.default === now.default)) [
  | inl same ↦ (eq_of_same was.default now.default same, ground (arith, same, h))
  | inr other ↦ absurd (ground (arith, other, h))
]

abbrev pub KeepsInputs : ActionSurface → List (String × ActionInput) → Type 0
KeepsInputs after inputs =
    All (λ e. (now : ActionInput) × (get e.0 after.inputs ≡ some now) × KeepsInput e.1 now) inputs

inherited_input-breaks : (name : String) (was : ActionInput) → ¬ Harmless (inherited_input name was)
inherited_input-breaks name was h =
    let (_, breaks) =
      All-of_append IsHarmless
        (if was.required
          then push (input_id name) "action-input-optional" compatible false
              (template ("Action input " ∷ name ∷ " is now optional." ∷ []))
          else [])
        _ h in
    cc (breaks.0)

old_input-kept :
    (after : ActionSurface) (name : String) (was : ActionInput)
    → Harmless (old_input after (name, was))
    → (now : ActionInput) × (get name after.inputs ≡ some now) × KeepsInput was now
old_input-kept after name was h = elim (Option-cases (get name after.inputs)) [
  | inl gone ↦ elim (Bool-cases (contains name inherited_names)) [
    | inl inherited ↦
        absurd (inherited_input-breaks name was (rw (gone, inherited, old_input) at h))
    | inr own ↦ absurd (cc ((rw (gone, own, old_input) at h).0))
  ]
  | inr (now, is_now) ↦
      (now, is_now, classify_input-kept name was now (rw (is_now, old_input) at h))
]

old_inputs-kept :
    (after : ActionSurface) (inputs : List (String × ActionInput))
    → Harmless (old_inputs after inputs)
    → KeepsInputs after inputs
unfolding old_inputs
old_inputs-kept after [] h = tt
old_inputs-kept after ((name, was) ∷ inputs) h =
    let (here, later) = All-of_append IsHarmless (old_input after (name, was)) _ h in
    (old_input-kept after name was here, old_inputs-kept after inputs later)

-- No input that is new is required, unless its name is one that every object inherits.
abbrev pub NewAreOptional : ActionSurface → List (String × ActionInput) → Type 0
NewAreOptional before inputs =
    All
      (λ e.
        contains e.0 (keys before.inputs) ≡ false
        → contains e.0 inherited_names ≡ false
        → e.1.required ≡ false)
      inputs

new_input-optional :
    (before : ActionSurface) (name : String) (now : ActionInput)
    → is_in name before.inputs ≡ false
    → Harmless (new_input before (name, now))
    → now.required ≡ false
new_input-optional before name now fresh h = elim (Bool-cases now.required) [
  | inl needed ↦ cc ((rw (fresh, needed) at h).0)
  | inr optional ↦ optional
]

new_inputs-optional :
    (before : ActionSurface) (inputs : List (String × ActionInput))
    → Harmless (new_inputs before inputs)
    → NewAreOptional before inputs
unfolding new_inputs
new_inputs-optional before [] h = tt
new_inputs-optional before ((name, now) ∷ inputs) h =
    let (here, later) = All-of_append IsHarmless (new_input before (name, now)) _ h in
    (
      (λ fresh own. new_input-optional before name now (ground (arith, fresh, own)) here),
      new_inputs-optional before inputs later,
    )

abbrev pub KeepsAction : ActionSurface → ActionSurface → Type 0
KeepsAction was now =
    KeepsInputs now was.inputs
    × NewAreOptional was now.inputs
    × ((output : String) → Memᴰ output was.outputs → Memᴰ output now.outputs)

classify_action-kept :
    (was now : ActionSurface) → Harmless (classify_action was now) → KeepsAction was now
unfolding classify_action
classify_action-kept was now h =
    let (olds, rest) = All-of_append IsHarmless (old_inputs now was.inputs) _ h in
    let (news, outputs) = All-of_append IsHarmless (new_inputs was now.inputs) _ rest in
    let (removed, added) =
      All-of_append IsHarmless (map output_removed (outputs_missing was now)) _ outputs in
    (
      old_inputs-kept now was.inputs olds,
      new_inputs-optional was now.inputs news,
      kept_of_filter output_removed was.outputs now.outputs (λ output. refl) removed,
    )

concat_map-mem :
    (f : String → List SurfaceChange) (names : List String) (name : String)
    → Harmless (concat_map f names)
    → Memᴰ name names
    → Harmless (f name)
unfolding concat_map
concat_map-mem f [] name h m = elim m [ ]
concat_map-mem f (x ∷ names) name h (Memᴰ.head p) = rw p ((All-of_append IsHarmless (f x) _ h).0)
concat_map-mem f (x ∷ names) name h (Memᴰ.tail t) =
    concat_map-mem f names name ((All-of_append IsHarmless (f x) _ h).1) t

module _ (id_le : String → String → Bool) (baseline current : Surface) where
  Harmless-parts :
      Harmless (classify_surface id_le baseline current)
      → Harmless (
          concat_map
            (cli_changes baseline current)
            (set_of (keys baseline.cli ++ keys current.cli)))
        × Harmless (
            concat_map
              (schema_changes id_le baseline current)
              (set_of (keys baseline.schemas ++ keys current.schemas)))
        × Harmless (action_changes baseline.action current.action)
  unfolding classify_surface surface_changes
  Harmless-parts h =
      let whole =
        All-of_mem IsHarmless (surface_changes id_le baseline current)
          (λ c m. All-mem IsHarmless _ h (mem-sort (surface_change_le id_le) _ m)) in
      let (clis, rest) =
        All-of_append IsHarmless
          (concat_map (cli_changes baseline current)
            (set_of (keys baseline.cli ++ keys current.cli)))
          _ whole in
      let (schemas, action) =
        All-of_append IsHarmless
          (concat_map (schema_changes id_le baseline current)
            (set_of (keys baseline.schemas ++ keys current.schemas)))
          _ rest in
      (clis, schemas, action)

  cli_kept :
      (name : String) (was : CliSurface)
      → Harmless (cli_changes baseline current name)
      → get name baseline.cli ≡ some was
      → (now : CliSurface) × (get name current.cli ≡ some now)
        × (was.exit_code ≡ now.exit_code)
        × KeepsFlags was now
  unfolding cli_changes
  cli_kept name was h is_was = elim (Option-cases (get name current.cli)) [
    | inl gone ↦ absurd (cc ((rw (is_was, gone, cli_changes) at h).0))
    | inr (now, is_now) ↦
        let (exits, flags) =
          classify_cli-kept name was now (rw (is_was, is_now, cli_changes) at h) in
        (now, is_now, exits, flags)
  ]

  schema_kept :
      (key : String) (was : Json)
      → Harmless (schema_changes id_le baseline current key)
      → get key baseline.schemas ≡ some was
      → (now : Json) × (get key current.schemas ≡ some now)
  unfolding schema_changes
  schema_kept key was h is_was = elim (Option-cases (get key current.schemas)) [
    | inl gone ↦ absurd (cc ((rw (is_was, gone, schema_changes) at h).0))
    | inr (now, is_now) ↦ (now, is_now)
  ]

  action_kept :
      (old new : Option ActionSurface) (was : ActionSurface)
      → Harmless (action_changes old new)
      → old ≡ some was
      → (now : ActionSurface) × (new ≡ some now) × KeepsAction was now
  unfolding action_changes
  action_kept none new was h p = cc
  action_kept (some old) none was h p = absurd (cc (h.0))
  action_kept (some old) (some now) was h p =
      let same : old ≡ was = cc in
      (now, refl, subst (λ z. KeepsAction z now) same (classify_action-kept old now h))

  -- Where no reported change is breaking, everything that the surface promised is still there:
  -- every command, with its exit code and each flag that its help documented; a schema under every key; and the
  -- Action, if there was one, with each input under the same default and not newly required, each
  -- output, and no new input that is required. An input under one of the names that every object
  -- inherits, such as `constructor`, never counts as new.
  pub nothing_breaking-kept :
      All IsHarmless (classify_surface id_le baseline current)
      → ((name : String) (was : CliSurface)
          → get name baseline.cli ≡ some was
          → (now : CliSurface) × (get name current.cli ≡ some now)
            × (was.exit_code ≡ now.exit_code)
            × KeepsFlags was now)
        × ((key : String) (was : Json)
            → get key baseline.schemas ≡ some was
            → (now : Json) × (get key current.schemas ≡ some now))
        × ((was : ActionSurface)
            → baseline.action ≡ some was
            → (now : ActionSurface) × (current.action ≡ some now) × KeepsAction was now)
  nothing_breaking-kept h =
      let (clis, schemas, action) = Harmless-parts h in
      (
        λ name was is_was.
            cli_kept name was
              (concat_map-mem _ _ name clis
                (mem-set_of _ (mem-append_left _ (mem-keys_of_get name baseline.cli is_was))))
              is_was,
        λ key was is_was.
            schema_kept key was
              (concat_map-mem _ _ key schemas
                (mem-set_of _ (mem-append_left _ (mem-keys_of_get key baseline.schemas is_was))))
              is_was,
        λ was is_was. action_kept baseline.action current.action was action is_was,
      )
