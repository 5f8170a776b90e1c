-- ===== src/Surface/Classify/Self/Sorted.antt =====
-- A surface compared with itself as it is read back, the keys of its objects in order.
use mathlib.Core.Option
use internal_package_contrac.Shared.{
  String, Bool, Option, none, some, List, [], ◌∷◌, ◌++◌, ◌≡◌, ◌≢◌, refl, sym, ap, ◌∙◌, subst, Memᴰ,
  All, All-mem, Bool-cases, inl, inr, string_Eq, mem_of_append, ◌===◌,
}
use internal_package_contrac.Shared.Dicts.{
  get, keys, set_of, HasUniqueKeys, Lacks, get_of_mem, mem_of_get, mem_of_set_of, get_of_mem_keys,
  mem-contains, mem-keys_of_get,
}
use internal_package_contrac.Shared.Sorting.{sort, insert, mem-sort, mem_of_sort}
use internal_package_contrac.Shared.Json.{Json}
use internal_package_contrac.Surface.Types.{ActionInput, ActionSurface, Surface}
use internal_package_contrac.Surface.Flatten.{flatten_schema}
use internal_package_contrac.Surface.Schema.{classify_schema}
use internal_package_contrac.Surface.Action.{new_inputs, new_input, classify_action}
use internal_package_contrac.Surface.Stable.{
  map_values, entry_le, sort_keys, sorted_action, sorted_surface,
}
use internal_package_contrac.Surface.Classify.{
  cli_changes, schema_changes, action_changes, surface_changes, classify_surface,
}
use internal_package_contrac.Surface.Classify.Self.{
  HasUniqueInputs, classify_cli_itself, classify_schema_itself, old_inputs_itself, filter-contained,
  concat_map-nil,
}

module _ {V : Type 0} (id_le : String → String → Bool) where
  abbrev by_key : String × V → String × V → Bool
  by_key a b = id_le a.0 b.0

  Lacks-insert :
      (k j : String) (v : V) (m : List (String × V))
      → j ≢ k
      → Lacks k m
      → Lacks k (insert by_key (j, v) m)
  unfolding insert
  Lacks-insert k j v [] d h = (d, tt)
  Lacks-insert k j v ((i, w) ∷ m) d (p, h) = elim (Bool-cases (id_le j i)) [
    | inl before ↦ rw before (d, (p, h))
    | inr after ↦ rw after (p, Lacks-insert k j v m d h)
  ]

  Lacks-sort : (k : String) (m : List (String × V)) → Lacks k m → Lacks k (sort by_key m)
  unfolding sort
  Lacks-sort k [] h = h
  Lacks-sort k ((j, v) ∷ m) (p, h) = Lacks-insert k j v (sort by_key m) p (Lacks-sort k m h)

  insert-HasUniqueKeys :
      (j : String) (v : V) (m : List (String × V))
      → Lacks j m
      → HasUniqueKeys m
      → HasUniqueKeys (insert by_key (j, v) m)
  unfolding insert
  insert-HasUniqueKeys j v [] l h = (tt, tt)
  insert-HasUniqueKeys j v ((i, w) ∷ m) (p, l) (q, h) = elim (Bool-cases (id_le j i)) [
    | inl before ↦ rw before ((p, l), (q, h))
    | inr after ↦ rw after (Lacks-insert i j v m (λ e. p (sym e)) q, insert-HasUniqueKeys j v m l h)
  ]

  sort-HasUniqueKeys : (m : List (String × V)) → HasUniqueKeys m → HasUniqueKeys (sort by_key m)
  unfolding sort
  sort-HasUniqueKeys [] h = h
  sort-HasUniqueKeys ((j, v) ∷ m) (p, h) =
      insert-HasUniqueKeys j v (sort by_key m) (Lacks-sort j m p) (sort-HasUniqueKeys m h)

  get-sort :
      (k : String) {v : V} (m : List (String × V))
      → HasUniqueKeys m
      → get k m ≡ some v
      → get k (sort by_key m) ≡ some v
  get-sort k m unique e =
      get_of_mem (sort by_key m) (sort-HasUniqueKeys m unique)
        (mem-sort by_key m (mem_of_get k m e))

  -- A key of the map, or of the map in order, is found in both.
  key_of_sorted :
      (m : List (String × V)) {k : String}
      → HasUniqueKeys m
      → Memᴰ k (set_of (keys (sort by_key m) ++ keys m))
      → (v : V) × (get k m ≡ some v) × (get k (sort by_key m) ≡ some v)
  key_of_sorted m {k} unique there =
      elim (mem_of_append (keys (sort by_key m)) (mem_of_set_of _ there)) [
        | inl first ↦
            let (v, e) = get_of_mem_keys k (sort by_key m) first in
            (v, get_of_mem m unique (mem_of_sort by_key m (mem_of_get k (sort by_key m) e)), e)
        | inr second ↦ let (v, e) = get_of_mem_keys k m second in (v, e, get-sort k m unique e)
      ]

module _ (f : Json → Json) where
  Lacks-map_values : (k : String) (m : List (String × Json)) → Lacks k m → Lacks k (map_values f m)
  Lacks-map_values k [] h = h
  Lacks-map_values k ((j, v) ∷ m) (p, h) = (p, Lacks-map_values k m h)

  map_values-HasUniqueKeys :
      (m : List (String × Json)) → HasUniqueKeys m → HasUniqueKeys (map_values f m)
  map_values-HasUniqueKeys [] h = h
  map_values-HasUniqueKeys ((j, v) ∷ m) (p, h) =
      (Lacks-map_values j m p, map_values-HasUniqueKeys m h)

  get_of_map_values :
      (k : String) (m : List (String × Json)) {w : Json}
      → get k (map_values f m) ≡ some w
      → (v : Json) × (get k m ≡ some v) × (w ≡ f v)
  unfolding get
  get_of_map_values k [] h = cc h
  get_of_map_values k ((j, v) ∷ m) h = elim (Bool-cases (j === k)) [
    | inl here ↦ (v, rw here refl, cc (rw here at h))
    | inr later ↦ let (x, e, same) = get_of_map_values k m (rw later at h) in (x, rw later e, same)
  ]

  keys-map_values : (m : List (String × Json)) → keys (map_values f m) ≡ keys m
  keys-map_values [] = refl
  keys-map_values ((j, v) ∷ m) = ap (λ z. j ∷ z) (keys-map_values m)

module _ (id_le : String → String → Bool) where
  -- What a surface is asked for: the keys of its maps are each there once, and a schema has the same
  -- entries, those of its documentation included, once its keys are in order.
  pub record IsStable (surface : Surface) : Type 0 where
    pub commands : HasUniqueKeys surface.cli
    pub schema_keys : HasUniqueKeys surface.schemas
    pub inputs : HasUniqueInputs surface.action
    pub entries :
        All
          (λ e. flatten_schema id_le (sort_keys id_le e.1) ≡ flatten_schema id_le e.1)
          surface.schemas

  classify_schema_same :
      (key : String) (a b : Json)
      → flatten_schema id_le a ≡ flatten_schema id_le b
      → classify_schema key id_le a b ≡ []
  unfolding classify_schema
  classify_schema_same key a b e = rw (e, classify_schema) (classify_schema_itself key id_le b)

  cli_changes_sorted :
      (surface : Surface) (name : String)
      → HasUniqueKeys surface.cli
      → Memᴰ name (set_of (keys (sorted_surface id_le surface).cli ++ keys surface.cli))
      → cli_changes (sorted_surface id_le surface) surface name ≡ []
  unfolding cli_changes sorted_surface
  cli_changes_sorted surface name unique m =
      let (cli, e, s) = key_of_sorted id_le surface.cli unique m in
      rw (s, e, cli_changes) (classify_cli_itself name cli)

  schema_changes_sorted :
      (surface : Surface) (key : String)
      → IsStable surface
      → Memᴰ key (set_of (keys (sorted_surface id_le surface).schemas ++ keys surface.schemas))
      → schema_changes id_le (sorted_surface id_le surface) surface key ≡ []
  unfolding schema_changes sorted_surface
  schema_changes_sorted surface key stable m =
      let sorted = map_values (sort_keys id_le) surface.schemas in
      let unique = map_values-HasUniqueKeys (sort_keys id_le) surface.schemas stable.schema_keys in
      let there =
        subst (λ z. Memᴰ key (set_of (keys (sort (entry_le id_le) sorted) ++ z)))
          (sym (keys-map_values (sort_keys id_le) surface.schemas)) m in
      let (w, e, s) = key_of_sorted id_le sorted unique there in
      let (v, found, same) = get_of_map_values (sort_keys id_le) key surface.schemas e in
      rw (s, found, schema_changes)
        (classify_schema_same key w v (
          ap (flatten_schema id_le) same
          ∙ All-mem _ surface.schemas stable.entries (mem_of_get key surface.schemas found)))

  new_inputs_sorted :
      (action : ActionSurface) (rest : List (String × ActionInput))
      → HasUniqueKeys action.inputs
      → ((e : String × ActionInput) → Memᴰ e rest → Memᴰ e action.inputs)
      → new_inputs (sorted_action id_le action) rest ≡ []
  unfolding new_inputs
  new_inputs_sorted action [] unique h = refl
  new_inputs_sorted action ((name, input) ∷ rest) unique h =
      rw
        (
          mem-contains name (keys (sort (by_key id_le) action.inputs)) (
              mem-keys_of_get name (sort (by_key id_le) action.inputs) (
                get-sort id_le name action.inputs unique
                  (get_of_mem action.inputs unique (h (name, input) (Memᴰ.head refl))))),
          new_inputs,
          new_input,
        )
        (new_inputs_sorted action rest unique (λ e m. h e (Memᴰ.tail m)))

  action_changes_sorted :
      (action : Option ActionSurface)
      → HasUniqueInputs action
      → action_changes (Option.map (sorted_action id_le) action) action ≡ []
  unfolding action_changes classify_action
  action_changes_sorted none unique = refl
  action_changes_sorted (some action) unique =
      rw
        (
          old_inputs_itself action unique (sort (by_key id_le) action.inputs)
              (λ e m. mem_of_sort (by_key id_le) action.inputs m),
          new_inputs_sorted action action.inputs unique (λ e m. m),
          filter-contained action.outputs,
        )
        refl

  -- Nothing has changed since the surface was written.
  pub classify_surface_sorted :
      (surface : Surface)
      → IsStable surface
      → classify_surface id_le (sorted_surface id_le surface) surface ≡ []
  unfolding classify_surface surface_changes sort sorted_surface
  classify_surface_sorted surface stable =
      rw
        (
          concat_map-nil _ _ (λ name m. cli_changes_sorted surface name stable.commands m),
          concat_map-nil _ _ (λ key m. schema_changes_sorted surface key stable m),
          action_changes_sorted surface.action stable.inputs,
          classify_surface,
        )
        refl
