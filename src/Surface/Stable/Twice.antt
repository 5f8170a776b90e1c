-- ===== src/Surface/Stable/Twice.antt =====
-- What is written in the order of keys is in that order: sorting it once more changes nothing.
use mathlib.Core.Option
use internal_package_contrac.Shared.{
  String, Bool, true, Option, none, some, List, [], ◌∷◌, ◌≡◌, refl, sym, ap, ◌∙◌, All, Bool-cases,
  inl, inr,
}
use internal_package_contrac.Shared.Sorting.{sort, insert, IsSorted, IsTotalPreorder, sort-IsSorted}
use internal_package_contrac.Shared.Json.{
  Json, null, boolean, number, text, array, object, Items, no_items, item, Fields, no_fields, field,
}
use internal_package_contrac.Surface.Types.{ActionSurface, Surface}
use internal_package_contrac.Surface.Stable.{
  fields_of, map_values, entry_le, sort_keys, sort_items, sorted_entries, stable_text,
  stable_stringify, sorted_surface, cli_json, input_json, action_json, sorted_action, items_of,
}

module _ {A : Type 0} (le : A → A → Bool) where
  insert_first : (a : A) (xs : List A) → All (λ y. le a y ≡ true) xs → insert le a xs ≡ a ∷ xs
  unfolding insert
  insert_first a [] h = refl
  insert_first a (x ∷ xs) (p, h) = rw p refl

  sort_sorted : (xs : List A) → IsSorted le xs → sort le xs ≡ xs
  unfolding sort
  sort_sorted [] h = refl
  sort_sorted (x ∷ xs) (p, h) = rw (sort_sorted xs h) (insert_first x xs p)

  sort_twice : (order : IsTotalPreorder le) (xs : List A) → sort le (sort le xs) ≡ sort le xs
  sort_twice order xs = sort_sorted (sort le xs) (sort-IsSorted le order xs)

module _ (id_le : String → String → Bool) where
  abbrev key_le : {A : Type 0} → String × A → String × A → Bool
  key_le a b = id_le a.0 b.0

  insert-map_values :
      {A : Type 0} (f : A → Json) (k : String) (a : A) (m : List (String × A))
      → insert (entry_le id_le) (k, f a) (map_values f m) ≡ map_values f (insert key_le (k, a) m)
  unfolding insert
  insert-map_values f k a [] = refl
  insert-map_values f k a ((j, b) ∷ m) = elim (Bool-cases (id_le k j)) [
    | inl before ↦ rw before refl
    | inr after ↦ rw after (ap (λ z. (j, f b) ∷ z) (insert-map_values f k a m))
  ]

  sort-map_values :
      {A : Type 0} (f : A → Json) (m : List (String × A))
      → sort (entry_le id_le) (map_values f m) ≡ map_values f (sort key_le m)
  unfolding sort
  sort-map_values f [] = refl
  sort-map_values f ((k, a) ∷ m) =
      rw (sort-map_values f m) (insert-map_values f k a (sort key_le m))

  sorted_entries-fields_of :
      (m : List (String × Json))
      → sorted_entries id_le (fields_of m) ≡ map_values (sort_keys id_le) m
  unfolding sort_keys
  sorted_entries-fields_of [] = refl
  sorted_entries-fields_of ((k, v) ∷ m) =
      ap (λ z. (k, sort_keys id_le v) ∷ z) (sorted_entries-fields_of m)

  module _ (order : IsTotalPreorder (entry_le id_le)) where
    mutual
      unfolding sort_keys

      sort_keys_twice : (v : Json) → sort_keys id_le (sort_keys id_le v) ≡ sort_keys id_le v
      sort_keys_twice null = refl
      sort_keys_twice (boolean b) = refl
      sort_keys_twice (number n) = refl
      sort_keys_twice (text s) = refl
      sort_keys_twice (array vs) = ap array (sort_items_twice vs)
      sort_keys_twice (object fs) =
          let es = sorted_entries id_le fs in
          ap (λ z. object (fields_of z))
            (ap (sort (entry_le id_le)) (
                sorted_entries-fields_of (sort (entry_le id_le) es)
                ∙ (sym (sort-map_values (sort_keys id_le) es)
                    ∙ ap (sort (entry_le id_le)) (sorted_entries_twice fs)))
              ∙ sort_twice (entry_le id_le) order es)

      sort_items_twice : (vs : Items) → sort_items id_le (sort_items id_le vs) ≡ sort_items id_le vs
      sort_items_twice no_items = refl
      sort_items_twice (item v vs) = rw (sort_keys_twice v, sort_items_twice vs) refl

      sorted_entries_twice :
          (fs : Fields)
          → map_values (sort_keys id_le) (sorted_entries id_le fs) ≡ sorted_entries id_le fs
      sorted_entries_twice no_fields = refl
      sorted_entries_twice (field key v fs) = rw (sort_keys_twice v, sorted_entries_twice fs) refl

    -- An object is read back as the same whether or not its entries were put in order before.
    object_twice :
        {A : Type 0} (f : A → Json) (m : List (String × A))
        → sort_keys id_le (object (fields_of (map_values f (sort key_le m))))
          ≡ sort_keys id_le (object (fields_of (map_values f m)))
    unfolding sort_keys
    object_twice f m =
        ap (λ z. object (fields_of z))
          (ap (sort (entry_le id_le)) (
              ap (λ z. sorted_entries id_le (fields_of z)) (sym (sort-map_values f m))
              ∙ (sorted_entries-fields_of (sort (entry_le id_le) (map_values f m))
                  ∙ sym (sort-map_values (sort_keys id_le) (map_values f m))))
            ∙ (sort_twice (entry_le id_le) order (map_values (sort_keys id_le) (map_values f m))
                ∙ ap (sort (entry_le id_le)) (sym (sorted_entries-fields_of (map_values f m)))))

    map_twice :
        (m : List (String × Json))
        → map_values (sort_keys id_le) (map_values (sort_keys id_le) m)
          ≡ map_values (sort_keys id_le) m
    map_twice [] = refl
    map_twice ((k, v) ∷ m) = rw (sort_keys_twice v, map_twice m) refl

    schemas_twice :
        (m : List (String × Json))
        → sort_keys id_le
            (object (fields_of (sort (entry_le id_le) (map_values (sort_keys id_le) m))))
          ≡ sort_keys id_le (object (fields_of m))
    unfolding sort_keys
    schemas_twice m =
        let sorted = map_values (sort_keys id_le) m in
        ap (λ z. object (fields_of z))
          (ap (sort (entry_le id_le)) (
              sorted_entries-fields_of (sort (entry_le id_le) sorted)
              ∙ (sym (sort-map_values (sort_keys id_le) sorted)
                  ∙ ap (sort (entry_le id_le)) (map_twice m)))
            ∙ (sort_twice (entry_le id_le) order sorted
                ∙ ap (sort (entry_le id_le)) (sym (sorted_entries-fields_of m))))

    action_twice :
        (action : Option ActionSurface)
        → sort_keys id_le (action_json (Option.map (sorted_action id_le) action))
          ≡ sort_keys id_le (action_json action)
    unfolding sort_keys
    action_twice none = refl
    action_twice (some action) =
        ap
          (λ z. object (
            fields_of (
              sort (entry_le id_le) (
                ("inputs", z)
                ∷ ("outputs", array (sort_items id_le (items_of action.outputs)))
                ∷ []))))
          (object_twice input_json action.inputs)

    -- A surface and the same with its keys in order have one text.
    pub stable_text-sorted_surface :
        (s : Surface) → stable_text id_le (sorted_surface id_le s) ≡ stable_text id_le s
    unfolding stable_text stable_stringify sorted_surface sort_keys
    stable_text-sorted_surface s =
        rw (object_twice cli_json s.cli, schemas_twice s.schemas, action_twice s.action) refl
