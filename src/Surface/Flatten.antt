-- ===== src/Surface/Flatten.antt =====
-- A JSON Schema as pointers and texts (`flattenSchema`, scripts/surface-contract/classify.ts).
-- `id_le a b` stands for `a.localeCompare(b) <= 0`.
use internal_package_contrac.Shared.{
  list_Eq, pair_Eq, ℕ, ◌+◌, String, Bool, true, false, ◌&&◌, Option, none, some, List, [], ◌∷◌,
  ◌++◌, template, string_Eq, nat_Eq, if◌then◌else◌, negate,
}
use internal_package_contrac.Shared.Dicts.{set, contains}
use internal_package_contrac.Shared.Decimals.{decimal}
use internal_package_contrac.Shared.Json.{
  Json, null, boolean, number, text, array, object, Items, no_items, item, Fields, no_fields, field,
  stringify,
}
use internal_package_contrac.Shared.Sorting.{sort}

abbrev pub doc_keys : List String
doc_keys = "description" ∷ "title" ∷ "$comment" ∷ "examples" ∷ "default" ∷ []

abbrev pub name_map_keys : List String
name_map_keys =
    "properties" ∷ "patternProperties" ∷ "$defs" ∷ "definitions" ∷ "dependentSchemas" ∷ []

abbrev is_scalar : Json → Bool
is_scalar null = true
is_scalar (boolean b) = true
is_scalar (number n) = true
is_scalar (text s) = true
is_scalar (array vs) = false
is_scalar (object fs) = false

every_scalar : Items → Bool
every_scalar no_items = true
every_scalar (item v vs) = is_scalar v && every_scalar vs

abbrev names_are_free : Option String → Bool
names_are_free none = false
names_are_free (some parent) = contains parent name_map_keys

-- The assignments that a walk makes to `structure` and to `docs`, in order.
pub record Writes : Type 0 where
  pub structure : List (String × String)
  pub docs : List (String × String)

abbrev no_writes : Writes
no_writes = record { structure = []; docs = [] }

abbrev both : Writes → Writes → Writes
both first second = record {
  structure = first.structure ++ second.structure;
  docs = first.docs ++ second.docs;
}

abbrev structure_write : String → String → Writes
structure_write pointer value = record { structure = (pointer, value) ∷ []; docs = [] }

abbrev joined : List (String × Writes) → Writes
joined [] = no_writes
joined ((key, writes) ∷ rest) = both writes (joined rest)

set_members : Items → String → Writes
set_members no_items pointer = no_writes
set_members (item v vs) pointer =
    both (structure_write (template (pointer ∷ "#" ∷ stringify v ∷ [])) "") (set_members vs pointer)

module _ (id_le : String → String → Bool) where
  abbrev pub key_le : String × Writes → String × Writes → Bool
  key_le a b = id_le a.0 b.0

  mutual
    unfolding every_scalar set_members sort

    -- Each child is walked before the children are put in order; a walk does not depend on the others.
    walk : Json → String → Option String → Writes
    walk null pointer parent = structure_write pointer (stringify null)
    walk (boolean b) pointer parent = structure_write pointer (stringify (boolean b))
    walk (number n) pointer parent = structure_write pointer (stringify (number n))
    walk (text s) pointer parent = structure_write pointer (stringify (text s))
    walk (array no_items) pointer parent = structure_write pointer "[]"
    walk (array (item v vs)) pointer parent =
        let each = walk_items (item v vs) pointer parent 0 in
        if every_scalar (item v vs) then set_members (item v vs) pointer else each
    walk (object fs) pointer parent = joined (sort key_le (walk_fields fs pointer parent))

    walk_items : Items → String → Option String → ℕ → Writes
    walk_items no_items pointer parent index = no_writes
    walk_items (item v vs) pointer parent index =
        both (walk v (template (pointer ∷ "/" ∷ decimal index ∷ [])) parent)
          (walk_items vs pointer parent (index + 1))

    walk_fields : Fields → String → Option String → List (String × Writes)
    walk_fields no_fields pointer parent = []
    walk_fields (field key child fs) pointer parent =
        let below = walk child (template (pointer ∷ "/" ∷ key ∷ [])) (some key) in
        let written =
          if contains key doc_keys && negate (names_are_free parent)
          then record {
            structure = [];
            docs = (template (pointer ∷ "/" ∷ key ∷ []), stringify child) ∷ [];
          }
          else below in
        (key, written) ∷ walk_fields fs pointer parent

  assign_all : List (String × String) → List (String × String) → List (String × String)
  assign_all entries [] = entries
  assign_all entries ((pointer, value) ∷ writes) = assign_all (set pointer value entries) writes

  unfoldable pub flatten_schema : Json → Writes
  unfolding walk assign_all
  flatten_schema schema =
      let writes = walk schema "" none in
      record { structure = assign_all [] writes.structure; docs = assign_all [] writes.docs }
