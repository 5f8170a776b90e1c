-- ===== src/Surface/Action.antt =====
-- How a change of a GitHub Action is classified (scripts/surface-contract/classify.ts).
use internal_package_contrac.Shared.{
  String, Bool, true, false, ◌&&◌, ◌||◌, none, some, List, [], ◌∷◌, ◌++◌, map, filter, template,
  ◌!==◌, string_Eq, option_Eq, if◌then◌else◌, negate,
}
use internal_package_contrac.Shared.Dicts.{get, contains, keys}
use internal_package_contrac.Surface.Types.{
  ActionInput, ActionSurface, SurfaceChange, SurfaceImpact, breaking, compatible,
}

abbrev pub push : String → String → SurfaceImpact → Bool → String → List SurfaceChange
push id kind impact widens explanation =
    record { id = id; kind = kind; impact = impact; widens = widens; explanation = explanation }
    ∷ []

abbrev pub input_id : String → String
input_id name = template ("action:input:" ∷ name ∷ [])

-- An input that both have.
unfoldable pub classify_input : String → ActionInput → ActionInput → List SurfaceChange
classify_input name was now =
    (if negate was.required && now.required
      then push (input_id name) "action-input-required" breaking false
          (template ("Action input " ∷ name ∷ " is now required." ∷ []))
      else [])
    ++ ((if was.required && negate now.required
          then push (input_id name) "action-input-optional" compatible false
              (template ("Action input " ∷ name ∷ " is now optional." ∷ []))
          else [])
        ++ (if was.default !== now.default
            then push (input_id name) "action-input-default-changed" breaking false
                (template ("Action input " ∷ name ∷ " has a different default." ∷ []))
            else []))

-- The names that every object inherits from `Object.prototype`: a lookup finds something under each.
abbrev pub inherited_names : List String
inherited_names =
    "constructor" ∷ "__defineGetter__" ∷ "__defineSetter__" ∷ "hasOwnProperty" ∷ "__lookupGetter__"
    ∷ "__lookupSetter__" ∷ "isPrototypeOf" ∷ "propertyIsEnumerable" ∷ "toString" ∷ "valueOf"
    ∷ "__proto__" ∷ "toLocaleString" ∷ []

-- An input that is gone, where its name finds what is inherited, which is not required and has no
-- default, not even `null`.
abbrev pub inherited_input : String → ActionInput → List SurfaceChange
inherited_input name was =
    (if was.required
      then push (input_id name) "action-input-optional" compatible false
          (template ("Action input " ∷ name ∷ " is now optional." ∷ []))
      else [])
    ++ push (input_id name) "action-input-default-changed" breaking false
        (template ("Action input " ∷ name ∷ " has a different default." ∷ []))

abbrev pub old_input : ActionSurface → String × ActionInput → List SurfaceChange
old_input after (name, was) = elim (get name after.inputs) [
  | none ↦
      if contains name inherited_names
      then inherited_input name was
      else push (input_id name) "action-input-removed" breaking false
          (template ("Action input " ∷ name ∷ " was removed." ∷ []))
  | some now ↦ classify_input name was now
]

unfoldable pub old_inputs : ActionSurface → List (String × ActionInput) → List SurfaceChange
old_inputs after [] = []
old_inputs after (input ∷ inputs) = old_input after input ++ old_inputs after inputs

-- `name in inputs`, which finds inherited names, too.
abbrev pub is_in : String → List (String × ActionInput) → Bool
is_in name inputs = contains name (keys inputs) || contains name inherited_names

abbrev pub new_input : ActionSurface → String × ActionInput → List SurfaceChange
new_input before (name, now) =
    if is_in name before.inputs
    then []
    else push (input_id name) "action-input-added" (if now.required then breaking else compatible)
        (negate now.required)
        (template (
          "Action input "
          ∷ name
          ∷ " was added"
          ∷ (if now.required then " and is required" else "")
          ∷ "."
          ∷ []))

unfoldable pub new_inputs : ActionSurface → List (String × ActionInput) → List SurfaceChange
new_inputs before [] = []
new_inputs before (input ∷ inputs) = new_input before input ++ new_inputs before inputs

abbrev pub outputs_missing : ActionSurface → ActionSurface → List String
outputs_missing these those = filter (λ name. negate (contains name those.outputs)) these.outputs

abbrev pub output_removed : String → SurfaceChange
output_removed name = record {
  id = template ("action:output:" ∷ name ∷ []);
  kind = "action-output-removed";
  impact = breaking;
  widens = false;
  explanation = template ("Action output " ∷ name ∷ " was removed." ∷ []);
}

abbrev pub output_added : String → SurfaceChange
output_added name = record {
  id = template ("action:output:" ∷ name ∷ []);
  kind = "action-output-added";
  impact = compatible;
  widens = true;
  explanation = template ("Action output " ∷ name ∷ " was added." ∷ []);
}

unfoldable pub classify_action : ActionSurface → ActionSurface → List SurfaceChange
classify_action before after =
    old_inputs after before.inputs
    ++ (new_inputs before after.inputs
        ++ (map output_removed (outputs_missing before after)
            ++ map output_added (outputs_missing after before)))
