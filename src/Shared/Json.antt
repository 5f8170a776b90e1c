-- ===== src/Shared/Json.antt =====
-- JSON values, and `JSON.stringify` without indentation. A number is the text that `String` gives it;
-- an object's fields are in the order in which `Object.entries` gives them.
use Prim.Native.Char.{Char, code}
use Prim.Native.Nat.{ℕ, ◌/◌, ◌%◌}
use Prim.Native.String.{String}
use mathlib.Core.Bool.{Bool, true, false}
use mathlib.Core.Option.{Option, none, some}
use mathlib.Core.List.{List, [], ◌∷◌}
use internal_package_contrac.Shared.Tests.{◌===◌, nat_Eq, string_Eq, if◌then◌else◌, ltb}
use internal_package_contrac.Shared.Decimals.{decimal}
use internal_package_contrac.Shared.Texts.{template}

mutual
  pub data Json : Type 0 where
    null : Json
    boolean : Bool → Json
    number : String → Json
    text : String → Json
    array : Items → Json
    object : Fields → Json

  pub data Items : Type 0 where
    no_items : Items
    item : Json → Items → Items

  pub data Fields : Type 0 where
    no_fields : Fields
    field : String → Json → Fields → Fields

-- `object[key]`, none where the object lacks the key.
abbrev pub lookup : String → Fields → Option Json
lookup key no_fields = none
lookup key (field k v fs) = let later = lookup key fs in if k === key then some v else later

-- `value?.key`
abbrev pub property : String → Json → Option Json
property key (object fs) = lookup key fs
property key _ = none

-- `Object.keys(object)`
abbrev pub field_names : Fields → List String
field_names no_fields = []
field_names (field k v fs) = k ∷ field_names fs

-- `typeof value === "string"`, and the text.
abbrev pub string_of : Option Json → Option String
string_of (some (text s)) = some s
string_of _ = none

hex_digit : ℕ → String
hex_digit n =
    if ltb n 10
    then decimal n
    else if n === 10
    then "a"
    else if n === 11
    then "b"
    else if n === 12
    then "c"
    else if n === 13
    then "d"
    else if n === 14
    then "e"
    else "f"

-- A character inside of a JSON string.
escaped : Char → String
unfolding hex_digit
escaped c =
    if code c === 34
    then "\\\""
    else if code c === 92
    then "\\\\"
    else if code c === 8
    then "\\b"
    else if code c === 9
    then "\\t"
    else if code c === 10
    then "\\n"
    else if code c === 12
    then "\\f"
    else if code c === 13
    then "\\r"
    else if ltb (code c) 32
    then template ("\\u00" ∷ hex_digit (code c / 16) ∷ hex_digit (code c % 16) ∷ [])
    else String.◌∷◌ c ""

escape_all : String → String
unfolding escaped
escape_all String.[] = ""
escape_all (String.◌∷◌ c s) = template (escaped c ∷ escape_all s ∷ [])

unfoldable pub quoted : String → String
unfolding escape_all
quoted s = template ("\"" ∷ escape_all s ∷ "\"" ∷ [])

unfoldable mutual
  pub stringify : Json → String
  stringify null = "null"
  stringify (boolean true) = "true"
  stringify (boolean false) = "false"
  stringify (number n) = n
  stringify (text s) = quoted s
  stringify (array no_items) = "[]"
  stringify (array (item v vs)) = template ("[" ∷ stringify v ∷ stringify_items vs ∷ "]" ∷ [])
  stringify (object no_fields) = "{}"
  stringify (object (field k v fs)) =
      template ("{" ∷ quoted k ∷ ":" ∷ stringify v ∷ stringify_fields fs ∷ "}" ∷ [])

  pub stringify_items : Items → String
  stringify_items no_items = ""
  stringify_items (item v vs) = template ("," ∷ stringify v ∷ stringify_items vs ∷ [])

  pub stringify_fields : Fields → String
  stringify_fields no_fields = ""
  stringify_fields (field k v fs) =
      template ("," ∷ quoted k ∷ ":" ∷ stringify v ∷ stringify_fields fs ∷ [])

-- `JSON.stringify(value)` in a template, where a missing field is undefined.
unfoldable pub shown : Option Json → String
shown none = "undefined"
shown (some v) = stringify v
