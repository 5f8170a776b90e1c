-- ===== src/Shared/Texts.antt =====
-- Template literals and `Array.prototype.join`.
use Prim.Native.String
use Prim.Native.String.{String}
use mathlib.Core.List.{List, [], ◌∷◌}

-- A template literal, given by its parts in order.
unfoldable pub template : List String → String
template [] = ""
template (part ∷ parts) = String.◌++◌ part (template parts)

unfoldable pub join : String → List String → String
join separator [] = ""
join separator (s ∷ []) = s
join separator (s ∷ t ∷ rest) = String.◌++◌ s (String.◌++◌ separator (join separator (t ∷ rest)))
