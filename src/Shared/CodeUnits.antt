-- ===== src/Shared/CodeUnits.antt =====
-- The default order of `sort`: by UTF-16 code units.
use Prim.Native.Nat.{ℕ, ◌+◌, ◌-◌, ◌/◌, ◌%◌}
use Prim.Native.Char.{code}
use Prim.Native.String.{String}
use mathlib.Core.Bool.{Bool, true, false}
use mathlib.Core.List.{List, [], ◌∷◌}
use internal_package_contrac.Shared.Tests.{ltb, if◌then◌else◌}

unfoldable pub code_units : String → List ℕ
code_units String.[] = []
code_units (String.◌∷◌ c s) =
    let rest = code_units s in
    if ltb (code c) 0x10000
    then code c ∷ rest
    else (0xd800 + (code c - 0x10000) / 0x400) ∷ (0xdc00 + (code c - 0x10000) % 0x400) ∷ rest

units_le : List ℕ → List ℕ → Bool
units_le [] ys = true
units_le (x ∷ xs) [] = false
units_le (x ∷ xs) (y ∷ ys) =
    let rest = units_le xs ys in if ltb x y then true else if ltb y x then false else rest

unfoldable pub text_le : String → String → Bool
unfolding units_le code_units
text_le s t = units_le (code_units s) (code_units t)
