-- ===== src/Shared/Trim.antt =====
-- `trim`, and texts without white space.
use Prim.Native.Char.{Char}
use Prim.Native.String.{String, [], ◌∷◌, ◌++◌}
use mathlib.Core.Path.{◌≡◌, refl, ap}
use mathlib.Core.Bool.{Bool, true, false, ◌&&◌}
use text.Mathlib.TextLemmas.{cons-append, nil-append}
use internal_package_contrac.Shared.Tests.{if◌then◌else◌, negate, false_of_negate}
use internal_package_contrac.Shared.Regex.{is_space, AllChars}

trim_start : String → String
trim_start [] = []
trim_start (c ∷ s) = let rest = trim_start s in if is_space c then rest else c ∷ s

is_empty : String → Bool
is_empty [] = true
is_empty (c ∷ s) = false

trim_end : String → String
unfolding is_empty
trim_end [] = []
trim_end (c ∷ s) = let rest = trim_end s in if is_space c && is_empty rest then [] else c ∷ rest

unfoldable pub trim : String → String
unfolding trim_start trim_end
trim s = trim_end (trim_start s)

abbrev pub is_visible : Char → Bool
is_visible c = negate (is_space c)

trim_end-visible : (s : String) → AllChars is_visible s → trim_end s ≡ s
unfolding trim_end
trim_end-visible [] h = refl
trim_end-visible (c ∷ s) (p, h) =
    rw (false_of_negate _ p) (ap {B = String} (λ r. c ∷ r) (trim_end-visible s h))

trim_start-visible : (s : String) → AllChars is_visible s → trim_start s ≡ s
unfolding trim_start
trim_start-visible [] h = refl
trim_start-visible (c ∷ s) (p, h) = rw (false_of_negate _ p)

pub trim-visible : (s : String) → AllChars is_visible s → trim s ≡ s
unfolding trim
trim-visible s h = rw (trim_start-visible s h) (trim_end-visible s h)

pub AllChars-append :
    (p : Char → Bool) (s t : String) → AllChars p s → AllChars p t → AllChars p (s ++ t)
AllChars-append p [] t h k = rw (nil-append t) k
AllChars-append p (c ∷ s) t (q, h) k = rw cons-append (q, AllChars-append p s t h k)

pub AllChars-mono :
    (p q : Char → Bool)
    → ((c : Char) → p c ≡ true → q c ≡ true)
    → (s : String) → AllChars p s
    → AllChars q s
AllChars-mono p q f [] h = tt
AllChars-mono p q f (c ∷ s) (k, h) = (f c k, AllChars-mono p q f s h)
