-- ===== src/Shared/Regex.antt =====
-- Regular expressions as they run: greedy, with backtracking, each piece in front of what follows.
-- A piece takes the continuation that matches the rest; `none` is a failure to match.
use Prim.Native.Char.{Char, code}
use Prim.Native.String.{String, [], ◌∷◌, ◌++◌}
use mathlib.Core.Path.{◌≡◌, refl}
use mathlib.Core.Bool.{Bool, true, false, ◌||◌, ◌&&◌}
use mathlib.Core.Option.{Option, none, some}
use text.Mathlib.TextLemmas.{nil-append, cons-append}
use internal_package_contrac.Shared.Tests.{◌===◌, nat_Eq, leb, if◌then◌else◌, negate}

-- `\d`
unfoldable pub is_digit : Char → Bool
is_digit c = leb b'0' (code c) && leb (code c) b'9'

-- `\s`, which is also what `trim` removes.
unfoldable pub is_space : Char → Bool
is_space c =
    (leb 9 (code c) && leb (code c) 13)
    || code c === 32
    || code c === 0xa0
    || code c === 0x1680
    || (leb 0x2000 (code c) && leb (code c) 0x200a)
    || code c === 0x2028
    || code c === 0x2029
    || code c === 0x202f
    || code c === 0x205f
    || code c === 0x3000
    || code c === 0xfeff

-- `.`, any character but a line terminator.
unfoldable pub is_any : Char → Bool
is_any c = negate (code c === 10 || code c === 13 || code c === 0x2028 || code c === 0x2029)

module _ {ℓ} {A : Type ℓ} where
  abbrev pub or_else : Option A → Option A → Option A
  or_else none other = other
  or_else (some a) other = some a

  -- `$`
  unfoldable pub at_end : A → String → Option A
  at_end a [] = some a
  at_end a (c ∷ s) = none

  -- One character of a class.
  unfoldable pub one : (Char → Bool) → (String → Option A) → String → Option A
  one p k [] = none
  one p k (c ∷ s) = if p c then k s else none

  -- `?` on a class.
  unfoldable pub optional : (Char → Bool) → (String → Option A) → String → Option A
  optional p k [] = k []
  optional p k (c ∷ s) = if p c then or_else (k s) (k (c ∷ s)) else k (c ∷ s)

  -- `*` on a class, the text that it took handed on.
  unfoldable pub star : (Char → Bool) → (String → String → Option A) → String → Option A
  star p k [] = k [] []
  star p k (c ∷ s) =
      if p c then or_else (star p (λ taken. k (c ∷ taken)) s) (k [] (c ∷ s)) else k [] (c ∷ s)

  -- `+` on a class.
  unfoldable pub plus : (Char → Bool) → (String → String → Option A) → String → Option A
  unfolding star
  plus p k [] = none
  plus p k (c ∷ s) = if p c then star p (λ taken. k (c ∷ taken)) s else none

  -- The characters of a word, in order.
  unfoldable pub literal : String → (String → Option A) → String → Option A
  literal [] k s = k s
  literal (c ∷ w) k [] = none
  literal (c ∷ w) k (d ∷ s) = if code c === code d then literal w k s else none

abbrev pub AllChars : (Char → Bool) → String → Type 0
AllChars p [] = Unit
AllChars p (c ∷ s) = (p c ≡ true) × AllChars p s

-- The text does not begin with a character of the class.
abbrev pub StopsAt : (Char → Bool) → String → Type 0
StopsAt p [] = Unit
StopsAt p (c ∷ s) = p c ≡ false

-- A greedy piece takes a whole run where what follows then matches.
pub star_run {ℓ} :
    {A : Type ℓ} (p : Char → Bool) (k : String → String → Option A) (run rest : String) {a : A}
    → AllChars p run
    → StopsAt p rest
    → k run rest ≡ some a
    → star p k (run ++ rest) ≡ some a
unfolding star
star_run p k [] [] h stop e = e
star_run p k [] (c ∷ rest) h stop e = rw (nil-append (c ∷ rest)) (rw stop e)
star_run p k (c ∷ run) rest (pc, h) stop e =
    rw cons-append (rw (pc, star_run p (λ taken. k (c ∷ taken)) run rest h stop e) refl)

abbrev pub IsNonEmpty : String → Type 0
IsNonEmpty [] = ⊥
IsNonEmpty (c ∷ s) = Unit

pub plus_run {ℓ} :
    {A : Type ℓ} (p : Char → Bool) (k : String → String → Option A) (run rest : String) {a : A}
    → IsNonEmpty run
    → AllChars p run
    → StopsAt p rest
    → k run rest ≡ some a
    → plus p k (run ++ rest) ≡ some a
unfolding plus
plus_run p k [] rest n h stop e = absurd n
plus_run p k (c ∷ run) rest n (pc, h) stop e =
    rw cons-append (rw pc (star_run p (λ taken. k (c ∷ taken)) run rest h stop e))

-- `text.startsWith(prefix)`
unfoldable pub starts_with : String → String → Bool
starts_with text [] = true
starts_with [] (c ∷ prefix) = false
starts_with (d ∷ text) (c ∷ prefix) = if code c === code d then starts_with text prefix else false
