-- ===== src/ApiContract/Semver/RoundTrip.antt =====
-- A formatted version parses back (scripts/api-contract/semver.ts).
use Prim.Native.Char.{Char}
use Prim.Native.String
use text.Mathlib.TextLemmas.{cons-append, nil-append}
use internal_package_contrac.Shared.{
  ℕ, String, ◌≡◌, refl, true, some, arith, Option, template, ap, ◌∙◌,
}
use internal_package_contrac.Shared.Decimals.{
  decimal, number, decimal-digits, decimal-IsNonEmpty, number-decimal,
}
use internal_package_contrac.Shared.Regex.{
  is_digit, is_space, at_end, one, plus, plus_run, AllChars,
}
use internal_package_contrac.Shared.Trim.{is_visible, trim-visible, AllChars-append, AllChars-mono}
use internal_package_contrac.ApiContract.Semver.{
  Version, version_suffix, version_pattern, parse_version, format_version,
}

digit-visible : (c : Char) → is_digit c ≡ true → is_visible c ≡ true
unfolding is_digit is_space
digit-visible c h = ground arith

decimal-visible : (n : ℕ) → AllChars is_visible (decimal n)
decimal-visible n = AllChars-mono is_digit is_visible digit-visible (decimal n) (decimal-digits n)

dotted :
    (s t : String)
    → AllChars is_visible s
    → AllChars is_visible t
    → AllChars is_visible (String.◌++◌ s (String.◌++◌ "." t))
unfolding is_space
dotted s t h k = AllChars-append is_visible s _ h (AllChars-append is_visible "." t (refl, tt) k)

format_version-visible : (v : Version) → AllChars is_visible (format_version v)
unfolding format_version template
format_version-visible v = dotted _ _ (decimal-visible v.major) (
    dotted _ _ (decimal-visible v.minor)
      (AllChars-append is_visible _ _ (decimal-visible v.patch) tt))

dot-append : (t : String) → String.◌++◌ "." t ≡ String.◌∷◌ "." t
dot-append t = cons-append "." "" t ∙ ap (λ r. String.◌∷◌ "." r) (nil-append t)

number_group :
    (k : String → String → Option Version) (n : ℕ) (rest : String) {v : Version}
    → k (decimal n) (String.◌∷◌ "." rest) ≡ some v
    → plus is_digit k (String.◌++◌ (decimal n) (String.◌++◌ "." rest)) ≡ some v
number_group k n rest h = rw (dot-append rest) (
    plus_run is_digit k (decimal n) _ (decimal-IsNonEmpty n) (decimal-digits n)
      (unfold is_digit in refl) h)

last_group :
    (k : String → String → Option Version) (n : ℕ) {v : Version}
    → k (decimal n) "" ≡ some v
    → plus is_digit k (String.◌++◌ (decimal n) "") ≡ some v
last_group k n h = plus_run is_digit k (decimal n) "" (decimal-IsNonEmpty n) (decimal-digits n) tt h

-- Every version, formatted, parses to itself.
pub parse_version-format_version : (v : Version) → parse_version (format_version v) ≡ some v
unfolding parse_version version_pattern version_suffix format_version template one at_end
parse_version-format_version v =
    rw (trim-visible (format_version v) (format_version-visible v))
      (number_group _ v.major _ (number_group _ v.minor _ (last_group _ v.patch values)))
  where
    values :
        some (record {
          major = number (decimal v.major);
          minor = number (decimal v.minor);
          patch = number (decimal v.patch);
        })
        ≡ some v
    values = simp number-decimal
