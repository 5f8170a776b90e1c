-- ===== src/Checks/Shared.antt =====
-- What the checks share (checks/shared.ts). The evidence of a run, the verdict of a policy and a
-- check's definition are types of the package repo-contract, which only holds their fields.
pub mod Headline
pub mod Ended
use Prim.Native.Char.{Char, code}
use Prim.Native.String
use internal_package_contrac.Shared.{
  ℕ, ◌+◌, String, Bool, true, false, ◌&&◌, ◌||◌, Option, none, some, List, [], ◌∷◌, ◌===◌, ◌!==◌,
  string_Eq, nat_Eq, if◌then◌else◌, leb, template, join, filter, map, negate, any, Option-cases,
}
use internal_package_contrac.Shared.Regex.{
  is_digit, is_space, is_any, literal, star, plus, one, or_else,
}
use internal_package_contrac.Shared.Trim.{trim}
use mathlib.Core.Option

pub data Outcome : Type 0 where
  pass warn fail : Outcome

pub record PolicyResult : Type 0 where
  pub outcome : Outcome
  pub rationale : String

-- How a check's process ended, what it printed, and its output, `none` where it is not the one
-- JSON document that it should be.
pub record CheckEvidence {ℓ} (Output : Type ℓ) : Type ℓ where
  pub status : String
  pub spawn_error_code : Option String
  pub spawn_error : Option String
  pub stdout : String
  pub stderr : String
  pub output : Option Output

abbrev pub is_nonempty : String → Bool
is_nonempty s = s !== ""

-- `[A-Za-z]`
abbrev is_letter : Char → Bool
is_letter c = (leb b'A' (code c) && leb (code c) b'Z') || (leb b'a' (code c) && leb (code c) b'z')

-- `\w`
abbrev pub is_word : Char → Bool
is_word c = is_letter c || is_digit c || code c === b'_'

abbrev is_bracket : ℕ → Char → Bool
is_bracket b c = code c === b

-- `: .+$`; what is left after a greedy run of `.` is the end of a line.
crash_message : String → String → Option String
crash_message head =
    literal ": " (plus is_any λ message rest. some (template (head ∷ ": " ∷ message ∷ [])))

-- `(?:\s\[\w+\])?`
crash_code : String → String → Option String
unfolding crash_message
crash_code head String.[] = crash_message head String.[]
crash_code head (String.◌∷◌ c s) =
    let plain = crash_message head (String.◌∷◌ c s) in
    if is_space c
    then or_else
        (one (is_bracket b'[')
          (plus is_word λ word.
            one (is_bracket b']')
              (crash_message (template (head ∷ String.◌∷◌ c "" ∷ "[" ∷ word ∷ "]" ∷ []))))
          s)
        plain
    else plain

-- `ERROR_LINE` at the beginning of a line.
unfoldable pub crash_at : String → Option String
unfolding crash_code
crash_at = star is_letter λ name. literal "Error" (crash_code (template (name ∷ "Error" ∷ [])))

-- The later places where `^` matches: after each line terminator.
crash_after : String → Option String
unfolding crash_at
crash_after String.[] = none
crash_after (String.◌∷◌ c s) =
    let later = crash_after s in if is_any c then later else or_else (crash_at s) later

unfoldable pub crash_line_of : String → Option String
unfolding crash_after
crash_line_of stderr = or_else (crash_at stderr) (crash_after stderr)

-- What `parseToolEnvelope` returns.
pub data Envelope {ℓ} (Output : Type ℓ) : Type ℓ where
  opened : Output → Envelope Output
  refused : PolicyResult → Envelope Output

module _ {ℓ} {Output : Type ℓ} where
  unfoldable pub combined_output : CheckEvidence Output → String
  combined_output result =
      join "\n" (filter is_nonempty (trim result.stdout ∷ trim result.stderr ∷ []))

  unfoldable pub crash_line : CheckEvidence Output → Option String
  crash_line result = crash_line_of result.stderr

  unfoldable pub unparseable_rationale : String → CheckEvidence Output → String
  unparseable_rationale prefix result =
      let printed = combined_output result in
      template (
        elim (crash_line result) [
          | none ↦ template (prefix ∷ " check output could not be parsed as JSON." ∷ [])
          | some crash ↦ template (
              prefix ∷ " the check stopped with an error before it produced a result: " ∷ crash
              ∷ [])
        ]
        ∷ (if is_nonempty printed then template ("\n" ∷ printed ∷ []) else "")
        ∷ [])

  unfoldable pub abnormal_termination : CheckEvidence Output → String → Option String
  abnormal_termination result tool =
      if result.status === "completed"
      then none
      else if result.status === "spawn_error"
      then some (
          template (
            tool
            ∷ " could not be spawned ("
            ∷ Option.get_or result.spawn_error_code "spawn error"
            ∷ "): "
            ∷ Option.get_or result.spawn_error "unknown error"
            ∷ ". Is it installed?"
            ∷ []))
      else some
          (template (tool ∷ " did not run to completion (status: " ∷ result.status ∷ ")." ∷ []))

  -- The output is an object with a field `ok` exactly where `has_ok` says so.
  unfoldable pub parse_tool_envelope :
      (Output → Bool) → CheckEvidence Output → String → String → Envelope Output
  parse_tool_envelope has_ok result tool rationale_prefix =
      let printed = combined_output result in
      let unparsed = refused (record {
        outcome = fail;
        rationale = template (
            rationale_prefix
            ∷ " output could not be parsed as JSON."
            ∷ (if is_nonempty printed then template ("\n" ∷ printed ∷ []) else "")
            ∷ []);
      }) in
      elim (abnormal_termination result tool) [
        | some terminated ↦ refused (record { outcome = fail; rationale = terminated })
        | none ↦ elim result.output [
          | none ↦ unparsed
          | some value ↦ if has_ok value then opened value else unparsed
        ]
      ]

-- `text.split("\n")[0]`
unfoldable pub first_line : String → String
first_line String.[] = ""
first_line (String.◌∷◌ c s) =
    let rest = first_line s in if code c === 10 then "" else String.◌∷◌ c rest

-- A match at the front, or further on.
unfoldable pub search : (String → Bool) → String → Bool
search found String.[] = found String.[]
search found (String.◌∷◌ c s) = found (String.◌∷◌ c s) || search found s

abbrev pub is_present : Option (Unit {0}) → Bool
is_present none = false
is_present (some _) = true

unfoldable pub includes : String → String → Bool
unfolding search
includes text part = search (λ s. is_present (literal part (λ _. some tt) s)) text

abbrev lower : ℕ → ℕ
lower n = if leb b'A' n && leb n b'Z' then n + 32 else n

-- A word in any case; the words of the pattern are in lower case.
unfoldable pub literal_any_case : String → (String → Bool) → String → Bool
literal_any_case String.[] k s = k s
literal_any_case (String.◌∷◌ c w) k String.[] = false
literal_any_case (String.◌∷◌ c w) k (String.◌∷◌ d s) =
    code c === lower (code d) && literal_any_case w k s

starts_with_digit : String → Bool
starts_with_digit String.[] = false
starts_with_digit (String.◌∷◌ c s) = is_digit c

-- `NOTHING_USABLE`
unfoldable pub says_nothing_usable : String → Bool
unfolding literal_any_case starts_with_digit search
says_nothing_usable line =
    search
      (λ s.
        literal_any_case "could not be parsed" (λ _. true) s
        || literal_any_case "did not evaluate" (λ _. true) s
        || literal_any_case "produced no output" (λ _. true) s
        || literal_any_case "exited " starts_with_digit s)
      line

abbrev is_fail : Outcome → Bool
is_fail pass = false
is_fail warn = false
is_fail fail = true

-- A policy that says why a tool died, if that is not said already.
unfoldable pub led_by_error :
    {Output : Type 0}
    → String
    → (CheckEvidence Output → PolicyResult)
    → CheckEvidence Output
    → PolicyResult
led_by_error id policy result =
    let verdict = policy result in
    let line = first_line verdict.rationale in
    elim (crash_line result) [
      | none ↦ verdict
      | some crash ↦
          if negate (is_fail verdict.outcome)
            || negate (says_nothing_usable line)
            || includes line crash
          then verdict
          else record verdict {
            rationale = template (
                id ∷ ": the tool stopped with an error before it produced a result: " ∷ crash ∷ "\n"
                ∷ verdict.rationale ∷ []);
          }
    ]

-- A contract's checks: their policies, by id.
unfoldable pub with_error_headline :
    {Output : Type 0}
    → List (String × (CheckEvidence Output → PolicyResult))
    → List (String × (CheckEvidence Output → PolicyResult))
with_error_headline [] = []
with_error_headline ((id, policy) ∷ checks) =
    (id, led_by_error id policy) ∷ with_error_headline checks
