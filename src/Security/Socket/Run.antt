-- ===== src/Security/Socket/Run.antt =====
-- The run of the score script, as it is interpreted, and the verdict on its alerts
-- (checks/security-socket.ts).
use internal_package_contrac.Shared.{
  ℕ, suc, String, Bool, true, false, ◌&&◌, ◌||◌, Option, none, some, List, [], ◌∷◌, map, filter,
  any, negate, template, join, ◌===◌, ◌!==◌, string_Eq, if◌then◌else◌,
}
use internal_package_contrac.Shared.Decimals.{decimal}
use internal_package_contrac.Shared.Dicts.{map_of}
use internal_package_contrac.Shared.Regex.{literal}
use internal_package_contrac.Shared.Json.{
  Json, boolean, number, text, array, object, Items, no_items, item, Fields, lookup, string_of,
  property,
}
use internal_package_contrac.Checks.Shared.{
  Outcome, pass, warn, fail, is_word, is_present, search, literal_any_case, is_nonempty,
}
use internal_package_contrac.Security.Socket.{NormalizedSocketAlert, safe_string, normalize_alert}
use internal_package_contrac.Security.Socket.Guidance.{SocketProblem, socket_guidance}

abbrev pub registry_path : String
registry_path = ".repo-contract/exceptions/socket.json"

abbrev is_false : Option Json → Bool
is_false (some (boolean false)) = true
is_false _ = false

abbrev is_true : Option Json → Bool
is_true (some (boolean true)) = true
is_true _ = false

abbrev says : Option Json → String → Bool
says (some (text s)) word = s === word
says _ word = false

abbrev counts : Option Json → String → Bool
counts (some (number n)) written = n === written
counts _ written = false

-- `Auth Error`, as Socket says it.
unfoldable pub is_auth_error : Option Json → Bool
is_auth_error (some (object envelope)) =
    is_false (lookup "ok" envelope)
    && (says (lookup "message" envelope) "Auth Error"
        || says (lookup "message" envelope) "AuthError")
is_auth_error _ = false

abbrev failure_code : Option Json → Option Json
failure_code (some (object envelope)) = elim (lookup "data" envelope) [
  | none ↦ none
  | some value ↦ property "code" value
]
failure_code _ = none

abbrev starts_with_word : String → Bool
starts_with_word String.[] = false
starts_with_word (String.◌∷◌ c s) = is_word c

abbrev is_whole : String → String → Bool
is_whole s word =
    is_present (literal word (λ rest. if starts_with_word rest then none else some tt) s)

abbrev network_codes : List String
network_codes = "ENOTFOUND" ∷ "ETIMEDOUT" ∷ "ECONNREFUSED" ∷ "ECONNRESET" ∷ "EAI_AGAIN" ∷ []

-- One of the codes as a whole word; `inside` says that the character before is one of a word.
unfoldable pub names_code : Bool → String → Bool
names_code inside String.[] = false
names_code inside (String.◌∷◌ c s) =
    (negate inside && any (is_whole (String.◌∷◌ c s)) network_codes) || names_code (is_word c) s

abbrev always : String → Bool
always s = true

-- `/network|unreachable|could not connect/i`
unfoldable pub sounds_unreachable : String → Bool
sounds_unreachable = search (λ s.
    literal_any_case "network" always s
    || literal_any_case "unreachable" always s
    || literal_any_case "could not connect" always s)

abbrev failure_text : Option Json → Option String
failure_text (some (object envelope)) =
    if is_false (lookup "ok" envelope)
    then some (
        template (
          safe_string (lookup "message" envelope)
          ∷ " "
          ∷ safe_string (lookup "cause" envelope)
          ∷ []))
    else none
failure_text _ = none

abbrev network_problem : Option String → Option SocketProblem
network_problem none = none
network_problem (some s) =
    if names_code false s || sounds_unreachable s
    then some SocketProblem.network_unreachable
    else none

unfoldable pub classify_problem : String → Option Json → Option SocketProblem
classify_problem stderr parsed =
    let code = failure_code parsed in
    if counts code "401" || counts code "403"
    then some SocketProblem.token_rejected
    else if is_auth_error parsed
    then some SocketProblem.not_authenticated
    else if counts code "429"
    then some SocketProblem.rate_limited
    else if says code "ENOENT"
    then some SocketProblem.cli_not_installed
    else if names_code false stderr
    then some SocketProblem.network_unreachable
    else network_problem (failure_text parsed)

pub data SocketRunOutcome : Type 0 where
  stopped : Outcome → String → SocketRunOutcome
  scanned : List NormalizedSocketAlert → String → SocketRunOutcome

-- The alerts in order, or the index of the first that is malformed.
pub data Alerts : Type 0 where
  normal : List NormalizedSocketAlert → Alerts
  malformed : ℕ → Alerts

abbrev before : NormalizedSocketAlert → Alerts → Alerts
before alert (normal alerts) = normal (alert ∷ alerts)
before alert (malformed index) = malformed index

unfoldable pub normalize_all : ℕ → String → Items → Alerts
normalize_all index self_package no_items = normal []
normalize_all index self_package (item raw rest) = elim (normalize_alert raw self_package) [
  | none ↦ malformed index
  | some alert ↦ before alert (normalize_all (suc index) self_package rest)
]

abbrev values {ℓ} : {A : Type ℓ} → List (String × A) → List A
values = map (λ p. p.1)

abbrev keyed : NormalizedSocketAlert → String × NormalizedSocketAlert
keyed alert = (alert.id, alert)

-- The alerts, each id once.
unfoldable pub unique_alerts : List NormalizedSocketAlert → List NormalizedSocketAlert
unique_alerts alerts = values (map_of (map keyed alerts))

abbrev note_of : String → String → String
note_of scored requested =
    if scored !== "" && (requested !== "" && scored !== requested)
    then template (
        " (scored the latest published version " ∷ scored ∷ "; " ∷ requested
        ∷ " is not on Socket yet)" ∷ [])
    else ""

abbrev scan_of : Fields → Alerts → SocketRunOutcome
scan_of scan (malformed index) = stopped fail (
    template (
      "The Socket score script reported an alert (index "
      ∷ decimal index
      ∷ ") missing its name or example package@version."
      ∷ []))
scan_of scan (normal alerts) = scanned (unique_alerts alerts) (
    note_of (safe_string (lookup "scoredVersion" scan))
      (safe_string (lookup "requestedVersion" scan)))

abbrev of_alerts : Fields → Option Json → SocketRunOutcome
of_alerts scan (some (array raw)) =
    scan_of scan (normalize_all 0 (safe_string (lookup "package" scan)) raw)
of_alerts scan _ = stopped fail "The Socket score script's \"alerts\" is not an array."

-- The envelope's `data`, where it says `ok`.
unfoldable pub interpret_data : Option Json → SocketRunOutcome
interpret_data (some (object scan)) = elim (string_of (lookup "skipped" scan)) [
  | some why ↦ stopped pass (template ("Socket scan skipped: " ∷ why ∷ "." ∷ []))
  | none ↦
      if is_true (lookup "unpublished" scan)
      then stopped pass
          "Socket scan has nothing to score yet: the package is not published. DistNoUrls and NoMinify gate what is about to ship; this check gates it from its first publish on."
      else of_alerts scan (lookup "alerts" scan)
]
interpret_data _ = stopped fail "The Socket score script reported success without a data object."

abbrev detail_of : Fields → String
detail_of envelope =
    let detail = join ": " (
      filter is_nonempty
        (safe_string (lookup "message" envelope) ∷ safe_string (lookup "cause" envelope) ∷ [])) in
    if is_nonempty detail then detail else "unrecognized failure"

-- An envelope that says that it is not `ok`.
abbrev pub of_failure :
    Fields
    → List (String × String)
    → Option (String × String)
    → Option SocketProblem
    → SocketRunOutcome
of_failure envelope env repo (some SocketProblem.not_authenticated) = stopped warn (
    template (
      "the Socket scan did not run, so its alerts were not checked.\n"
      ∷ socket_guidance SocketProblem.not_authenticated env repo
      ∷ []))
of_failure envelope env repo (some problem) = stopped fail (socket_guidance problem env repo)
of_failure envelope env repo none =
    stopped fail (template ("security-socket scan failed: " ∷ detail_of envelope ∷ "." ∷ []))
