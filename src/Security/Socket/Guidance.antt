-- ===== src/Security/Socket/Guidance.antt =====
-- What to do where the Socket scan could not run (checks/socket-guidance.ts). The repository's owner
-- and name, which git answers, are an argument.
use internal_package_contrac.Shared.{
  ℕ, ◌+◌, String, Bool, false, ◌&&◌, ◌||◌, Option, none, some, List, [], ◌∷◌, ◌++◌, template, join,
  ◌===◌, ◌!==◌, string_Eq, option_Eq, if◌then◌else◌,
}
use internal_package_contrac.Shared.Decimals.{decimal}
use internal_package_contrac.Shared.Dicts.{get}

pub data SocketProblem : Type 0 where
  cli_not_installed not_authenticated token_rejected network_unreachable rate_limited :
      SocketProblem

abbrev is_truthy : Option String → Bool
is_truthy none = false
is_truthy (some ci) = ci !== "" && (ci !== "false" && ci !== "0")

unfoldable pub is_ci_environment : List (String × String) → Bool
is_ci_environment env = is_truthy (get "CI" env) || (get "GITHUB_ACTIONS" env === some "true")

abbrev token_steps : List String
token_steps =
    "Create a Socket API token at socket.dev (Settings > API Tokens) with the `packages:list` permission."
    ∷ []

abbrev ci_secret_steps : String → List String
ci_secret_steps secrets_url =
    token_steps
    ++ (template (
          "Add it to GitHub as a repository secret named SOCKET_SECURITY_API_KEY: " ∷ secrets_url
          ∷ " (Settings > Secrets and variables > Actions > New repository secret). For several repositories, add it once as an organization secret instead."
          ∷ [])
        ∷ "Make sure the workflow step that runs the contract maps it: `env:` / `SOCKET_SECURITY_API_KEY: ${{ secrets.SOCKET_SECURITY_API_KEY }}`."
        ∷ [])

abbrev secrets_url_of : Option (String × String) → String
secrets_url_of none = "https://github.com/<owner>/<repo>/settings/secrets/actions"
secrets_url_of (some (owner, repo)) =
    template ("https://github.com/" ∷ owner ∷ "/" ∷ repo ∷ "/settings/secrets/actions" ∷ [])

abbrev cause_of : SocketProblem → Bool → String
cause_of SocketProblem.cli_not_installed ci = "the `socket` CLI is not installed"
cause_of SocketProblem.not_authenticated ci =
    if ci
    then "no Socket API token is available to this CI run"
    else "you are not signed in to Socket on this machine"
cause_of SocketProblem.token_rejected ci =
    "Socket rejected the API token as invalid, expired or revoked"
cause_of SocketProblem.network_unreachable ci = "the Socket API could not be reached"
cause_of SocketProblem.rate_limited ci =
    "Socket rate-limited or exhausted the quota of this API token"

abbrev steps_of : SocketProblem → Bool → String → List String
steps_of SocketProblem.cli_not_installed ci url =
    if ci
    then "Install it in the workflow before the contract step: `npm install --global @socketsecurity/cli` (or keep `@socketsecurity/cli` in devDependencies and run through `npx`)."
      ∷ ci_secret_steps url
    else "Install it: `npm install --global @socketsecurity/cli`."
      ∷ "Sign in: `socket login` (opens your browser), then confirm with `socket config list` that `apiToken` is set."
      ∷ "Re-run `npm run contract`." ∷ []
steps_of SocketProblem.not_authenticated ci url =
    if ci
    then ci_secret_steps url
    else "Sign in: `socket login` (opens your browser)."
      ∷ "Confirm with `socket config list` that `apiToken` is set and `defaultOrg` is your organization."
      ∷ "Re-run `npm run contract`." ∷ []
steps_of SocketProblem.token_rejected ci url =
    if ci
    then "Create a new Socket API token (socket.dev > Settings > API Tokens, `packages:list` permission)."
      ∷ template ("Replace the SOCKET_SECURITY_API_KEY secret with it: " ∷ url ∷ [])
      ∷ []
    else "Sign in again: `socket logout` then `socket login`."
      ∷ "If SOCKET_SECURITY_API_KEY or SOCKET_CLI_API_TOKEN is exported in your shell, unset it or replace it with a valid token."
      ∷ "Re-run `npm run contract`." ∷ []
steps_of SocketProblem.network_unreachable ci url =
    "Check your network connection, proxy and VPN, then re-run the contract."
    ∷ (if ci
        then "If this repeats in CI, check Socket's status page and that the runner may reach api.socket.dev."
        else "If you are offline, run the contract again once you are back online -- this check has no offline mode.")
    ∷ []
steps_of SocketProblem.rate_limited ci url =
    "Wait a few minutes and re-run the contract."
    ∷ "If it keeps happening, check the token's quota in the Socket dashboard; a package score request costs quota units."
    ∷ []

unfoldable pub numbered : ℕ → List String → List String
numbered index [] = []
numbered index (step ∷ steps) =
    template ("  " ∷ decimal (index + 1) ∷ ". " ∷ step ∷ []) ∷ numbered (index + 1) steps

unfoldable pub socket_guidance :
    SocketProblem → List (String × String) → Option (String × String) → String
socket_guidance problem env repo =
    let ci = is_ci_environment env in
    join "\n" (
      template ("Socket scan could not run: " ∷ cause_of problem ci ∷ "." ∷ [])
      ∷ (numbered 0 (steps_of problem ci (secrets_url_of repo))
          ++ ("This check never passes without a scan." ∷ [])))
