-- ===== src/Auth/Login.antt =====
-- api/routes/auth.py: `login`.
use game_gardens_of_karaxas.Base.{
  ℕ, ◌+◌, String, not, Option, none, some, List, [], ◌∷◌, ◌==◌, nat_equality, string_equality,
  pair_equality, option_equality, if◌then◌else◌, first_where,
}
use game_gardens_of_karaxas.Models.{User}
use game_gardens_of_karaxas.RateLimit.{admitted, too_many_requests}
use game_gardens_of_karaxas.ReleasePolicy.Versions.{ensure_release_policy}
use game_gardens_of_karaxas.ReleasePolicy.Evaluate.{VersionDecision, evaluate_version}
use game_gardens_of_karaxas.AuthContext.{requires_latest_build}
use game_gardens_of_karaxas.Auth.{
  flag_text, Env, Site, Fresh, AuthAnswer, entered, rate_limited, denied, failed, check_limits,
  event, log_event, fail_attempt, passes_mfa, opened_session, enter, contract_mismatch,
}

pub record LoginRequest : Type 0 where
  pub email : String
  pub password : String
  pub otp_code : Option String
  pub client_version : String
  pub client_content_version_key : String
  pub client_content_contract : Option String

abbrev pub user_by_email : String → List User → Option User
user_by_email email = first_where (λ (u : User). u.email == email)

-- a refused login: it counts as a failure, of the login and of the two keys of the limiter
unfoldable pub refuse_login :
    {Version : Type 0} → Env Version → ℕ → String → String → String → Option ℕ → Site → Site
refuse_login env now ip email kind actor site =
    let counted = record site { login_failure_total = site.login_failure_total + 1 } in
    fail_attempt env now ip email
      (event kind "warning" actor none (some ip) (("email", email) ∷ [])) counted

-- `login` behind `evaluate_version`
unfoldable pub login_versions :
    {Version : Type 0}
    → Env Version
    → ℕ
    → Fresh
    → String
    → LoginRequest
    → User
    → VersionDecision
    → Site
    → AuthAnswer × Site
login_versions env now fresh ip request user version site =
    let email = env.lower request.email in
    let block = λ (kind : String) (detail : List (String × String)).
      log_event env (event kind "warning" (some user.id) none (some ip) detail) site in
    let s =
      opened_session env now fresh user request.client_version request.client_content_version_key in
    let success =
      event "login_success" "info" (some user.id) (some s.id) (some ip) (
        ("is_admin", flag_text user.is_admin) ∷ ("mfa_enabled", flag_text user.mfa_enabled) ∷ []) in
    if requires_latest_build env.lib version
    then (
      denied 426 "latest_build_required",
      block "login_latest_build_required" (
          ("client_version", request.client_version)
          ∷ ("latest_version", version.latest_version)
          ∷ []),
    )
    else if contract_mismatch env.contract request.client_content_contract
    then (
      denied 426 "content_contract_mismatch",
      block "login_contract_mismatch" (("email", email) ∷ []),
    )
    else if version.force_update
    then (
      denied 426 "force_update",
      block "login_force_update_block" (
          ("client_version", request.client_version)
          ∷ ("client_content_version_key", request.client_content_version_key)
          ∷ []),
    )
    else (
      entered user s fresh.refresh_token version,
      enter env ip email success s
          (record site { login_success_total = site.login_success_total + 1 }),
    )

-- `login` of a user whose password and second factor are right
unfoldable pub login_admitted :
    {Version : Type 0}
    → Env Version
    → ℕ
    → Fresh
    → String
    → LoginRequest
    → User
    → Site
    → AuthAnswer × Site
login_admitted env now fresh ip request user site =
    elim (ensure_release_policy site.server.releases) [
      | none ↦ (failed, site)
      | some (policy, releases) ↦
          login_versions env now fresh ip request user
            (evaluate_version env.lib now policy (some request.client_version)
              (some request.client_content_version_key))
            (record site { server = record site.server { releases = releases } })
    ]

-- `login` behind the limiter
unfoldable pub login_user :
    {Version : Type 0}
    → Env Version
    → ℕ
    → Fresh
    → String
    → LoginRequest
    → Option User
    → Site
    → AuthAnswer × Site
login_user env now fresh ip request none site = (
  denied 401 "invalid_credentials",
  refuse_login env now ip (env.lower request.email) "login_failed_invalid_credentials" none site,
)
login_user env now fresh ip request (some user) site =
    let email = env.lower request.email in
    if not (env.verify_password request.password user.password_hash)
    then (
      denied 401 "invalid_credentials",
      refuse_login env now ip email "login_failed_invalid_credentials" none site,
    )
    else if not (passes_mfa env user request.otp_code)
    then (
      denied 401 "invalid_mfa_code",
      refuse_login env now ip email "login_failed_mfa" (some user.id) site,
    )
    else login_admitted env now fresh ip request user site

unfoldable pub login :
    {Version : Type 0} → Env Version → ℕ → Fresh → String → LoginRequest → Site → AuthAnswer × Site
login env now fresh ip request site =
    let email = env.lower request.email in
    let (admission, limiter) = check_limits env now ip email site.limiter in
    let checked = record site { limiter = limiter } in
    elim admission [
      | too_many_requests wait ↦ (rate_limited wait, checked)
      | admitted ↦
          login_user env now fresh ip request (user_by_email email site.server.accounts.users)
            checked
    ]
