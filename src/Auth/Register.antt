-- ===== src/Auth/Register.antt =====
-- api/routes/auth.py: `register`. The user is committed before the versions of the client are looked at.
use game_gardens_of_karaxas.Base.{
  ℕ, ◌+◌, String, false, Option, none, some, [], ◌∷◌, ◌++◌, nat_equality, string_equality,
  pair_equality, option_equality, if◌then◌else◌,
}
use game_gardens_of_karaxas.Base.Text.{strip}
use game_gardens_of_karaxas.Models.{User}
use game_gardens_of_karaxas.RateLimit.{admitted, too_many_requests}
use game_gardens_of_karaxas.ReleasePolicy.Versions.{ensure_release_policy, text_or}
use game_gardens_of_karaxas.ReleasePolicy.Evaluate.{VersionDecision, evaluate_version}
use game_gardens_of_karaxas.AuthContext.{requires_latest_build}
use game_gardens_of_karaxas.Auth.{
  Env, Site, Fresh, AuthAnswer, entered, rate_limited, denied, failed, check_limits, event,
  fail_attempt, opened_session, enter, contract_mismatch,
}
use game_gardens_of_karaxas.Auth.Login.{user_by_email}

-- `client_version`, the content key and the contract are headers.
pub record RegisterRequest : Type 0 where
  pub email : String
  pub password : String
  pub display_name : String
  pub client_version : Option String
  pub client_content_version_key : Option String
  pub client_content_contract : Option String

abbrev pub new_user : {Version : Type 0} → Env Version → ℕ → RegisterRequest → User
new_user env i request = record {
  id = i;
  email = env.lower request.email;
  display_name = strip request.display_name;
  password_hash = env.hash_password request.password;
  is_admin = false;
  mfa_totp_secret = none;
  mfa_enabled = false;
  mfa_enabled_at = none;
}

abbrev pub add_user : User → Site → Site
add_user user site =
    let accounts = site.server.accounts in
    record site {
      server = record site.server {
        accounts = record accounts { users = accounts.users ++ user ∷ [] };
      };
      next_user_id = site.next_user_id + 1;
    }

-- `register` behind `evaluate_version`
unfoldable pub register_versions :
    {Version : Type 0}
    → Env Version
    → ℕ
    → Fresh
    → String
    → User
    → VersionDecision
    → Site
    → AuthAnswer × Site
register_versions env now fresh ip user version site =
    let s =
      opened_session env now fresh user version.client_version version.client_content_version_key in
    let success =
      event "register_success" "info" (some user.id) (some s.id) (some ip)
        (("email", user.email) ∷ []) in
    if requires_latest_build env.lib version
    then (denied 426 "latest_build_required", site)
    else if version.force_update
    then (denied 426 "force_update", site)
    else (entered user s fresh.refresh_token version, enter env ip user.email success s site)

-- `register` behind the commit of the user
unfoldable pub register_committed :
    {Version : Type 0}
    → Env Version
    → ℕ
    → Fresh
    → String
    → RegisterRequest
    → User
    → Site
    → AuthAnswer × Site
register_committed env now fresh ip request user site =
    elim (ensure_release_policy site.server.releases) [
      | none ↦ (failed, site)
      | some (policy, releases) ↦
          register_versions env now fresh ip user
            (evaluate_version env.lib now policy (some (text_or request.client_version "0.0.0"))
              request.client_content_version_key)
            (record site { server = record site.server { releases = releases } })
    ]

-- `register` behind the limiter
unfoldable pub register_account :
    {Version : Type 0}
    → Env Version
    → ℕ
    → Fresh
    → String
    → RegisterRequest
    → Option User
    → Site
    → AuthAnswer × Site
register_account env now fresh ip request (some existing) site =
    let email = env.lower request.email in
    (
      denied 409 "email_conflict",
      fail_attempt env now ip email
          (event "register_conflict" "warning" none none (some ip) (("email", email) ∷ [])) site,
    )
register_account env now fresh ip request none site =
    let email = env.lower request.email in
    let user = new_user env site.next_user_id request in
    let mismatch =
      event "register_contract_mismatch" "warning" none none (some ip) (("email", email) ∷ []) in
    if contract_mismatch env.contract request.client_content_contract
    then (denied 426 "content_contract_mismatch", fail_attempt env now ip email mismatch site)
    else register_committed env now fresh ip request user (add_user user site)

unfoldable pub register :
    {Version : Type 0}
    → Env Version
    → ℕ
    → Fresh
    → String
    → RegisterRequest
    → Site
    → AuthAnswer × Site
register env now fresh ip request site =
    let email = env.lower request.email in
    let (admission, limiter) = check_limits env now ip email site.limiter in
    let checked = record site { limiter = limiter } in
    elim admission [
      | too_many_requests wait ↦ (rate_limited wait, checked)
      | admitted ↦
          register_account env now fresh ip request (user_by_email email site.server.accounts.users)
            checked
    ]
