-- ===== src/Auth/Account.antt =====
-- api/routes/auth.py: `logout`, the websocket ticket and the handlers of the second factor. Those take
-- the user of the request's context; they find the user again in the table.
use game_gardens_of_karaxas.Base.{
  not, ℕ, String, Bool, true, false, not, ◌&&◌, Option, none, some, [], ◌∷◌, ◌==◌, nat_equality,
  string_equality, pair_equality, option_equality, if◌then◌else◌, is_none, update_where,
}
use game_gardens_of_karaxas.Base.Text.{strip, is_empty}
use game_gardens_of_karaxas.Models.{User, UserSession, user_by_id}
use game_gardens_of_karaxas.ReleasePolicy.Versions.{text_or}
use game_gardens_of_karaxas.AuthContext.{
  TokenPayload, token_ids, token_error, decode_access_token, session_by_id, revoke_session,
}
use game_gardens_of_karaxas.Auth.{flag_text, Env, Site, event, log_event}

-- an answer, or a status with a code
pub data Reply (A : Type 0) : Type 0 where
  reply : A → Reply A
  refused : ℕ → String → Reply A

-- the session of the token, where it is the user's and is not revoked
unfoldable pub end_session : ℕ → ℕ → Option UserSession → Site → Site
end_session now user none site = site
end_session now user (some s) site =
    if (s.user_id == user) && is_none s.revoked_at
    then record site { server = revoke_session now s site.server }
    else site

-- `logout` of a user that is found
unfoldable pub logout_user :
    {Version : Type 0} → Env Version → ℕ → String → Option User → Site → Reply (Unit {0}) × Site
logout_user env now session_id none site = (refused 401 "unauthorized", site)
logout_user env now session_id (some user) site = (
  reply tt,
  log_event env
      (event "logout" "info" (some user.id) (some session_id) none
        (("is_admin", flag_text user.is_admin) ∷ []))
      (end_session now user.id (session_by_id session_id site.server.accounts) site),
)

-- the scheme and the token of the request
unfoldable pub logout :
    {Version : Type 0}
    → Env Version
    → (String → Option TokenPayload)
    → ℕ
    → Option (String × String)
    → Site
    → Reply (Unit {0}) × Site
logout env decode now none site = (refused 401 "unauthorized", site)
logout env decode now (some (scheme, credentials)) site =
    if not (env.lower scheme == "bearer")
    then (refused 401 "unauthorized", site)
    else elim (decode_access_token decode credentials) [
      | token_error message ↦ (refused 401 "unauthorized", site)
      | token_ids session_id user_id ↦
          logout_user env now session_id (user_by_id user_id site.server.accounts.users) site
    ]

abbrev pub save_user : User → Site → Site
save_user user site =
    let accounts = site.server.accounts in
    record site {
      server = record site.server {
        accounts = record accounts {
          users = update_where (λ (u : User). u.id == user.id) (λ _. user) accounts.users;
        };
      };
    }

abbrev pub secret_of : User → String
secret_of user = strip (text_or user.mfa_totp_secret "")

-- the handler for the user of the context, `_load_context_user`
abbrev pub for_user : {A : Type 0} → ℕ → (User → Reply A × Site) → Site → Reply A × Site
for_user user_id handler site = elim (user_by_id user_id site.server.accounts.users) [
  | none ↦ (refused 404 "user_not_found", site)
  | some user ↦ handler user
]

-- enabled and configured
unfoldable pub mfa_status : ℕ → Site → Reply (Bool × Bool) × Site
mfa_status user_id site =
    for_user user_id (λ user. (reply (user.mfa_enabled, not (is_empty (secret_of user))), site))
      site

-- the event of a change of the second factor
abbrev pub note : {Version : Type 0} → Env Version → String → String → User → String → Site → Site
note env kind severity user session_id =
    log_event env
      (event kind severity (some user.id) (some session_id) none (("email", user.email) ∷ []))

-- `secret` is the one that `create_totp_secret` generates; the answer has the secret in use
unfoldable pub mfa_setup :
    {Version : Type 0} → Env Version → String → String → ℕ → Site → Reply (Bool × String) × Site
mfa_setup env secret session_id user_id site =
    for_user user_id
      (λ user.
        let user' : User = record user { mfa_totp_secret = some secret } in
        (
          reply (user.mfa_enabled, secret),
          note env "mfa_secret_rotated" "warning" user session_id (save_user user' site),
        ))
      site

unfoldable pub mfa_qr :
    {Version : Type 0} → Env Version → String → String → ℕ → Site → Reply (Bool × String) × Site
mfa_qr env secret session_id user_id site =
    for_user user_id
      (λ user.
        let user' : User = record user { mfa_totp_secret = some secret } in
        let made : Reply (Bool × String) × Site = (
          reply (user.mfa_enabled, secret),
          note env "mfa_secret_generated" "warning" user session_id (save_user user' site),
        ) in
        if is_empty (secret_of user)
        then made
        else (reply (user.mfa_enabled, secret_of user), site))
      site

unfoldable pub mfa_enable :
    {Version : Type 0} → Env Version → ℕ → String → String → ℕ → Site → Reply (Bool × Bool) × Site
mfa_enable env now secret session_id user_id site =
    for_user user_id
      (λ user.
        let user' : User = record user {
          mfa_totp_secret =
              (if is_empty (secret_of user) then some secret else user.mfa_totp_secret);
          mfa_enabled = true;
          mfa_enabled_at = some now;
        } in
        (
          reply (true, true),
          note env "mfa_enabled" "warning" user session_id (save_user user' site),
        ))
      site

unfoldable pub mfa_disable :
    {Version : Type 0} → Env Version → String → ℕ → Site → Reply (Bool × Bool) × Site
mfa_disable env session_id user_id site =
    for_user user_id
      (λ user.
        let user' : User = record user {
          mfa_totp_secret = none;
          mfa_enabled = false;
          mfa_enabled_at = none;
        } in
        (
          reply (false, false),
          log_event env
              (event "mfa_disabled" "critical" (some user.id) (some session_id) none (
                ("email", user.email)
                ∷ ("secret_cleared", flag_text (not (is_empty (secret_of user))))
                ∷ []))
              (save_user user' site),
        ))
      site
