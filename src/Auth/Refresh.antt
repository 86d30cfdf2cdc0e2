-- ===== src/Auth/Refresh.antt =====
-- api/routes/auth.py: `refresh`, which rotates a refresh token, and `_revoke_all_user_sessions`.
use game_gardens_of_karaxas.Base.{
  ℕ, ◌+◌, String, Bool, not, ◌&&◌, ◌||◌, Option, none, some, List, [], ◌∷◌, leb, ◌==◌, nat_equality,
  string_equality, pair_equality, option_equality, if◌then◌else◌, is_none, or_default, first_where,
  count_where, update_where,
}
use game_gardens_of_karaxas.Security.{plain}
use game_gardens_of_karaxas.Base.Text.{strip}
use game_gardens_of_karaxas.Base.Decimal.{decimal}
use game_gardens_of_karaxas.Models.{User, UserSession, user_by_id}
use game_gardens_of_karaxas.SessionDrain.Enforce.{SessionDrainDecision, enforce_session_drain}
use game_gardens_of_karaxas.ReleasePolicy.Versions.{ensure_release_policy, text_or}
use game_gardens_of_karaxas.ReleasePolicy.Evaluate.{VersionDecision, evaluate_version}
use game_gardens_of_karaxas.AuthContext.{
  requires_latest_build, save_session, revoke_session, logged_out,
}
use game_gardens_of_karaxas.Auth.{
  flag_text, Env, Site, AuthAnswer, entered, denied, reuse_detected, failed, event, log_event,
  refresh_ttl, contract_mismatch,
}

pub record RefreshRequest : Type 0 where
  pub refresh_token : String
  pub client_version : String
  pub client_content_version_key : String
  pub client_content_contract : Option String

-- the rows that the two lookups match
abbrev pub has_token : String → UserSession → Bool
has_token hash s = s.refresh_token_hash == hash

abbrev pub had_token : String → UserSession → Bool
had_token hash s = s.previous_refresh_token_hash == some hash

abbrev pub live_session_of : ℕ → UserSession → Bool
live_session_of user s = (s.user_id == user) && is_none s.revoked_at

abbrev pub with_sessions : List UserSession → Site → Site
with_sessions rows site = record site {
  server = record site.server { accounts = record site.server.accounts { sessions = rows } };
}

-- the number of sessions revoked, and the site
unfoldable pub revoke_all_user_sessions :
    {Version : Type 0}
    → Env Version
    → ℕ
    → ℕ
    → String
    → Option String
    → Option String
    → Site
    → ℕ × Site
revoke_all_user_sessions env now user reason source ip site =
    let rows = site.server.accounts.sessions in
    let count = count_where (live_session_of user) rows in
    let revoked =
      update_where (live_session_of user) (λ (s : UserSession). record s { revoked_at = some now })
        rows in
    (
      count,
      log_event env
          (event "session_bulk_revocation" "critical" (some user) source ip
            (("reason", reason) ∷ ("revoked_sessions", decimal count) ∷ []))
          (with_sessions revoked site),
    )

-- the row of a session that is rotated
abbrev pub rotated :
    {Version : Type 0}
    → Env Version
    → ℕ
    → String
    → RefreshRequest
    → User
    → UserSession
    → UserSession
rotated env now new_refresh request user s = record s {
  previous_refresh_token_hash = some s.refresh_token_hash;
  refresh_token_hash = env.hash_token new_refresh;
  refresh_rotated_at = some now;
  client_version = request.client_version;
  client_content_version_key = request.client_content_version_key;
  last_seen_at = now;
  expires_at = now + refresh_ttl env user;
}

-- `refresh` behind `evaluate_version`
unfoldable pub refresh_versions :
    {Version : Type 0}
    → Env Version
    → ℕ
    → String
    → String
    → RefreshRequest
    → User
    → UserSession
    → VersionDecision
    → Site
    → AuthAnswer × Site
refresh_versions env now new_refresh ip request user s version site =
    let report = λ (kind severity : String) (detail : List (String × String)).
      event kind severity (some user.id) (some s.id) (some ip) detail in
    let block = λ (kind : String) (detail : List (String × String)).
      log_event env (report kind "warning" detail)
        (record site { server = revoke_session now s site.server }) in
    let s' = rotated env now new_refresh request user s in
    if requires_latest_build env.lib version
    then (
      denied 426 "latest_build_required",
      block "refresh_latest_build_required" (
          ("client_version", request.client_version)
          ∷ ("latest_version", version.latest_version)
          ∷ []),
    )
    else if contract_mismatch env.contract request.client_content_contract
    then (
      denied 426 "content_contract_mismatch",
      block "refresh_contract_mismatch" (
          ("client_content_contract", strip (text_or request.client_content_contract ""))
          ∷ ("server_content_contract", env.contract)
          ∷ []),
    )
    else if version.force_update
    then (
      denied 426 "force_update",
      block "refresh_force_update_block" (
          ("client_version", request.client_version)
          ∷ ("client_content_version_key", request.client_content_version_key)
          ∷ []),
    )
    else (
      entered user s' new_refresh version,
      log_event env (report "refresh_success" "info" (("is_admin", flag_text user.is_admin) ∷ []))
          (record site { server = save_session s' site.server }),
    )

abbrev pub number_text : Option ℕ → String
number_text none = "null"
number_text (some n) = decimal n

abbrev pub drain_detail : Option SessionDrainDecision → List (String × String)
drain_detail none = []
drain_detail (some d) =
    ("event_id", number_text d.event_id) ∷ ("reason_code", or_default d.reason_code "null") ∷ []

-- `refresh` behind `enforce_session_drain`
unfoldable pub refresh_drained :
    {Version : Type 0}
    → Env Version
    → ℕ
    → String
    → String
    → RefreshRequest
    → User
    → Option SessionDrainDecision × UserSession × Site
    → AuthAnswer × Site
refresh_drained env now new_refresh ip request user (drain, s, site) =
    let out =
      log_event env
        (event "refresh_failed_publish_drain_logout" "info" (some user.id) (some s.id) (some ip)
          (drain_detail drain))
        site in
    let go : AuthAnswer × Site = elim (ensure_release_policy site.server.releases) [
      | none ↦ (failed, site)
      | some (policy, releases) ↦
          refresh_versions env now new_refresh ip request user s
            (evaluate_version env.lib now policy (some request.client_version)
              (some request.client_content_version_key))
            (record site { server = record site.server { releases = releases } })
    ] in
    if logged_out drain then (denied 401 "publish_drain_logout", out) else go

abbrev pub drained :
    ℕ → UserSession → User → Site → Option SessionDrainDecision × UserSession × Site
drained now s user site =
    let (drain, s', accounts) = enforce_session_drain now s user site.server.accounts in
    (drain, s', record site { server = record site.server { accounts = accounts } })

-- `refresh` of a session that is found
unfoldable pub refresh_session :
    {Version : Type 0}
    → Env Version
    → ℕ
    → String
    → String
    → RefreshRequest
    → UserSession
    → Site
    → AuthAnswer × Site
refresh_session env now new_refresh ip request s site =
    let gone =
      log_event env
        (event "refresh_failed_expired_session" "warning" (some s.user_id) (some s.id) (some ip)
          (("client_version", request.client_version) ∷ []))
        site in
    let lost =
      log_event env
        (record (event "refresh_failed_user_not_found" "warning" none (some s.id) (some ip) []) {
          detail = plain "session user missing";
        })
        site in
    let go : AuthAnswer × Site = elim (user_by_id s.user_id site.server.accounts.users) [
      | none ↦ (denied 401 "invalid_session", lost)
      | some user ↦ refresh_drained env now new_refresh ip request user (drained now s user site)
    ] in
    if not (is_none s.revoked_at) || leb s.expires_at now
    then (denied 401 "expired_session", gone)
    else go

-- `refresh` with a token that no session has
unfoldable pub refresh_unknown :
    {Version : Type 0}
    → Env Version
    → ℕ
    → String
    → RefreshRequest
    → Option UserSession
    → Site
    → AuthAnswer × Site
refresh_unknown env now ip request none site = (
  denied 401 "invalid_refresh_token",
  log_event env
      (event "refresh_failed_invalid_token" "warning" none none (some ip)
        (("client_version", request.client_version) ∷ []))
      site,
)
refresh_unknown env now ip request (some reused) site =
    let (count, after) =
      revoke_all_user_sessions env now reused.user_id "refresh_token_reuse_detected"
        (some reused.id) (some ip) site in
    (reuse_detected count, after)

-- `new_refresh` is the token that the handler generates.
unfoldable pub refresh :
    {Version : Type 0}
    → Env Version
    → ℕ
    → String
    → String
    → RefreshRequest
    → Site
    → AuthAnswer × Site
refresh env now new_refresh ip request site =
    let hash = env.hash_token request.refresh_token in
    let rows = site.server.accounts.sessions in
    elim (first_where (has_token hash) rows) [
      | none ↦ refresh_unknown env now ip request (first_where (had_token hash) rows) site
      | some s ↦ refresh_session env now new_refresh ip request s site
    ]
