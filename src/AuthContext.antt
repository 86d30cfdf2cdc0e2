-- ===== src/AuthContext.antt =====
-- backend/app/api/deps.py: the check of every request of a user (get_auth_context) and what it
-- guarantees. `decode` is jwt.decode of the JWT library, with the claims that are read; it has no value
-- where the library raises. `lower` is `str.lower`, `contract` the server's content signature.
use game_gardens_of_karaxas.Base.{
  ℕ, String, Bool, true, false, not, ◌&&◌, ◌||◌, Option, none, some, ltb, leb, ◌==◌, nat_equality,
  string_equality, pair_equality, option_equality, if◌then◌else◌, is_none, or_default, first_where,
}
use game_gardens_of_karaxas.Base.Text.{is_empty, strip, strip_or}
use game_gardens_of_karaxas.Models.{User, UserSession, user_by_id}
use game_gardens_of_karaxas.SessionDrain.Rows.{Database}
use game_gardens_of_karaxas.SessionDrain.Enforce.{
  SessionDrainDecision, replace_session, enforce_session_drain,
}
use game_gardens_of_karaxas.ReleasePolicy.Versions.{
  VersionLibrary, text_or, ReleasePolicy, ReleaseTables, ensure_release_policy,
}
use game_gardens_of_karaxas.ReleasePolicy.Evaluate.{VersionDecision, evaluate_version}
pub mod Admission
mod Guards
mod Tests

pub record Server : Type 0 where
  pub accounts : Database
  pub releases : ReleaseTables

pub record Request : Type 0 where
  pub scheme : String
  pub credentials : String
  pub client_version : Option String
  pub client_content_version : Option String
  pub client_content_contract : Option String

-- the claims that are read of a token that `jwt.decode` accepts; the tokens are the server's own, so
-- `sub` is a number
pub record TokenPayload : Type 0 where
  pub sub : Option ℕ
  pub sid : Option String

-- what `decode_access_token` returns, or the text of its `TokenPayloadError`
pub data TokenResult : Type 0 where
  token_ids : String → ℕ → TokenResult
  token_error : String → TokenResult

abbrev pub payload_ids : Option ℕ → Option String → TokenResult
payload_ids (some sub) (some sid) = token_ids sid sub
payload_ids _ _ = token_error "Invalid token payload"

abbrev pub token_result : Option TokenPayload → TokenResult
token_result none = token_error "Invalid token"
token_result (some payload) = payload_ids payload.sub payload.sid

unfoldable pub decode_access_token : (String → Option TokenPayload) → String → TokenResult
decode_access_token decode token = token_result (decode token)

pub data AuthResult : Type 0 where
  authorized : User → UserSession → VersionDecision → AuthResult
  -- 401, with the message
  unauthorized : String → AuthResult
  publish_drain_logout : SessionDrainDecision → AuthResult
  -- 426, with the code
  upgrade_required : String → AuthResult
  -- `ensure_release_policy` raised
  policy_failed : AuthResult

unfoldable pub build_version : {Version : Type 0} → VersionLibrary Version → String → Version
build_version lib raw =
    or_default (lib.parse (strip_or (text_or (some raw) "0.0.0") "0.0.0")) lib.zero_version

unfoldable pub requires_latest_build :
    {Version : Type 0} → VersionLibrary Version → VersionDecision → Bool
requires_latest_build lib v =
    lib.before (build_version lib v.client_version) (build_version lib v.latest_version)

abbrev pub session_by_id : String → Database → Option UserSession
session_by_id i db = first_where (λ (s : UserSession). s.id == i) db.sessions

pub data SessionCheck : Type 0 where
  refused : String → SessionCheck
  live : UserSession → User → SessionCheck

abbrev pub with_user : UserSession → Option User → SessionCheck
with_user s none = refused "User not found"
with_user s (some u) = live s u

unfoldable pub check_session : ℕ → ℕ → Option UserSession → Option User → SessionCheck
check_session now user none u = refused "Session not found"
check_session now user (some s) u =
    if not (s.user_id == user)
    then refused "Session not found"
    else if not (is_none s.revoked_at)
    then refused "Session revoked"
    else if leb s.expires_at now
    then refused "Session expired"
    else with_user s u

-- a truthy header replaces what the session has
abbrev pub header_or : Option String → String → String
header_or none old = old
header_or (some v) old = if is_empty v then old else v

abbrev pub save_session : UserSession → Server → Server
save_session s server = record server {
  accounts = record server.accounts { sessions = replace_session s server.accounts.sessions };
}

abbrev pub revoke_session : ℕ → UserSession → Server → Server
revoke_session now s = save_session (record s { revoked_at = some now })

abbrev pub seen : ℕ → Request → UserSession → UserSession
seen now request s = record s {
  last_seen_at = now;
  client_version = header_or request.client_version s.client_version;
  client_content_version_key =
      header_or request.client_content_version s.client_content_version_key;
}

-- the part of `get_auth_context` behind `evaluate_version`
unfoldable pub admit :
    {Version : Type 0}
    → VersionLibrary Version
    → String
    → ℕ
    → Request
    → User
    → UserSession
    → VersionDecision
    → Server
    → AuthResult × Server
admit lib contract now request user s evaluated server =
    let client_contract = strip (text_or request.client_content_contract "") in
    if requires_latest_build lib evaluated
    then (upgrade_required "latest_build_required", revoke_session now s server)
    else if not (is_empty client_contract) && not (client_contract == contract)
    then (upgrade_required "content_contract_mismatch", server)
    else if evaluated.force_update
    then (upgrade_required "force_update", revoke_session now s server)
    else (authorized user (seen now request s) evaluated, save_session (seen now request s) server)

-- the part behind `enforce_session_drain`
unfoldable pub check_versions :
    {Version : Type 0}
    → VersionLibrary Version
    → String
    → ℕ
    → Request
    → User
    → UserSession
    → Server
    → AuthResult × Server
check_versions lib contract now request user s server =
    elim (ensure_release_policy server.releases) [
      | none ↦ (policy_failed, server)
      | some (policy, releases) ↦
          let evaluated =
            evaluate_version lib now policy
              (some (header_or request.client_version s.client_version))
              (some (header_or request.client_content_version s.client_content_version_key)) in
          admit lib contract now request user s evaluated (record server { releases = releases })
    ]

abbrev pub logged_out : Option SessionDrainDecision → Bool
logged_out none = false
logged_out (some d) = d.force_logout

abbrev pub drain_result : Option SessionDrainDecision → AuthResult
drain_result none = unauthorized ""
drain_result (some d) = publish_drain_logout d

-- the part behind the checks of the session
unfoldable pub check_drain :
    {Version : Type 0}
    → VersionLibrary Version
    → String
    → ℕ
    → Request
    → SessionCheck
    → Server
    → AuthResult × Server
check_drain lib contract now request (refused message) server = (unauthorized message, server)
check_drain lib contract now request (live s user) server =
    let (drain, s', accounts) = enforce_session_drain now s user server.accounts in
    let after = record server { accounts = accounts } in
    if logged_out drain
    then (drain_result drain, after)
    else check_versions lib contract now request user s' after

unfoldable pub get_auth_context :
    {Version : Type 0}
    → VersionLibrary Version
    → (String → String)
    → (String → Option TokenPayload)
    → String
    → ℕ
    → Option Request
    → Server
    → AuthResult × Server
get_auth_context lib lower decode contract now none server =
    (unauthorized "Authentication required", server)
get_auth_context lib lower decode contract now (some request) server =
    if not (lower request.scheme == "bearer")
    then (unauthorized "Authentication required", server)
    else elim (decode_access_token decode request.credentials) [
      | token_error message ↦ (unauthorized message, server)
      | token_ids session_id user_id ↦
          check_drain lib contract now request
            (check_session now user_id (session_by_id session_id server.accounts)
              (user_by_id user_id server.accounts.users))
            server
    ]
