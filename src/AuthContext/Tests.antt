-- ===== src/AuthContext/Tests.antt =====
-- A content-only release and the next request of a client, with a concrete version library, token
-- decoder and session.
use game_gardens_of_karaxas.Base.{
  String, ◌≡◌, refl, false, Option, none, some, [], ◌∷◌, nat_equality, string_equality,
  pair_equality, option_equality, micros,
}
use game_gardens_of_karaxas.Base.Text.{strip_or}
use game_gardens_of_karaxas.Base.Decimal.{decimal}
use game_gardens_of_karaxas.Models.{User, UserSession, new_session}
use game_gardens_of_karaxas.ReleasePolicy.Versions.{
  safe_version, next_logical_build_version, ReleasePolicy, ensure_release_policy,
  resolve_active_content_version_key, normalize_content_key,
}
use game_gardens_of_karaxas.ReleasePolicy.Activate.{content_released}
use game_gardens_of_karaxas.AuthContext.{
  TokenPayload, decode_access_token, Server, Request, unauthorized, upgrade_required, build_version,
  check_session, revoke_session, get_auth_context,
}
use game_gardens_of_karaxas.AuthContext.Admission.{content_release_locks_out, revoked_stays_out}
use game_gardens_of_karaxas.ReleasePolicy.Toy.{toy, before_release}

abbrev player : User
player = record {
  id = 1;
  email = "";
  display_name = "";
  password_hash = "";
  is_admin = false;
  mfa_totp_secret = none;
  mfa_enabled = false;
  mfa_enabled_at = none;
}

abbrev row : UserSession
row = new_session "a" 1 (micros 1000)

abbrev released_policy : ReleasePolicy
released_policy = content_released toy 5 0 "cv_2" "ops" none before_release

abbrev server : Server
server = record {
  accounts = record {
    users = player ∷ [];
    sessions = row ∷ [];
    events = [];
    audits = [];
    characters = [];
    next_event_id = 1;
    forced_logouts = 0;
  };
  releases = record { policy = some released_policy; records = []; contents = [] };
}

abbrev ask : Request
ask = record {
  scheme = "bearer";
  credentials = "token";
  client_version = some "1.0.0";
  client_content_version = none;
  client_content_contract = none;
}

abbrev read_token : String → Option TokenPayload
read_token _ = some (record { sub = some 1; sid = some "a" })

content_release_locks_out_example :
    get_auth_context toy (λ s. s) read_token "sig" (micros 10) (some ask) server
    ≡ (upgrade_required "latest_build_required", revoke_session (micros 10) row server)
unfolding decode_access_token ensure_release_policy resolve_active_content_version_key
    normalize_content_key content_released check_session build_version next_logical_build_version
    safe_version strip_or decimal
content_release_locks_out_example =
    content_release_locks_out toy "sig" (micros 10) ask (λ s. s) read_token server "a" 1 row player
      5 0 "cv_2" "ops" none before_release server.releases refl refl refl refl refl refl refl refl

revoked_stays_out_example :
    get_auth_context toy
      (λ s. s)
      read_token
      "sig"
      (micros 20)
      (some ask)
      (revoke_session (micros 10) row server)
    ≡ (unauthorized "Session revoked", revoke_session (micros 10) row server)
unfolding decode_access_token
revoked_stays_out_example =
    revoked_stays_out toy "sig" (micros 10) (micros 20) ask (λ s. s) read_token server row refl refl
      refl
