-- ===== src/Auth.antt =====
-- backend/app/api/routes/auth.py: registration, login, the rotation of refresh tokens, logout and the
-- second factor (Login, Register, Refresh, Account), and what they guarantee (Reuse, Entry, Door, Stopped).
-- A handler raises with the tables as its last commit left them. The clock of a handler is one time.
use game_gardens_of_karaxas.Base.{
  true, false, ℕ, ◌+◌, ◌*◌, max, String, Bool, not, ◌&&◌, ◌||◌, Option, some, List, [], ◌∷◌, ◌++◌,
  ◌==◌, nat_equality, string_equality, pair_equality, option_equality, if◌then◌else◌, micros,
}
use Prim.Native.Char.{code}
use game_gardens_of_karaxas.Base.Text.{strip, is_empty}
use game_gardens_of_karaxas.Base.Decimal.{concat_text}
use game_gardens_of_karaxas.Models.{User, UserSession, new_session}
use game_gardens_of_karaxas.RateLimit
use game_gardens_of_karaxas.RateLimit.{
  RateLimitRule, InMemoryRateLimiter, Key, Admission, admitted, too_many_requests,
  ensure_not_rate_limited, record_failure,
}
use game_gardens_of_karaxas.ReleasePolicy.Versions.{VersionLibrary, text_or}
use game_gardens_of_karaxas.ReleasePolicy.Evaluate.{VersionDecision}
use game_gardens_of_karaxas.AuthContext.{Server}
use game_gardens_of_karaxas.Security.{SecurityEvent, EventArguments, fields, write_security_event}
pub mod Login
pub mod Register
pub mod Refresh
pub mod Account
mod Rotation
mod Reuse
mod Entry
mod Door
mod Stopped
mod Tests

-- What the handlers take from elsewhere: the password context, SHA-256 and the one-time passwords are
-- libraries; the settings and the limits are those of core/config.py.
pub record Env (Version : Type 0) : Type 0 where
  pub lib : VersionLibrary Version
  pub lower : String → String
  pub hash_password : String → String
  pub verify_password : String → String → Bool
  pub hash_token : String → String
  pub verify_totp : String → String → Bool
  pub contract : String
  pub rate_limit_enabled : Bool
  pub ip_rule : RateLimitRule
  pub account_rule : RateLimitRule
  pub refresh_ttl_days : ℕ
  pub refresh_ttl_days_admin : ℕ

pub record Site : Type 0 where
  pub server : Server
  pub limiter : InMemoryRateLimiter
  pub security : List SecurityEvent
  pub next_user_id : ℕ
  pub login_success_total : ℕ
  pub login_failure_total : ℕ

-- what is generated for a new session: `uuid4` and `create_refresh_token`
pub record Fresh : Type 0 where
  pub session_id : String
  pub refresh_token : String

pub data AuthAnswer : Type 0 where
  -- the session response, with the refresh token
  entered : User → UserSession → String → VersionDecision → AuthAnswer
  -- 429, with the seconds to wait
  rate_limited : ℕ → AuthAnswer
  -- a status and a code
  denied : ℕ → String → AuthAnswer
  -- 401 `refresh_token_reuse_detected`, with the number of sessions revoked
  reuse_detected : ℕ → AuthAnswer
  -- `ensure_release_policy` raised
  failed : AuthAnswer

abbrev pub ip_key : String → Key
ip_key ip = ("auth_ip", concat_text "ip:" ip)

abbrev pub account_key : String → Key
account_key email = ("auth_account", concat_text "acct:" email)

-- the two checks at the head of a handler: the second is made where the first admits
unfoldable pub check_limits :
    {Version : Type 0}
    → Env Version
    → ℕ
    → String
    → String
    → InMemoryRateLimiter
    → Admission × InMemoryRateLimiter
check_limits env now ip email s =
    let (first, s') =
      ensure_not_rate_limited env.rate_limit_enabled now (ip_key ip) env.ip_rule s in
    let second =
      ensure_not_rate_limited env.rate_limit_enabled now (account_key email) env.account_rule s' in
    elim first [ admitted ↦ second | too_many_requests wait ↦ (too_many_requests wait, s') ]

unfoldable pub record_both :
    {Version : Type 0}
    → Env Version
    → ℕ
    → String
    → String
    → InMemoryRateLimiter
    → InMemoryRateLimiter
record_both env now ip email s =
    record_failure env.rate_limit_enabled now (account_key email) env.account_rule
      (record_failure env.rate_limit_enabled now (ip_key ip) env.ip_rule s)

unfoldable pub reset_both : String → String → InMemoryRateLimiter → InMemoryRateLimiter
reset_both ip email s = RateLimit.reset (account_key email) (RateLimit.reset (ip_key ip) s)

abbrev pub event :
    String
    → String
    → Option ℕ
    → Option String
    → Option String
    → List (String × String)
    → EventArguments
event kind severity actor session ip detail = record {
  event_type = kind;
  severity = severity;
  actor_user_id = actor;
  session_id = session;
  ip_address = ip;
  detail = fields detail;
}

-- a Boolean in JSON
abbrev pub flag_text : Bool → String
flag_text true = "true"
flag_text false = "false"

abbrev pub log_event : {Version : Type 0} → Env Version → EventArguments → Site → Site
log_event env e site = record site { security = write_security_event env.lower e site.security }

-- the two failures and the event of a refused registration or login
unfoldable pub fail_attempt :
    {Version : Type 0} → Env Version → ℕ → String → String → EventArguments → Site → Site
fail_attempt env now ip email e site =
    log_event env e (record site { limiter = record_both env now ip email site.limiter })

-- `str.replace(" ", "")`
unfoldable pub drop_spaces : String → String
drop_spaces String.[] = String.[]
drop_spaces (String.◌∷◌ c s) =
    let rest = drop_spaces s in if code c == b' ' then rest else String.◌∷◌ c rest

-- `verify_totp_code` of core/security.py
unfoldable pub verify_totp_code : {Version : Type 0} → Env Version → String → Option String → Bool
verify_totp_code env secret otp =
    let code_text = drop_spaces (strip (text_or otp "")) in
    not (is_empty (strip secret))
    && not (is_empty code_text)
    && env.verify_totp (strip secret) code_text

-- `_assert_user_mfa`: whether it passes
unfoldable pub passes_mfa : {Version : Type 0} → Env Version → User → Option String → Bool
passes_mfa env user otp =
    let secret = strip (text_or user.mfa_totp_secret "") in
    not user.mfa_enabled || (not (is_empty secret) && verify_totp_code env secret otp)

unfoldable pub refresh_ttl : {Version : Type 0} → Env Version → User → ℕ
refresh_ttl env user = micros (
    86400
    * (if user.is_admin then max 1 env.refresh_ttl_days_admin else max 1 env.refresh_ttl_days))

-- the row of `UserSession(…)` in `register` and `login`
unfoldable pub opened_session :
    {Version : Type 0} → Env Version → ℕ → Fresh → User → String → String → UserSession
opened_session env now fresh user version key =
    record (new_session fresh.session_id user.id (now + refresh_ttl env user)) {
      refresh_token_hash = env.hash_token fresh.refresh_token;
      refresh_rotated_at = some now;
      client_version = version;
      client_content_version_key = key;
      last_seen_at = now;
    }

abbrev pub add_session : UserSession → Site → Site
add_session s site =
    let accounts = site.server.accounts in
    record site {
      server = record site.server {
        accounts = record accounts { sessions = accounts.sessions ++ s ∷ [] };
      };
    }

-- the writes of a successful registration or login
unfoldable pub enter :
    {Version : Type 0} → Env Version → String → String → EventArguments → UserSession → Site → Site
enter env ip email e s site =
    let opened = log_event env e (add_session s site) in
    record opened { limiter = reset_both ip email opened.limiter }

abbrev pub contract_mismatch : String → Option String → Bool
contract_mismatch contract client =
    let sent = strip (text_or client "") in not (is_empty sent) && not (sent == contract)
