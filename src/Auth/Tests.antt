-- ===== src/Auth/Tests.antt =====
-- Logins, refreshes and registrations at given inputs.
use game_gardens_of_karaxas.Base.{
  ℕ, zero, suc, ◌+◌, ◌-◌, ◌*◌, ◌/◌, ◌%◌, ◌≤◌, ◌<◌, min, max, String, ◌≡◌, ◌≢◌, ◌↔◌, ◌⊎◌, inl, inr,
  refl, sym, ap, ◌∙◌, Bool, true, false, not, ◌&&◌, ◌||◌, Option, none, some, List, [], ◌∷◌, ◌++◌,
  map, arith, ltb, leb, nat_eq_iff, string_eq_iff, Equality, ◌==◌, nat_equality, string_equality,
  pair_equality, option_equality, if◌then◌else◌, Bool-cases, Option-cases, is_none, or_default,
  length, All, first_where, select, count_where, update_where, any_where, take, length-append,
  length-take-le, count_where-append, length-select, All-append, first_where_sound, All-first_where,
  first_where-update, count_where-replace, micros, first_where-append, first_where_last,
  count_where-select-le, count_where-update, no_match_count, any_where-first_where, All-select,
  All-mono, All-update, any_where-first_where_found, any_where-append, first_where-count,
  first_where-update_where,
}
use mathlib.Core.Path.{subst}
use game_gardens_of_karaxas.Base.Text.{strip, strip_or, is_empty}
use game_gardens_of_karaxas.Base.Decimal.{concat_text}
use game_gardens_of_karaxas.Models.{User, UserSession, new_session, user_by_id}
use game_gardens_of_karaxas.RateLimit
use game_gardens_of_karaxas.RateLimit.{admitted}
use game_gardens_of_karaxas.ReleasePolicy.Versions.{
  safe_version, ensure_release_policy, resolve_active_content_version_key, normalize_content_key,
}
use game_gardens_of_karaxas.ReleasePolicy.Evaluate.{VersionDecision, evaluate_version}
use game_gardens_of_karaxas.ReleasePolicy.Toy.{toy, before_release}
use game_gardens_of_karaxas.AuthContext.{
  TokenPayload, decode_access_token, token_ids, Request, authorized, build_version,
  get_auth_context, requires_latest_build,
}
use game_gardens_of_karaxas.Auth.{
  Env, Site, Fresh, reuse_detected, denied, check_limits, passes_mfa,
}
use game_gardens_of_karaxas.SessionDrain.Enforce.{enforce_session_drain}
use game_gardens_of_karaxas.Auth.Login.{
  LoginRequest, user_by_email, login, login_user, login_admitted, login_versions,
}
use game_gardens_of_karaxas.Auth.Register.{
  RegisterRequest, register_account, register_committed, register_versions, new_user, register,
}
use game_gardens_of_karaxas.Auth.Refresh.{
  RefreshRequest, refresh_session, refresh_drained, refresh_versions, live_session_of, refresh,
}
use game_gardens_of_karaxas.Auth.Reuse.{sessions_of, reuse_is_detected}
use game_gardens_of_karaxas.Auth.Door.{login_admits}
use game_gardens_of_karaxas.Auth.Stopped.{stopped_registration_keeps_account}

abbrev env : Env ℕ
env = record {
  lib = toy;
  lower = λ s. s;
  hash_password = λ s. concat_text "h" s;
  verify_password = λ s hash. concat_text "h" s == hash;
  hash_token = λ s. s;
  verify_totp = λ _ _. false;
  contract = "c";
  rate_limit_enabled = false;
  ip_rule = record { limit = 3; window_seconds = 60; lockout_seconds = 60 };
  account_rule = record { limit = 3; window_seconds = 60; lockout_seconds = 60 };
  refresh_ttl_days = 30;
  refresh_ttl_days_admin = 1;
}

abbrev player : User
player = record {
  id = 1;
  email = "p";
  display_name = "";
  password_hash = "hx";
  is_admin = false;
  mfa_totp_secret = none;
  mfa_enabled = false;
  mfa_enabled_at = none;
}

abbrev held : UserSession
held = record (new_session "a" 1 (micros 1000)) { refresh_token_hash = "t1" }

abbrev other : UserSession
other = record (new_session "b" 1 (micros 1000)) { refresh_token_hash = "u1" }

abbrev site : Site
site = record {
  server = record {
    accounts = record {
      users = player ∷ [];
      sessions = held ∷ other ∷ [];
      events = [];
      audits = [];
      characters = [];
      next_event_id = 1;
      forced_logouts = 0;
    };
    releases = record { policy = some before_release; records = []; contents = [] };
  };
  limiter = record { events = []; blocked_until = [] };
  security = [];
  next_user_id = 2;
  login_success_total = 0;
  login_failure_total = 0;
}

abbrev refresh_request : RefreshRequest
refresh_request = record {
  refresh_token = "t1";
  client_version = "1.0.0";
  client_content_version_key = "cv_1";
  client_content_contract = none;
}

-- the user of the site above, after a rotation, a logout and a login
abbrev logged_out_site : Site
logged_out_site = record site {
  server = record site.server {
    accounts = record site.server.accounts {
      sessions =
          record held {
            refresh_token_hash = "t2";
            previous_refresh_token_hash = some "t1";
            revoked_at = some 2;
          }
          ∷ other
          ∷ record (new_session "c" 1 (micros 1000)) { refresh_token_hash = "t5" }
          ∷ [];
    };
  };
}

reuse_is_detected_example :
    (let (answer, end) = refresh env 2 "t3" "ip" refresh_request logged_out_site in
      (answer ≡ reuse_detected (count_where (live_session_of 1) (sessions_of logged_out_site)))
      × (count_where (live_session_of 1) (sessions_of end) ≡ 0))
unfolding refresh refresh_session refresh_drained refresh_versions enforce_session_drain
    ensure_release_policy resolve_active_content_version_key normalize_content_key evaluate_version
    requires_latest_build build_version safe_version game_gardens_of_karaxas.Base.Text.strip
    strip_or game_gardens_of_karaxas.RateLimit.ensure_not_rate_limited check_limits
reuse_is_detected_example =
    reuse_is_detected env 1 2 "t2" "t3" "ip" "ip" refresh_request refresh_request site
      logged_out_site held refl refl refl refl refl
      (refl, refl, refl, refl, (refl, refl, refl, refl, (refl, tt)))

abbrev login_request : LoginRequest
login_request = record {
  email = "p";
  password = "x";
  otp_code = none;
  client_version = "1.0.0";
  client_content_version_key = "cv_1";
  client_content_contract = some "c";
}

abbrev new : Fresh
new = record { session_id = "n"; refresh_token = "t9" }

abbrev payload : String → Option TokenPayload
payload _ = some (record { sub = some 1; sid = some "n" })

abbrev next : Request
next = record {
  scheme = "bearer";
  credentials = "token";
  client_version = none;
  client_content_version = none;
  client_content_contract = none;
}

the_player :
    (u : User)
    → user_by_email "p" (player ∷ []) ≡ some u
    → (user_by_id u.id (player ∷ []) ≡ some u)
      × (decode_access_token payload "token" ≡ token_ids "n" u.id)
unfolding decode_access_token
the_player u h =
    let same : player ≡ u = ground (arith, h) in
    subst
      (λ (v : User).
        (user_by_id v.id (player ∷ []) ≡ some v)
        × (decode_access_token payload "token" ≡ token_ids "n" v.id))
      same (refl, refl)

login_admits_example :
    (u : User) × (s : UserSession) × (v : VersionDecision) × (user_by_email "p" (player ∷ [])
      ≡ some u)
    × (env.verify_password "x" u.password_hash ≡ true)
    × (s.id ≡ "n")
    × ((get_auth_context toy env.lower payload "c" 5
          (some next)
          (login env 5 new "ip" login_request site).1.server).0
        ≡ authorized u s v)
unfolding login login_user login_admitted login_versions passes_mfa ensure_release_policy
    resolve_active_content_version_key normalize_content_key evaluate_version requires_latest_build
    build_version safe_version game_gardens_of_karaxas.Base.Text.strip strip_or
    game_gardens_of_karaxas.RateLimit.ensure_not_rate_limited check_limits
login_admits_example =
    login_admits env 5 new "ip" login_request payload next site refl refl the_player refl refl refl
      refl

abbrev newcomer : RegisterRequest
newcomer = record {
  email = "q";
  password = "y";
  display_name = "Q";
  client_version = none;
  client_content_version_key = none;
  client_content_contract = none;
}

stopped_registration_keeps_account_example :
    (let (answer, after) = register env 1 new "ip" newcomer site in
      (answer ≡ denied 426 "latest_build_required")
      × (user_by_email "q" after.server.accounts.users ≡ some (new_user env 2 newcomer))
      × ((register env 2 new "ip" newcomer after).0 ≡ denied 409 "email_conflict"))
unfolding register register_account register_committed register_versions ensure_release_policy
    resolve_active_content_version_key normalize_content_key evaluate_version requires_latest_build
    build_version safe_version game_gardens_of_karaxas.Base.Text.strip strip_or
    game_gardens_of_karaxas.RateLimit.ensure_not_rate_limited check_limits
stopped_registration_keeps_account_example =
    stopped_registration_keeps_account env 1 2 new new "ip" "ip" newcomer newcomer site
      before_release site.server.releases refl refl refl refl refl refl refl
