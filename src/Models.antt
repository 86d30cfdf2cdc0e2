-- ===== src/Models.antt =====
-- backend/app/models: the rows that several services share. A time is a number of microseconds, and
-- all times are UTC; ids are natural numbers, and a generated text id is a text.
use game_gardens_of_karaxas.Base.{
  ℕ, String, Bool, true, false, Option, none, List, ◌==◌, nat_equality, string_equality,
  pair_equality, option_equality, first_where,
}

-- models/user.py
pub record User : Type 0 where
  pub id : ℕ
  pub email : String
  pub display_name : String
  pub password_hash : String
  pub is_admin : Bool
  pub mfa_totp_secret : Option String
  pub mfa_enabled : Bool
  pub mfa_enabled_at : Option ℕ

-- the values of `UserSession.drain_state`
pub data SessionDrainState : Type 0 where
  active draining completed : SessionDrainState

abbrev pub is_draining : SessionDrainState → Bool
is_draining SessionDrainState.draining = true
is_draining _ = false

-- models/session.py
pub record UserSession : Type 0 where
  pub id : String
  pub user_id : ℕ
  pub refresh_token_hash : String
  pub previous_refresh_token_hash : Option String
  pub refresh_rotated_at : Option ℕ
  pub client_version : String
  pub client_content_version_key : String
  pub drain_state : SessionDrainState
  pub drain_event_id : Option ℕ
  pub drain_deadline_at : Option ℕ
  pub drain_reason_code : Option String
  pub current_party_id : Option String
  pub current_instance_id : Option String
  pub current_character_id : Option ℕ
  pub current_level_id : Option ℕ
  pub current_location_x : Option ℕ
  pub current_location_y : Option ℕ
  pub expires_at : ℕ
  pub last_seen_at : ℕ
  pub revoked_at : Option ℕ

-- `db.get(User, id)`
abbrev pub user_by_id : ℕ → List User → Option User
user_by_id i = first_where (λ (u : User). u.id == i)

-- the row of a new login, with the columns that a client does not set at their defaults
abbrev pub new_session : String → ℕ → ℕ → UserSession
new_session session_id user expires = record {
  id = session_id;
  user_id = user;
  refresh_token_hash = "";
  previous_refresh_token_hash = none;
  refresh_rotated_at = none;
  client_version = "0.0.0";
  client_content_version_key = "unknown";
  drain_state = SessionDrainState.active;
  drain_event_id = none;
  drain_deadline_at = none;
  drain_reason_code = none;
  current_party_id = none;
  current_instance_id = none;
  current_character_id = none;
  current_level_id = none;
  current_location_x = none;
  current_location_y = none;
  expires_at = expires;
  last_seen_at = 0;
  revoked_at = none;
}
