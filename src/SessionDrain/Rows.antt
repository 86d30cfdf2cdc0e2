-- ===== src/SessionDrain/Rows.antt =====
-- session_drain.py and models/publish_drain.py: the rows of a publish drain, the queries on them,
-- and the capacity test.
use game_gardens_of_karaxas.Base.{
  ℕ, max, String, Bool, true, false, not, ◌&&◌, Option, none, some, List, ltb, leb, ◌==◌,
  nat_equality, string_equality, pair_equality, option_equality, is_none, first_where, count_where,
  update_where,
}
use game_gardens_of_karaxas.Models.{User, UserSession, user_by_id}

pub data DrainStatus : Type 0 where
  draining completed failed : DrainStatus

-- `event.status == DRAIN_STATUS_DRAINING`
abbrev pub is_open : DrainStatus → Bool
is_open DrainStatus.draining = true
is_open _ = false

pub record PublishDrainEvent : Type 0 where
  pub id : ℕ
  pub trigger_type : String
  pub reason_code : String
  pub initiated_by : String
  pub content_version_id : Option ℕ
  pub content_version_key : String
  pub build_version : Option String
  pub grace_seconds : ℕ
  pub deadline_at : ℕ
  pub cutoff_at : Option ℕ
  pub status : DrainStatus
  pub notes : String
  pub sessions_targeted : ℕ
  pub sessions_persisted : ℕ
  pub sessions_persist_failed : ℕ
  pub sessions_revoked : ℕ

pub record PublishDrainSessionAudit : Type 0 where
  pub event_id : ℕ
  pub session_id : String
  pub user_id : ℕ
  pub persisted_ok : Bool
  pub despawned_ok : Bool
  pub revoked_ok : Bool
  pub detail : String

-- the columns of `Character` that a drain reads and writes
pub record Presence : Type 0 where
  pub id : ℕ
  pub user_id : ℕ
  pub is_selected : Bool

-- `forced_logouts` is the counter behind `record_forced_logout_event`.
pub record Database : Type 0 where
  pub users : List User
  pub sessions : List UserSession
  pub events : List PublishDrainEvent
  pub audits : List PublishDrainSessionAudit
  pub characters : List Presence
  pub next_event_id : ℕ
  pub forced_logouts : ℕ

abbrev pub event_by_id : ℕ → List PublishDrainEvent → Option PublishDrainEvent
event_by_id i = first_where (λ (e : PublishDrainEvent). e.id == i)

-- `_active_drain_count`
abbrev pub active_drain_count : Database → ℕ
active_drain_count db = count_where (λ (e : PublishDrainEvent). is_open e.status) db.events

-- `ensure_publish_drain_capacity`: true when `PublishDrainConflictError` is raised
unfoldable pub exceeds_capacity : Bool → ℕ → Database → Bool
exceeds_capacity enabled max_concurrent db =
    enabled && leb (max 1 max_concurrent) (active_drain_count db)

-- The user who joins to a session is no administrator.
abbrev pub is_player : Option User → Bool
is_player none = false
is_player (some u) = not u.is_admin

-- the `where` of `start_publish_drain`
unfoldable pub is_live_player : List User → ℕ → UserSession → Bool
is_live_player users now s =
    is_player (user_by_id s.user_id users) && is_none s.revoked_at && ltb now s.expires_at

-- The audit row of one session. The code reads it with `scalar_one_or_none`: `start_publish_drain` adds
-- one row for each event and session, and nothing else adds any, so that at most one row matches.
unfoldable pub mark_audit :
    ℕ → String → List PublishDrainSessionAudit → List PublishDrainSessionAudit
mark_audit event session =
    update_where
      (λ (a : PublishDrainSessionAudit). (a.event_id == event) && (a.session_id == session))
      (λ (a : PublishDrainSessionAudit). record a { revoked_ok = true })

abbrev pub replace_event :
    ℕ → (PublishDrainEvent → PublishDrainEvent) → List PublishDrainEvent → List PublishDrainEvent
replace_event i = update_where (λ (e : PublishDrainEvent). e.id == i)
