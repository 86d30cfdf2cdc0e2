-- ===== src/SessionDrain/Start.antt =====
-- session_drain.py: `start_publish_drain`. `failure` says for which users the flush of the presence
-- raises a database error, and which.
use game_gardens_of_karaxas.Base.{
  micros, ℕ, ◌+◌, ◌*◌, String, Bool, true, false, not, ◌&&◌, Option, none, some, List, [], ◌∷◌,
  ◌++◌, ◌==◌, nat_equality, string_equality, pair_equality, option_equality, if◌then◌else◌,
  update_where,
}
use game_gardens_of_karaxas.Base.Int.{ℤ, pos_part}
use game_gardens_of_karaxas.Base.Text.{strip, strip_or, strip_or_none}
use game_gardens_of_karaxas.Base.Dict
use game_gardens_of_karaxas.Base.Dict.{Dict}
use game_gardens_of_karaxas.Models.{User, UserSession, SessionDrainState}
use game_gardens_of_karaxas.SessionDrain.Rows.{
  DrainStatus, PublishDrainEvent, PublishDrainSessionAudit, Presence, Database, exceeds_capacity,
  is_live_player,
}

-- What the loop of `start_publish_drain` carries: `user_flush_result`, the counters, and the tables
-- that it writes.
pub record Progress : Type 0 where
  pub flushed : Dict ℕ (Bool × String)
  pub characters : List Presence
  pub targeted : ℕ
  pub persisted_ok : ℕ
  pub persisted_failed : ℕ
  pub audits : List PublishDrainSessionAudit

-- `_flush_user_presence`; `failure` is the exception's text where the database raises one
unfoldable pub flush_user_presence :
    Option String → ℕ → List Presence → (Bool × String) × List Presence
flush_user_presence none user cs = (
  (true, ""),
  update_where (λ (c : Presence). (c.user_id == user) && c.is_selected)
      (λ (c : Presence). record c { is_selected = false }) cs,
)
flush_user_presence (some e) user cs = ((false, e), cs)

-- `user_flush_result.get(…)`, and the flush where the user has none yet
unfoldable pub flush_once : (ℕ → Option String) → ℕ → Progress → (Bool × String) × Progress
flush_once failure user p = elim (Dict.get user p.flushed) [
  | some result ↦ (result, p)
  | none ↦
      let (result, cs) = flush_user_presence (failure user) user p.characters in
      (result, record p { flushed = Dict.put user result p.flushed; characters = cs })
]

-- the columns that the loop sets on a session
unfoldable pub mark_draining : PublishDrainEvent → UserSession → UserSession
mark_draining event s = record s {
  drain_state = SessionDrainState.draining;
  drain_event_id = some event.id;
  drain_deadline_at = some event.deadline_at;
  drain_reason_code = some event.reason_code;
}

abbrev pub count_result : Bool → UserSession → PublishDrainEvent → String → Progress → Progress
count_result ok s event detail p = record p {
  targeted = p.targeted + 1;
  persisted_ok = (if ok then p.persisted_ok + 1 else p.persisted_ok);
  persisted_failed = (if ok then p.persisted_failed else p.persisted_failed + 1);
  audits =
      p.audits
      ++ record {
        event_id = event.id;
        session_id = s.id;
        user_id = s.user_id;
        persisted_ok = ok;
        despawned_ok = ok;
        revoked_ok = false;
        detail = detail;
      }
        ∷ [];
}

-- one round of the loop
unfoldable pub target_session :
    (ℕ → Option String) → PublishDrainEvent → UserSession → Progress → Progress
target_session failure event s p =
    let ((ok, detail), p') = flush_once failure s.user_id p in count_result ok s event detail p'

unfoldable pub target_sessions :
    (ℕ → Option String)
    → List User
    → ℕ
    → PublishDrainEvent
    → List UserSession
    → Progress
    → List UserSession × Progress
target_sessions failure users now event [] p = ([], p)
target_sessions failure users now event (s ∷ ss) p =
    let hit = is_live_player users now s in
    let p' = if hit then target_session failure event s p else p in
    let (rest, done) = target_sessions failure users now event ss p' in
    ((if hit then mark_draining event s else s) ∷ rest, done)

pub record DrainRequest : Type 0 where
  pub trigger_type : String
  pub reason_code : String
  pub initiated_by : String
  pub content_version_id : Option ℕ
  pub content_version_key : String
  pub build_version : String
  pub grace_minutes : ℤ
  pub notes : String

-- the row that `start_publish_drain` adds first
unfoldable pub new_event : ℕ → ℕ → DrainRequest → PublishDrainEvent
new_event i now r =
    let grace = pos_part r.grace_minutes * 60 in
    record {
      id = i;
      trigger_type = strip_or r.trigger_type "publish";
      reason_code = strip_or r.reason_code "publish";
      initiated_by = strip_or r.initiated_by "system";
      content_version_id = r.content_version_id;
      content_version_key = strip_or r.content_version_key "unknown";
      build_version = strip_or_none r.build_version;
      grace_seconds = grace;
      deadline_at = now + micros grace;
      cutoff_at = none;
      status = DrainStatus.draining;
      notes = strip r.notes;
      sessions_targeted = 0;
      sessions_persisted = 0;
      sessions_persist_failed = 0;
      sessions_revoked = 0;
    }

pub data StartResult : Type 0 where
  disabled conflict : StartResult
  started : PublishDrainEvent → StartResult

-- the body of `start_publish_drain` behind its guards
unfoldable pub open_drain :
    (ℕ → Option String) → ℕ → DrainRequest → Database → PublishDrainEvent × Database
open_drain failure now r db =
    let event = new_event db.next_event_id now r in
    let start : Progress = record {
      flushed = [];
      characters = db.characters;
      targeted = 0;
      persisted_ok = 0;
      persisted_failed = 0;
      audits = db.audits;
    } in
    let (sessions', p) = target_sessions failure db.users now event db.sessions start in
    let event' : PublishDrainEvent = record event {
      sessions_targeted = p.targeted;
      sessions_persisted = p.persisted_ok;
      sessions_persist_failed = p.persisted_failed;
    } in
    (
      event',
      record db {
        sessions = sessions';
        events = db.events ++ event' ∷ [];
        audits = p.audits;
        characters = p.characters;
        next_event_id = db.next_event_id + 1;
      },
    )

unfoldable pub start_publish_drain :
    Bool → ℕ → (ℕ → Option String) → ℕ → DrainRequest → Database → StartResult × Database
start_publish_drain enabled max_concurrent failure now r db =
    let (event, db') = open_drain failure now r db in
    if not enabled
    then (disabled, db)
    else if exceeds_capacity enabled max_concurrent db
    then (conflict, db)
    else (started event, db')
