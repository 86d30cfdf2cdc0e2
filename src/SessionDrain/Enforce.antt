-- ===== src/SessionDrain/Enforce.antt =====
-- session_drain.py: `enforce_session_drain`, the check of every request, and the schedule of
-- `run_publish_drain_countdown`.
use game_gardens_of_karaxas.Base.{
  ℕ, ◌+◌, ◌-◌, ◌/◌, String, Bool, true, false, not, ◌&&◌, ◌||◌, Option, none, some, List, [], ◌∷◌,
  ltb, leb, ◌==◌, nat_equality, string_equality, pair_equality, option_equality, if◌then◌else◌,
  is_none, update_where,
}
use game_gardens_of_karaxas.Models.{User, UserSession, is_draining}
use game_gardens_of_karaxas.SessionDrain.Rows.{
  DrainStatus, is_open, PublishDrainEvent, Database, mark_audit, replace_event,
}
use game_gardens_of_karaxas.SessionDrain.Finalize.{revoke}

pub record SessionDrainDecision : Type 0 where
  pub force_logout : Bool
  pub event_id : Option ℕ
  pub reason_code : Option String
  pub deadline_at : Option ℕ
  pub seconds_remaining : Option ℕ

abbrev pub decision : Bool → UserSession → Option ℕ → Option ℕ → SessionDrainDecision
decision force s deadline seconds = record {
  force_logout = force;
  event_id = s.drain_event_id;
  reason_code = s.drain_reason_code;
  deadline_at = deadline;
  seconds_remaining = seconds;
}

-- what a forced logout does to the event of the session
unfoldable pub note_logout : Bool → ℕ → PublishDrainEvent → PublishDrainEvent
note_logout newly now e =
    let due = is_open e.status && leb e.deadline_at now in
    record e {
      sessions_revoked = (if newly then e.sessions_revoked + 1 else e.sessions_revoked);
      status = (if due then DrainStatus.completed else e.status);
      cutoff_at = (if due then some now else e.cutoff_at);
    }

-- the event and the audit row of a session that is logged out; the ids begin at 1, and the code
-- takes an id of 0 for none
unfoldable pub note_event : Bool → ℕ → UserSession → Database → Database
note_event newly now s db = elim s.drain_event_id [
  | none ↦ db
  | some e ↦ if e == 0 then db else record db {
    events = replace_event e (note_logout newly now) db.events;
    audits = mark_audit e s.id db.audits;
  }
]

abbrev pub replace_session : UserSession → List UserSession → List UserSession
replace_session s = update_where (λ (r : UserSession). r.id == s.id) (λ _. s)

-- the part of `enforce_session_drain` behind the deadline
unfoldable pub force_logout :
    ℕ → ℕ → UserSession → Database → SessionDrainDecision × UserSession × Database
force_logout now deadline s db =
    let newly = is_none s.revoked_at in
    let s' = revoke now s in
    let db' = note_event newly now s' (record db { sessions = replace_session s' db.sessions }) in
    (
      decision true s' (some deadline) (some 0),
      s',
      record db' {
        forced_logouts = (if newly then db'.forced_logouts + 1 else db'.forced_logouts);
      },
    )

-- The session is a row of the database; the result has the decision, the row and the database.
unfoldable pub enforce_session_drain :
    ℕ → UserSession → User → Database → Option SessionDrainDecision × UserSession × Database
enforce_session_drain now s user db =
    if user.is_admin || not (is_draining s.drain_state)
    then (none, s, db)
    else elim s.drain_deadline_at [
      | none ↦ (some (decision false s none none), s, db)
      | some deadline ↦
          let (logout, s', db') = force_logout now deadline s db in
          if ltb now deadline
          then (some (decision false s (some deadline) (some ((deadline - now) / 1000000))), s, db)
          else (some logout, s', db')
    ]

-- What `run_publish_drain_countdown` does between its first message and the finalization.
pub data CountdownStep : Type 0 where
  sleep : ℕ → CountdownStep
  warning : ℕ → CountdownStep

-- the loop over the thresholds, and the sleep behind it
unfoldable pub countdown : List ℕ → ℕ → List CountdownStep
countdown [] remaining = if ltb 0 remaining then sleep remaining ∷ [] else []
countdown (threshold ∷ ts) remaining =
    let skip = countdown ts remaining in
    let warn = sleep (remaining - threshold) ∷ warning threshold ∷ countdown ts threshold in
    if leb remaining threshold then skip else warn

abbrev pub warning_thresholds : List ℕ
warning_thresholds = 300 ∷ 120 ∷ 60 ∷ 30 ∷ 10 ∷ []
