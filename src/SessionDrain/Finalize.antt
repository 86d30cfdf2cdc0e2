-- ===== src/SessionDrain/Finalize.antt =====
-- session_drain.py: `finalize_publish_drain` and `finalize_due_publish_drains`.
use game_gardens_of_karaxas.Base.{
  ℕ, ◌+◌, Bool, ◌&&◌, ◌||◌, Option, none, some, List, [], ◌∷◌, ltb, leb, ◌==◌, nat_equality,
  string_equality, pair_equality, option_equality, if◌then◌else◌, is_none, select,
}
use game_gardens_of_karaxas.Models.{User, UserSession, SessionDrainState, user_by_id}
use game_gardens_of_karaxas.SessionDrain.Rows.{
  DrainStatus, is_open, PublishDrainEvent, PublishDrainSessionAudit, Database, event_by_id,
  is_player, mark_audit, replace_event,
}

-- the `where` of `finalize_publish_drain`
unfoldable pub is_pending : List User → ℕ → UserSession → Bool
is_pending users event s =
    is_player (user_by_id s.user_id users)
    && (s.drain_event_id == some event)
    && is_none s.revoked_at

unfoldable pub revoke : ℕ → UserSession → UserSession
revoke at s = record s { revoked_at = some at; drain_state = SessionDrainState.completed }

-- the loop of `finalize_publish_drain`, with `revoked_count`
unfoldable pub revoke_pending :
    List User
    → ℕ
    → ℕ
    → List UserSession
    → ℕ
    → List PublishDrainSessionAudit
    → List UserSession × ℕ × List PublishDrainSessionAudit
revoke_pending users event cutoff [] n audits = ([], n, audits)
revoke_pending users event cutoff (s ∷ ss) n audits =
    let hit = is_pending users event s in
    let (rest, n', audits') =
      revoke_pending users event cutoff ss (if hit then n + 1 else n)
        (if hit then mark_audit event s.id audits else audits) in
    ((if hit then revoke cutoff s else s) ∷ rest, n', audits')

unfoldable pub complete_event : ℕ → ℕ → PublishDrainEvent → PublishDrainEvent
complete_event revoked cutoff e = record e {
  sessions_revoked = e.sessions_revoked + revoked;
  status = DrainStatus.completed;
  cutoff_at = some cutoff;
}

-- `finalize_publish_drain` for an event that is draining
unfoldable pub close_drain : ℕ → ℕ → Database → Database
close_drain event cutoff db =
    let (sessions', n, audits') = revoke_pending db.users event cutoff db.sessions 0 db.audits in
    record db {
      sessions = sessions';
      events = replace_event event (complete_event n cutoff) db.events;
      audits = audits';
      forced_logouts = db.forced_logouts + n;
    }

-- The result is the event's row, or `None`; `cutoff` is the argument or the clock.
unfoldable pub finalize_publish_drain : ℕ → ℕ → Database → Option PublishDrainEvent × Database
finalize_publish_drain event cutoff db = elim (event_by_id event db.events) [
  | none ↦ (none, db)
  | some e ↦
      let db' = close_drain event cutoff db in
      if is_open e.status then (event_by_id event db'.events, db') else (some e, db)
]

-- The order of `finalize_due_publish_drains`: by deadline, then by id.
unfoldable pub comes_before : PublishDrainEvent → PublishDrainEvent → Bool
comes_before a b =
    ltb a.deadline_at b.deadline_at || ((a.deadline_at == b.deadline_at) && leb a.id b.id)

unfoldable pub insert_event : PublishDrainEvent → List PublishDrainEvent → List PublishDrainEvent
insert_event e [] = e ∷ []
insert_event e (x ∷ xs) =
    let rest = insert_event e xs in if comes_before e x then e ∷ x ∷ xs else x ∷ rest

unfoldable pub sort_events : List PublishDrainEvent → List PublishDrainEvent
sort_events [] = []
sort_events (x ∷ xs) = insert_event x (sort_events xs)

abbrev pub is_due : ℕ → PublishDrainEvent → Bool
is_due now e = is_open e.status && leb e.deadline_at now

-- the loop of `finalize_due_publish_drains`
unfoldable pub finalize_each :
    ℕ → List PublishDrainEvent → Database → List PublishDrainEvent × Database
finalize_each now [] db = ([], db)
finalize_each now (e ∷ es) db =
    let (finished, db') = finalize_publish_drain e.id now db in
    let (rest, db'') = finalize_each now es db' in
    (elim finished [ none ↦ rest | some row ↦ row ∷ rest ], db'')

unfoldable pub finalize_due_publish_drains : ℕ → Database → List PublishDrainEvent × Database
finalize_due_publish_drains now db =
    finalize_each now (sort_events (select (is_due now) db.events)) db
