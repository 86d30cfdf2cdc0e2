-- ===== src/SessionDrain/Accounting.antt =====
-- What a drain revokes: the bulk revocation at the deadline, the forced logout of one request, and
-- the count in the row of the event.
use game_gardens_of_karaxas.Base.{
  ℕ, ◌+◌, ◌≡◌, inl, inr, refl, ap, ◌∙◌, true, false, ◌&&◌, none, some, List, [], ◌∷◌, map, arith,
  ◌==◌, nat_equality, string_equality, pair_equality, option_equality, if◌then◌else◌, Bool-cases,
  Option-cases, is_none, count_where, first_where-update,
}
use game_gardens_of_karaxas.Models.{User, UserSession, SessionDrainState, user_by_id}
use game_gardens_of_karaxas.SessionDrain.Rows.{
  DrainStatus, is_open, PublishDrainEvent, PublishDrainSessionAudit, Database, event_by_id,
  mark_audit, is_player,
}
use game_gardens_of_karaxas.SessionDrain.Finalize.{
  is_pending, revoke, revoke_pending, complete_event, close_drain, finalize_publish_drain,
}

-- the sessions that a drain has not revoked yet
abbrev pub pending : ℕ → Database → ℕ
pending event db = count_where (is_pending db.users event) db.sessions

-- the session revoked at the cutoff and out of its drain, if it is the session of a player that the
-- drain has marked and nobody has revoked
abbrev pub closed : List User → ℕ → ℕ → UserSession → UserSession
closed users event cutoff s =
    if is_player (user_by_id s.user_id users)
      && (s.drain_event_id == some event)
      && is_none s.revoked_at
    then record s { revoked_at = some cutoff; drain_state = SessionDrainState.completed }
    else s

revoke_pending_lem :
    (users : List User) (event cutoff : ℕ) (ss : List UserSession) (n : ℕ)
    (audits : List PublishDrainSessionAudit)
    → let (ss', n', _) = revoke_pending users event cutoff ss n audits in
      (ss' ≡ map (closed users event cutoff) ss)
      × (n' ≡ n + count_where (is_pending users event) ss)
unfolding revoke_pending revoke is_pending
revoke_pending_lem users event cutoff [] n audits = (refl, omega arith)
revoke_pending_lem users event cutoff (s ∷ ss) n audits =
    elim (Bool-cases (is_pending users event s)) [
      | inl hit ↦
          ground
            (arith, revoke_pending_lem users event cutoff ss (n + 1) (mark_audit event s.id audits))
      | inr miss ↦ ground (arith, revoke_pending_lem users event cutoff ss n audits)
    ]

not_pending_closed :
    (users : List User) (event cutoff : ℕ) (s : UserSession)
    → is_pending users event (closed users event cutoff s) ≡ false
unfolding is_pending
not_pending_closed users event cutoff s = ground arith

none_pending :
    (users : List User) (event cutoff : ℕ) (ss : List UserSession)
    → count_where (is_pending users event) (map (closed users event cutoff) ss) ≡ 0
none_pending users event cutoff [] = refl
none_pending users event cutoff (s ∷ ss) =
    rw (not_pending_closed users event cutoff s) (none_pending users event cutoff ss)

-- The finalization of a drain that is open revokes exactly the sessions of players that it has marked
-- and nobody has revoked, at the cutoff, and their drain is completed; no other session and no other
-- column changes, and none is left pending. The row of the event is completed and counts them in, and so does the metric
-- of forced logouts.
pub finalize_closes :
    (event cutoff : ℕ) (db : Database) {e : PublishDrainEvent}
    → event_by_id event db.events ≡ some e
    → is_open e.status ≡ true
    → let (found, db') = finalize_publish_drain event cutoff db in
      (db'.sessions ≡ map (closed db.users event cutoff) db.sessions)
      × (pending event db' ≡ 0)
      × (found
          ≡ some (record e {
            sessions_revoked = e.sessions_revoked + pending event db;
            status = DrainStatus.completed;
            cutoff_at = some cutoff;
          }))
      × (db'.forced_logouts ≡ db.forced_logouts + pending event db)
unfolding finalize_publish_drain close_drain complete_event
finalize_closes event cutoff db {e} h o =
    let (ss, n) = revoke_pending_lem db.users event cutoff db.sessions 0 db.audits in
    let count = (revoke_pending db.users event cutoff db.sessions 0 db.audits).1 in
    let found =
      first_where-update (λ x. x.id == event) (complete_event count cutoff) db.events e (λ x. refl)
        h in
    let exact : count ≡ pending event db = omega (arith, n) in
    rw (h, finalize_publish_drain)
      (rw o (
        ss,
        rw ss (none_pending db.users event cutoff db.sessions),
        found ∙ ap (λ c. some (complete_event c cutoff e)) exact,
        rw exact,
      ))

pub finalize_closed :
    (event cutoff : ℕ) (db : Database) {e : PublishDrainEvent}
    → event_by_id event db.events ≡ some e
    → is_open e.status ≡ false
    → finalize_publish_drain event cutoff db ≡ (some e, db)
unfolding finalize_publish_drain
finalize_closed event cutoff db h o = rw (h, finalize_publish_drain) (rw o)

finalize_missing :
    (event cutoff : ℕ) (db : Database)
    → event_by_id event db.events ≡ none
    → finalize_publish_drain event cutoff db ≡ (none, db)
unfolding finalize_publish_drain
finalize_missing event cutoff db h = rw (h, finalize_publish_drain)

finalize_row :
    (event cutoff : ℕ) (db : Database) {e : PublishDrainEvent}
    → event_by_id event db.events ≡ some e
    → is_open e.status ≡ true
    → (n : ℕ) × (event_by_id event (finalize_publish_drain event cutoff db).1.events
        ≡ some (complete_event n cutoff e))
unfolding finalize_publish_drain close_drain complete_event
finalize_row event cutoff db {e} h o =
    let count = (revoke_pending db.users event cutoff db.sessions 0 db.audits).1 in
    (
      count,
      rw (h, finalize_publish_drain)
          (rw o (
            first_where-update (λ x. x.id == event) (complete_event count cutoff) db.events e
              (λ x. refl) h)),
    )

-- Finalizing a drain once more, at any time, changes nothing: neither the sessions nor the counts.
pub finalize_twice :
    (event cutoff later : ℕ) (db : Database)
    → let db' = (finalize_publish_drain event cutoff db).1 in
      (finalize_publish_drain event later db').1 ≡ db'
unfolding complete_event
finalize_twice event cutoff later db = elim (Option-cases (event_by_id event db.events)) [
  | inl missing ↦
      rw (finalize_missing event cutoff db missing) (rw (finalize_missing event later db missing))
  | inr (e, found) ↦ elim (Bool-cases (is_open e.status)) [
    | inl open_event ↦
        let (n, row) = finalize_row event cutoff db found open_event in
        rw (finalize_closed event later (finalize_publish_drain event cutoff db).1 row refl)
    | inr closed_event ↦
        rw (finalize_closed event cutoff db found closed_event)
          (rw (finalize_closed event later db found closed_event))
  ]
]
