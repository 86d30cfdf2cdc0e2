-- ===== src/SessionDrain/Targets.antt =====
-- What the start of a drain does to the sessions, the counters and the capacity.
use game_gardens_of_karaxas.Base.{
  ℕ, ◌+◌, ◌*◌, ◌≤◌, max, String, ◌≡◌, inl, inr, refl, Bool, true, ◌&&◌, Option, some, List, [], ◌∷◌,
  map, arith, ltb, leb, nat_equality, string_equality, pair_equality, option_equality,
  if◌then◌else◌, Bool-cases, is_none, length, count_where, length-append, count_where-append,
  micros,
}
use game_gardens_of_karaxas.Models.{User, UserSession, SessionDrainState, user_by_id}
use game_gardens_of_karaxas.Base.Text.{strip_or}
use game_gardens_of_karaxas.SessionDrain.Rows.{
  PublishDrainEvent, Database, active_drain_count, exceeds_capacity, is_live_player, is_player,
}
use game_gardens_of_karaxas.Base.Int.{pos_part}
use game_gardens_of_karaxas.SessionDrain.Start.{
  Progress, mark_draining, target_session, target_sessions, flush_once, DrainRequest, new_event,
  conflict, started, open_drain, start_publish_drain,
}

-- the session is that of a player, and is neither revoked nor expired
abbrev pub plays : List User → ℕ → UserSession → Bool
plays users now s =
    is_player (user_by_id s.user_id users) && is_none s.revoked_at && ltb now s.expires_at

-- the session with the id, the deadline and the reason of a drain, if it is one that the drain is about
abbrev pub drained : List User → ℕ → ℕ → ℕ → String → UserSession → UserSession
drained users now event deadline reason s =
    if plays users now s
    then record s {
      drain_state = SessionDrainState.draining;
      drain_event_id = some event;
      drain_deadline_at = some deadline;
      drain_reason_code = some reason;
    }
    else s

flush_keeps :
    (failure : ℕ → Option String) (user : ℕ) (p : Progress)
    → let p' = (flush_once failure user p).1 in
      (p'.targeted ≡ p.targeted)
      × (p'.persisted_ok ≡ p.persisted_ok)
      × (p'.persisted_failed ≡ p.persisted_failed)
      × (p'.audits ≡ p.audits)
unfolding flush_once
flush_keeps failure user p = ground arith

-- a round counts one session, on one side
counts_one :
    (failure : ℕ → Option String) (event : PublishDrainEvent) (s : UserSession) (p : Progress)
    → let p' = target_session failure event s p in
      (p'.targeted ≡ p.targeted + 1)
      × (p'.persisted_ok + p'.persisted_failed ≡ p.persisted_ok + p.persisted_failed + 1)
      × (length p'.audits ≡ length p.audits + 1)
unfolding target_session
counts_one failure event s p =
    let (t, o, f, a) = flush_keeps failure s.user_id p in
    rw a (rw length-append (ground (arith, t, o, f, a)))

target_sessions_lem :
    (failure : ℕ → Option String) (users : List User) (now : ℕ) (event : PublishDrainEvent)
    (ss : List UserSession) (p : Progress)
    → let (ss', p') = target_sessions failure users now event ss p in
      let n = count_where (plays users now) ss in
      (ss' ≡ map (drained users now event.id event.deadline_at event.reason_code) ss)
      × (p'.targeted ≡ p.targeted + n)
      × (p'.persisted_ok + p'.persisted_failed ≡ p.persisted_ok + p.persisted_failed + n)
      × (length p'.audits ≡ length p.audits + n)
unfolding target_sessions mark_draining is_live_player
target_sessions_lem failure users now event [] p = (refl, omega arith, omega arith, omega arith)
target_sessions_lem failure users now event (s ∷ ss) p = elim (Bool-cases (plays users now s)) [
  | inl hit ↦ ground (
    arith,
    counts_one failure event s p,
    target_sessions_lem failure users now event ss (target_session failure event s p),
  )
  | inr miss ↦ ground (arith, target_sessions_lem failure users now event ss p)
]

-- A drain that starts marks exactly the sessions of players that are neither revoked nor expired: as
-- draining, with its id, its deadline, which is the grace time away, and the stripped reason of the
-- request; it changes no other session and no other column. Its row counts those sessions, each as
-- persisted or as failed, and there is one more audit row for each.
pub start_marks_live_players :
    (max_concurrent now : ℕ) (failure : ℕ → Option String) (r : DrainRequest) (db : Database)
    {event : PublishDrainEvent}
    → (start_publish_drain true max_concurrent failure now r db).0 ≡ started event
    → let db' = (start_publish_drain true max_concurrent failure now r db).1 in
      let n = count_where (plays db.users now) db.sessions in
      let deadline = now + micros (pos_part r.grace_minutes * 60) in
      let reason = strip_or r.reason_code "publish" in
      (db'.sessions ≡ map (drained db.users now event.id deadline reason) db.sessions)
      × (event.id ≡ db.next_event_id)
      × (event.sessions_targeted ≡ n)
      × (event.sessions_persisted + event.sessions_persist_failed ≡ n)
      × (length db'.audits ≡ length db.audits + n)
      × (event.deadline_at ≡ deadline)
unfolding start_publish_drain open_drain new_event
start_marks_live_players max_concurrent now failure r db h =
    let marked =
      target_sessions_lem failure db.users now (new_event db.next_event_id now r) db.sessions
        (record {
          flushed = [];
          characters = db.characters;
          targeted = 0;
          persisted_ok = 0;
          persisted_failed = 0;
          audits = db.audits;
        }) in
    ground (arith, marked)

open_drain_count :
    (failure : ℕ → Option String) (now : ℕ) (r : DrainRequest) (db : Database)
    → active_drain_count (open_drain failure now r db).1 ≡ active_drain_count db + 1
unfolding open_drain new_event
open_drain_count failure now r db = rw count_where-append (ground arith)

-- The capacity bounds the drains that are open at once: a start leaves at most
-- max(1, max_concurrent) of them, if there were no more before.
pub capacity_holds :
    (max_concurrent now : ℕ) (failure : ℕ → Option String) (r : DrainRequest) (db : Database)
    → active_drain_count db ≤ max 1 max_concurrent
    → active_drain_count (start_publish_drain true max_concurrent failure now r db).1
      ≤ max 1 max_concurrent
unfolding start_publish_drain exceeds_capacity
capacity_holds max_concurrent now failure r db h =
    let more = open_drain_count failure now r db in
    elim (Bool-cases (leb (max 1 max_concurrent) (active_drain_count db))) [
      | inl full ↦ rw full h
      | inr room ↦ rw room (ground (arith, more))
    ]

-- With as many drains open as the capacity allows, a start is a conflict, and changes nothing.
pub full_is_conflict :
    (max_concurrent now : ℕ) (failure : ℕ → Option String) (r : DrainRequest) (db : Database)
    → max 1 max_concurrent ≤ active_drain_count db
    → start_publish_drain true max_concurrent failure now r db ≡ (conflict, db)
unfolding start_publish_drain exceeds_capacity
full_is_conflict max_concurrent now failure r db h =
    let full : leb (max 1 max_concurrent) (active_drain_count db) ≡ true = ground arith in rw full
