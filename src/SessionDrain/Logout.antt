-- ===== src/SessionDrain/Logout.antt =====
-- The check of one request against the drain of its session.
use game_gardens_of_karaxas.Base.{
  ℕ, ◌+◌, ◌≤◌, ◌<◌, ◌≡◌, ◌≢◌, inl, inr, refl, Bool, true, false, not, ◌&&◌, Option, none, some,
  List, [], ◌∷◌, arith, ltb, leb, ◌==◌, nat_equality, string_equality, pair_equality,
  option_equality, if◌then◌else◌, Bool-cases, is_none, All, first_where, select, count_where,
  first_where-update, count_where-replace,
}
use game_gardens_of_karaxas.Models.{User, UserSession, is_draining, user_by_id}
use game_gardens_of_karaxas.SessionDrain.Rows.{
  PublishDrainEvent, Database, event_by_id, replace_event, is_open,
}
use game_gardens_of_karaxas.SessionDrain.Finalize.{is_pending, revoke, finalize_publish_drain}
use game_gardens_of_karaxas.SessionDrain.Accounting.{pending, finalize_closed}
use game_gardens_of_karaxas.SessionDrain.Enforce.{
  SessionDrainDecision, note_logout, note_event, replace_session, force_logout,
  enforce_session_drain, CountdownStep, sleep, warning, countdown,
}

-- Whether the answer of `enforce_session_drain` ends the session.
abbrev pub is_forced : Option SessionDrainDecision → Bool
is_forced none = false
is_forced (some d) = d.force_logout

-- the session is drained, and its deadline has come
abbrev pub is_overdue : ℕ → UserSession → Bool
is_overdue now s =
    is_draining s.drain_state && elim s.drain_deadline_at [ none ↦ false | some d ↦ leb d now ]

-- A request logs its session out exactly if the user is no administrator, the session is draining and
-- its deadline has come.
pub logout_at_deadline :
    (now : ℕ) (s : UserSession) (user : User) (db : Database)
    → is_forced (enforce_session_drain now s user db).0 ≡ (not user.is_admin && is_overdue now s)
unfolding enforce_session_drain force_logout
logout_at_deadline now s user db = ground arith

-- A request that does not log its session out changes neither the session nor the database.
pub no_logout_no_change :
    (now : ℕ) (s : UserSession) (user : User) (db : Database)
    → is_forced (enforce_session_drain now s user db).0 ≡ false
    → ((enforce_session_drain now s user db).1 ≡ s) × ((enforce_session_drain now s user db).2 ≡ db)
unfolding enforce_session_drain force_logout
no_logout_no_change now s user db h = ground arith

-- A request that logs its session out leaves it revoked at the time of the request and its drain
-- completed, in the session and in its row of the table alike, and counts at most one logout.
pub logout_revokes :
    (now : ℕ) (s : UserSession) (user : User) (db : Database)
    → is_forced (enforce_session_drain now s user db).0 ≡ true
    → let (_, s', db') = enforce_session_drain now s user db in
      (s' ≡ revoke now s)
      × (db'.sessions ≡ replace_session (revoke now s) db.sessions)
      × (db'.forced_logouts
          ≡ (if is_none s.revoked_at then db.forced_logouts + 1 else db.forced_logouts))
unfolding enforce_session_drain force_logout note_event
logout_revokes now s user db h = ground arith

forced_event :
    (now e : ℕ) (s : UserSession) (user : User) (db : Database)
    → s.drain_event_id ≡ some e
    → e ≢ 0
    → is_forced (enforce_session_drain now s user db).0 ≡ true
    → ((enforce_session_drain now s user db).2.events
        ≡ replace_event e (note_logout (is_none s.revoked_at) now) db.events)
      × ((enforce_session_drain now s user db).2.users ≡ db.users)
      × (user.is_admin ≡ false)
unfolding enforce_session_drain force_logout note_event revoke
forced_event now e s user db h n f = ground arith

-- The session is a row of the table, and the only one with its id.
pub record IsRow (s : UserSession) (ss : List UserSession) : Type 0 where
  pub present : first_where (λ (r : UserSession). r.id == s.id) ss ≡ some s
  pub unique : count_where (λ (r : UserSession). r.id == s.id) ss ≡ 1

pending-revoke :
    (users : List User) (e now : ℕ) (s : UserSession)
    → count_where (is_pending users e) (revoke now s ∷ []) ≡ 0
unfolding is_pending revoke
pending-revoke users e now s = ground arith

pending-row :
    (users : List User) (e : ℕ) (s : UserSession) (user : User)
    → user_by_id s.user_id users ≡ some user
    → user.is_admin ≡ false
    → s.drain_event_id ≡ some e
    → count_where (is_pending users e) (s ∷ []) ≡ (if is_none s.revoked_at then 1 else 0)
unfolding is_pending
pending-row users e s user h a d = ground arith

-- The books of a drain balance across a request: whether or not it logs its session out, what the
-- event counts as revoked and what is still pending add up to the same.
pub logout_balances :
    (now e : ℕ) (s : UserSession) (user : User) (db : Database) (ev : PublishDrainEvent)
    → IsRow s db.sessions
    → user_by_id s.user_id db.users ≡ some user
    → s.drain_event_id ≡ some e
    → e ≢ 0
    → event_by_id e db.events ≡ some ev
    → let db' = (enforce_session_drain now s user db).2 in
      (ev' : PublishDrainEvent) × (event_by_id e db'.events ≡ some ev')
      × (ev'.sessions_revoked + pending e db' ≡ ev.sessions_revoked + pending e db)
unfolding note_logout revoke
logout_balances now e s user db ev row u d n found =
    elim (Bool-cases (is_forced (enforce_session_drain now s user db).0)) [
      | inr quiet ↦
          let same = (no_logout_no_change now s user db quiet).1 in (ev, rw same found, rw same)
      | inl forced ↦
          let (_, ss, _) = logout_revokes now s user db forced in
          let (es, us, a) = forced_event now e s user db d n forced in
          let f = note_logout (is_none s.revoked_at) now in
          let moved =
            count_where-replace (λ r. r.id == s.id) (is_pending db.users e) s (revoke now s)
              db.sessions row.present row.unique in
          (
            f ev,
            rw es (first_where-update (λ x. x.id == e) f db.events ev (λ x. refl) found),
            rw (us, ss)
                (ground (
                  arith,
                  moved,
                  pending-revoke db.users e now s,
                  pending-row db.users e s user u a d,
                )),
          )
    ]

-- One logout behind the deadline of the event completes the event, so a finalization that comes later
-- revokes none of the sessions that are still pending: it leaves the database as it is.
pub logout_preempts_finalize :
    (now later e : ℕ) (s : UserSession) (user : User) (db : Database) (ev : PublishDrainEvent)
    → s.drain_event_id ≡ some e
    → e ≢ 0
    → event_by_id e db.events ≡ some ev
    → ev.deadline_at ≤ now
    → is_forced (enforce_session_drain now s user db).0 ≡ true
    → let db' = (enforce_session_drain now s user db).2 in
      (finalize_publish_drain e later db').1 ≡ db'
unfolding note_logout
logout_preempts_finalize now later e s user db ev d n found late forced =
    let (es, _, _) = forced_event now e s user db d n forced in
    let f = note_logout (is_none s.revoked_at) now in
    let row = first_where-update (λ x. x.id == e) f db.events ev (λ x. refl) found in
    let db' = (enforce_session_drain now s user db).2 in
    let found' : event_by_id e db'.events ≡ some (f ev) = rw es row in
    let shut : is_open (f ev).status ≡ false = ground arith in
    rw (finalize_closed e later db' found' shut)

unfoldable pub sleeping : List CountdownStep → ℕ
sleeping [] = 0
sleeping (sleep n ∷ steps) = n + sleeping steps
sleeping (warning _ ∷ steps) = sleeping steps

unfoldable pub warnings : List CountdownStep → List ℕ
warnings [] = []
warnings (sleep _ ∷ steps) = warnings steps
warnings (warning n ∷ steps) = n ∷ warnings steps

-- The countdown sleeps for exactly the seconds that remain, whatever the thresholds are.
pub countdown_sleeps : (ts : List ℕ) (remaining : ℕ) → sleeping (countdown ts remaining) ≡ remaining
unfolding countdown sleeping
countdown_sleeps [] remaining = ground arith
countdown_sleeps (t ∷ ts) remaining =
    ground (arith, countdown_sleeps ts remaining, countdown_sleeps ts t)

-- thresholds from the largest to the smallest
abbrev pub IsDescending : List ℕ → Type 0
IsDescending [] = Unit
IsDescending (t ∷ ts) = All (λ x. x < t) ts × IsDescending ts

select-All : (t : ℕ) (ts : List ℕ) → All (λ x. x < t) ts → select (λ x. ltb x t) ts ≡ ts
select-All t [] h = refl
select-All t (x ∷ ts) h = ground (arith, select-All t ts)

All-lt_trans : (t r : ℕ) (ts : List ℕ) → All (λ x. x < t) ts → t < r → All (λ x. x < r) ts
All-lt_trans t r [] h l = tt
All-lt_trans t r (x ∷ ts) h l = (omega arith, All-lt_trans t r ts h.1 l)

-- With descending thresholds, the countdown warns at exactly the thresholds below the seconds that
-- remain at its start.
pub countdown_warns :
    (ts : List ℕ) (remaining : ℕ)
    → IsDescending ts
    → warnings (countdown ts remaining) ≡ select (λ t. ltb t remaining) ts
unfolding countdown warnings
countdown_warns [] remaining h = ground arith
countdown_warns (t ∷ ts) remaining h = elim (Bool-cases (leb remaining t)) [
  | inl skip ↦ ground (arith, countdown_warns ts remaining h.1)
  | inr warn ↦
      let below : All (λ x. x < remaining) ts = All-lt_trans t remaining ts h.0 (ground arith) in
      ground (arith, countdown_warns ts t h.1, select-All t ts h.0, select-All remaining ts below)
]
