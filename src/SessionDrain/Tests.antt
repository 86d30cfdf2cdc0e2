-- ===== src/SessionDrain/Tests.antt =====
-- A drain over three sessions, and the theorems at inputs that meet their hypotheses.
use game_gardens_of_karaxas.Base.Text.{strip_or}
use game_gardens_of_karaxas.Base.{
  ℕ, ◌+◌, ◌*◌, ◌≤◌, max, String, ◌≡◌, refl, Bool, true, false, Option, none, some, [], ◌∷◌, map,
  arith, nat_equality, string_equality, pair_equality, option_equality, length, count_where, micros,
}
use game_gardens_of_karaxas.Base.Int.{pos, pos_part}
use game_gardens_of_karaxas.Base.Text
use game_gardens_of_karaxas.Base.Dict
use game_gardens_of_karaxas.Models.{User, UserSession, user_by_id, new_session}
use game_gardens_of_karaxas.SessionDrain.Rows.{
  DrainStatus, PublishDrainEvent, Database, event_by_id, active_drain_count, exceeds_capacity,
  is_live_player, mark_audit,
}
use game_gardens_of_karaxas.SessionDrain.Start.{
  mark_draining, target_session, target_sessions, flush_once, flush_user_presence, DrainRequest,
  new_event, started, open_drain, start_publish_drain,
}
use game_gardens_of_karaxas.SessionDrain.Finalize.{
  is_pending, revoke, revoke_pending, complete_event, close_drain, finalize_publish_drain,
  comes_before, insert_event, sort_events, finalize_each, finalize_due_publish_drains,
}
use game_gardens_of_karaxas.SessionDrain.Enforce.{
  force_logout, enforce_session_drain, sleep, warning, countdown, warning_thresholds,
}
use game_gardens_of_karaxas.SessionDrain.Targets.{
  plays, drained, start_marks_live_players, capacity_holds,
}
use game_gardens_of_karaxas.SessionDrain.Accounting.{pending, closed, finalize_closes}
use game_gardens_of_karaxas.SessionDrain.Logout.{
  is_forced, IsRow, logout_balances, logout_preempts_finalize,
}

abbrev person : ℕ → Bool → User
person i admin = record {
  id = i;
  email = "";
  display_name = "";
  password_hash = "";
  is_admin = admin;
  mfa_totp_secret = none;
  mfa_enabled = false;
  mfa_enabled_at = none;
}

-- two players and an administrator
abbrev db₀ : Database
db₀ = record {
  users = person 1 false ∷ person 2 true ∷ person 3 false ∷ [];
  sessions =
      new_session "a" 1 (micros 1000)
      ∷ new_session "b" 2 (micros 1000)
      ∷ new_session "c" 3 (micros 1000)
      ∷ [];
  events = [];
  audits = [];
  characters = record { id = 5; user_id = 1; is_selected = true } ∷ [];
  next_event_id = 1;
  forced_logouts = 0;
}

abbrev request : DrainRequest
request = record {
  trigger_type = "content";
  reason_code = " hotfix ";
  initiated_by = "";
  content_version_id = none;
  content_version_key = "cv_2";
  build_version = "";
  grace_minutes = pos 1;
  notes = "";
}

abbrev no_failure : ℕ → Option String
no_failure _ = none

abbrev db₁ : Database
db₁ = (start_publish_drain true 1 no_failure (micros 10) request db₀).1

abbrev event₁ : PublishDrainEvent
event₁ = record (new_event 1 (micros 10) request) { sessions_targeted = 2; sessions_persisted = 2 }

abbrev session₁ : UserSession
session₁ = mark_draining (new_event 1 (micros 10) request) (new_session "a" 1 (micros 1000))

drained_test :
    ((start_publish_drain true 1 no_failure (micros 10) request db₀).0 ≡ started event₁)
    × (active_drain_count db₁ ≡ 1)
    × (event_by_id 1 db₁.events ≡ some event₁)
unfolding start_publish_drain open_drain new_event exceeds_capacity target_sessions target_session
    flush_once flush_user_presence is_live_player mark_draining Dict.get Dict.put Text.strip
    Text.strip_or Text.strip_or_none
drained_test = (refl, refl, refl)

due_test : (finalize_due_publish_drains (micros 70) db₁).1.forced_logouts ≡ 2
unfolding finalize_due_publish_drains finalize_each finalize_publish_drain close_drain
    revoke_pending complete_event is_pending revoke mark_audit sort_events insert_event comes_before
    start_publish_drain open_drain new_event exceeds_capacity target_sessions target_session
    flush_once flush_user_presence is_live_player mark_draining Dict.get Dict.put
due_test = refl

countdown_test :
    countdown warning_thresholds 45 ≡ sleep 15 ∷ warning 30 ∷ sleep 20 ∷ warning 10 ∷ sleep 10 ∷ []
unfolding countdown
countdown_test = refl

start_marks_live_players_example :
    let n = count_where (plays db₀.users (micros 10)) db₀.sessions in
    let deadline = micros 10 + micros (pos_part (pos 1) * 60) in
    let reason = strip_or " hotfix " "publish" in
    (db₁.sessions ≡ map (drained db₀.users (micros 10) event₁.id deadline reason) db₀.sessions)
    × (event₁.id ≡ 1)
    × (event₁.sessions_targeted ≡ n)
    × (event₁.sessions_persisted + event₁.sessions_persist_failed ≡ n)
    × (length db₁.audits ≡ length db₀.audits + n)
    × (event₁.deadline_at ≡ deadline)
start_marks_live_players_example =
    start_marks_live_players 1 (micros 10) no_failure request db₀ drained_test.0

capacity_holds_example :
    active_drain_count (start_publish_drain true 1 no_failure (micros 11) request db₁).1 ≤ max 1 1
capacity_holds_example =
    capacity_holds 1 (micros 11) no_failure request db₁ (omega (arith, drained_test.1))

finalize_closes_example :
    let (found, db') = finalize_publish_drain 1 (micros 70) db₁ in
    (db'.sessions ≡ map (closed db₁.users 1 (micros 70)) db₁.sessions)
    × (pending 1 db' ≡ 0)
    × (found
        ≡ some (record event₁ {
          sessions_revoked = event₁.sessions_revoked + pending 1 db₁;
          status = DrainStatus.completed;
          cutoff_at = some (micros 70);
        }))
    × (db'.forced_logouts ≡ db₁.forced_logouts + pending 1 db₁)
unfolding new_event
finalize_closes_example = finalize_closes 1 (micros 70) db₁ drained_test.2 refl

session-IsRow : IsRow session₁ db₁.sessions
unfolding start_publish_drain open_drain new_event exceeds_capacity target_sessions target_session
    flush_once flush_user_presence is_live_player mark_draining Dict.get Dict.put
session-IsRow = record { present = refl; unique = refl }

users_kept : user_by_id 1 db₁.users ≡ some (person 1 false)
unfolding start_publish_drain open_drain exceeds_capacity
users_kept = refl

logout_balances_example :
    let db' = (enforce_session_drain (micros 71) session₁ (person 1 false) db₁).2 in
    (ev' : PublishDrainEvent) × (event_by_id 1 db'.events ≡ some ev')
    × (ev'.sessions_revoked + pending 1 db' ≡ event₁.sessions_revoked + pending 1 db₁)
unfolding mark_draining new_event
logout_balances_example =
    logout_balances (micros 71) 1 session₁ (person 1 false) db₁ event₁ session-IsRow users_kept refl
      (omega arith) drained_test.2

forced_test : is_forced (enforce_session_drain (micros 71) session₁ (person 1 false) db₁).0 ≡ true
unfolding enforce_session_drain force_logout mark_draining new_event
forced_test = refl

early_test : is_forced (enforce_session_drain (micros 69) session₁ (person 1 false) db₁).0 ≡ false
unfolding enforce_session_drain force_logout mark_draining new_event
early_test = refl

logout_preempts_finalize_example :
    let db' = (enforce_session_drain (micros 71) session₁ (person 1 false) db₁).2 in
    (finalize_publish_drain 1 (micros 72) db').1 ≡ db'
unfolding mark_draining new_event
logout_preempts_finalize_example =
    logout_preempts_finalize (micros 71) (micros 72) 1 session₁ (person 1 false) db₁ event₁ refl
      (omega arith) drained_test.2 (omega arith) forced_test
