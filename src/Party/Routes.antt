-- ===== src/Party/Routes.antt =====
-- api/routes/party.py. A handler that raises ends with no commit, so the tables are as they were.
-- `user` is the user of the request.
use game_gardens_of_karaxas.Base.{
  ℕ, String, Bool, true, false, Option, none, some, ◌==◌, nat_equality, string_equality,
  pair_equality, option_equality, if◌then◌else◌,
}
use game_gardens_of_karaxas.Models.{User}
use game_gardens_of_karaxas.Party.Rows.{
  is_pending, Party, PartyInvite, PartyTables, invite_by_id, get_active_party_for_user,
}
use game_gardens_of_karaxas.Party.Manager.{
  create_party_for_owner, PartyError, Checked, passed, value_error, permission_error,
  ensure_party_owner, resolve_invite_target, create_party_invite, accept_party_invite,
  decline_party_invite, remove_party_member, transfer_party_owner,
}

pub data Response (A : Type 0) : Type 0 where
  ok : A → Response A
  http_error : ℕ → String → Response A
  http_party_error : ℕ → PartyError → Response A
  -- an exception that the handler does not catch
  unhandled : PartyError → Response A

unfoldable pub create_party : String → ℕ → ℕ → PartyTables → Response Party × PartyTables
create_party fresh now user db =
    let (party, db') = create_party_for_owner fresh now user db in (ok party, db')

-- `invite` behind `ensure_party_owner`
unfoldable pub invite_target :
    Party → ℕ → Option User → PartyTables → PartyTables → Response PartyInvite × PartyTables
invite_target party user none before db = (http_error 404 "invite_target_not_found", before)
invite_target party user (some target) before db =
    let (row, db') = create_party_invite party.id user target.id db in
    if target.id == user then (http_error 422 "invalid_invite_target", before) else (ok row, db')

unfoldable pub invite :
    (String → String)
    → String
    → ℕ
    → ℕ
    → Option ℕ
    → Option String
    → PartyTables
    → Response PartyInvite × PartyTables
invite lower fresh now user target_user target_email before =
    let (party, db) = create_party_for_owner fresh now user before in
    elim (ensure_party_owner party.id user db) [
      | passed owned ↦
          invite_target party user (resolve_invite_target lower target_user target_email db) before
            db
      | value_error e ↦ (unhandled e, before)
      | permission_error e ↦ (unhandled e, before)
    ]

abbrev pub addressed_to : ℕ → Option PartyInvite → Option PartyInvite
addressed_to user none = none
addressed_to user (some row) = if row.target_user_id == user then some row else none

-- the `try` of `invite_accept`
abbrev pub accept_result : PartyTables → Checked Party × PartyTables → Response Party × PartyTables
accept_result before (passed party, db) = (ok party, db)
accept_result before (value_error e, db) = (http_party_error 409 e, before)
accept_result before (permission_error e, db) = (unhandled e, before)

unfoldable pub invite_accept : ℕ → ℕ → ℕ → PartyTables → Response Party × PartyTables
invite_accept now user invite_id db = elim (addressed_to user (invite_by_id invite_id db.invites)) [
  | none ↦ (http_error 404 "invite_not_found", db)
  | some row ↦
      if is_pending row.status
      then accept_result db (accept_party_invite now row user db)
      else (http_error 409 "invite_not_pending", db)
]

unfoldable pub invite_decline : ℕ → ℕ → ℕ → PartyTables → Response (Unit {0}) × PartyTables
invite_decline now user invite_id db =
    elim (addressed_to user (invite_by_id invite_id db.invites)) [
      | none ↦ (http_error 404 "invite_not_found", db)
      | some row ↦ (ok tt, if is_pending row.status then decline_party_invite now row db else db)
    ]

-- the answer says whether the user has left a party
unfoldable pub leave_party : ℕ → PartyTables → Response Bool × PartyTables
leave_party user db = elim (get_active_party_for_user db user) [
  | none ↦ (ok false, db)
  | some party ↦ (ok true, remove_party_member party user db)
]

unfoldable pub kick_member : ℕ → ℕ → PartyTables → Response ℕ × PartyTables
kick_member user target db = elim (get_active_party_for_user db user) [
  | none ↦ (http_error 404 "party_not_found", db)
  | some party ↦ elim (ensure_party_owner party.id user db) [
    | value_error e ↦ (unhandled e, db)
    | permission_error e ↦ (http_error 403 "party_owner_required", db)
    | passed owned ↦
        if target == user
        then (http_error 422 "invalid_kick_target", db)
        else (ok target, remove_party_member party target db)
  ]
]

abbrev pub promote_result :
    ℕ → PartyTables → Checked (Unit {0}) × PartyTables → Response ℕ × PartyTables
promote_result target before (passed _, db) = (ok target, db)
promote_result target before (value_error e, db) = (http_party_error 422 e, before)
promote_result target before (permission_error e, db) =
    (http_error 403 "party_owner_required", before)

unfoldable pub promote_member : ℕ → ℕ → PartyTables → Response ℕ × PartyTables
promote_member user target db = elim (get_active_party_for_user db user) [
  | none ↦ (http_error 404 "party_not_found", db)
  | some party ↦ elim (ensure_party_owner party.id user db) [
    | value_error e ↦ (http_party_error 422 e, db)
    | permission_error e ↦ (http_error 403 "party_owner_required", db)
    | passed owned ↦ promote_result target db (transfer_party_owner party target db)
  ]
]
