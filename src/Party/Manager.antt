-- ===== src/Party/Manager.antt =====
-- party_manager.py: what changes a party. A row that the code holds is a value here, and a write to it
-- is a write to its row in the table.
use game_gardens_of_karaxas.Base.{
  ℕ, ◌+◌, String, Bool, false, not, ◌&&◌, ◌||◌, Option, none, some, List, [], ◌∷◌, ◌++◌, ltb, ◌==◌,
  nat_equality, string_equality, pair_equality, option_equality, or_default, if◌then◌else◌,
  first_where, select, update_where, any_where,
}
use game_gardens_of_karaxas.Base.Text.{strip, is_empty}
use game_gardens_of_karaxas.Models.{User, user_by_id}
use game_gardens_of_karaxas.Party.Rows.{
  owner, member, is_owner_role, active, closed, InviteStatus, pending, accepted, declined,
  is_pending, Party, PartyMember, PartyInvite, PartyTables, party_by_id, in_party, is_member,
  replace_party, if_active, get_active_party_for_user,
}

unfoldable pub create_party_for_owner : String → ℕ → ℕ → PartyTables → Party × PartyTables
create_party_for_owner fresh now user db = elim (get_active_party_for_user db user) [
  | some existing ↦ (existing, db)
  | none ↦
      let party : Party = record { id = fresh; owner_user_id = user; status = active } in
      (
        party,
        record db {
          parties = db.parties ++ party ∷ [];
          members =
              db.members
              ++ record { party_id = fresh; user_id = user; role = owner; joined_at = now } ∷ [];
        },
      )
]

-- the texts of the exceptions
pub data PartyError : Type 0 where
  party_not_found already_in_party target_not_in_party party_owner_required : PartyError

pub data Checked (A : Type 0) : Type 0 where
  passed : A → Checked A
  value_error permission_error : PartyError → Checked A

unfoldable pub ensure_party_owner : String → ℕ → PartyTables → Checked Party
ensure_party_owner party_id user db = elim (if_active (party_by_id party_id db.parties)) [
  | none ↦ value_error party_not_found
  | some party ↦
      if party.owner_user_id == user then passed party else permission_error party_owner_required
]

-- `lower` is `str.lower`.
unfoldable pub resolve_invite_target :
    (String → String) → Option ℕ → Option String → PartyTables → Option User
resolve_invite_target lower (some user) email db = user_by_id user db.users
resolve_invite_target lower none email db =
    let normalized = lower (strip (or_default email "")) in
    if is_empty normalized then none else first_where (λ (u : User). u.email == normalized) db.users

abbrev pub open_invite : String → ℕ → PartyTables → Option PartyInvite
open_invite party target db =
    first_where
      (λ (v : PartyInvite).
        (v.party_id == party) && (v.target_user_id == target) && is_pending v.status)
      db.invites

unfoldable pub create_party_invite : String → ℕ → ℕ → PartyTables → PartyInvite × PartyTables
create_party_invite party inviter target db =
    let new_invite : PartyInvite = record {
      id = db.next_invite_id;
      party_id = party;
      inviter_user_id = inviter;
      target_user_id = target;
      status = pending;
      responded_at = none;
    } in
    elim (open_invite party target db) [
      | some existing ↦ (existing, db)
      | none ↦ (
        new_invite,
        record db {
          invites = db.invites ++ new_invite ∷ [];
          next_invite_id = db.next_invite_id + 1;
        },
      )
    ]

abbrev pub answer_invite : ℕ → InviteStatus → ℕ → List PartyInvite → List PartyInvite
answer_invite i status now =
    update_where (λ (v : PartyInvite). v.id == i)
      (λ (v : PartyInvite). record v { status = status; responded_at = some now })

-- `existing_party is not None and existing_party.id != party.id`
abbrev pub is_elsewhere : Option Party → Party → Bool
is_elsewhere none party = false
is_elsewhere (some existing) party = not (existing.id == party.id)

-- `accept_party_invite` with a party that is found
unfoldable pub join_party : ℕ → PartyInvite → ℕ → Party → PartyTables → Checked Party × PartyTables
join_party now invite user party db =
    let row : PartyMember = record {
      party_id = party.id;
      user_id = user;
      role = member;
      joined_at = now;
    } in
    let known = any_where (is_member party.id user) db.members in
    if is_elsewhere (get_active_party_for_user db user) party
    then (value_error already_in_party, db)
    else (
      passed party,
      record db {
        members = (if known then db.members else db.members ++ row ∷ []);
        invites = answer_invite invite.id accepted now db.invites;
      },
    )

unfoldable pub accept_party_invite : ℕ → PartyInvite → ℕ → PartyTables → Checked Party × PartyTables
accept_party_invite now invite user db = elim (if_active (party_by_id invite.party_id db.parties)) [
  | none ↦ (value_error party_not_found, db)
  | some party ↦ join_party now invite user party db
]

unfoldable pub decline_party_invite : ℕ → PartyInvite → PartyTables → PartyTables
decline_party_invite now invite db = record db {
  invites = answer_invite invite.id declined now db.invites;
}

-- the order of the key `(role != "owner", joined_at, user_id)`
unfoldable pub ranks_before : PartyMember → PartyMember → Bool
ranks_before a b =
    let rank = λ (m : PartyMember). if is_owner_role m.role then 0 else 1 in
    ltb (rank a) (rank b)
    || ((rank a == rank b)
        && (ltb a.joined_at b.joined_at
            || ((a.joined_at == b.joined_at) && ltb a.user_id b.user_id)))

-- `sorted(remaining, key=…)[0]`
unfoldable pub first_by_rank : PartyMember → List PartyMember → PartyMember
first_by_rank best [] = best
first_by_rank best (m ∷ ms) = first_by_rank (if ranks_before m best then m else best) ms

-- the roles of a party whose owner is given
unfoldable pub assign_roles : String → ℕ → List PartyMember → List PartyMember
assign_roles party user =
    update_where (in_party party)
      (λ (m : PartyMember). record m { role = (if m.user_id == user then owner else member) })

abbrev pub set_owner : String → ℕ → PartyTables → PartyTables
set_owner party user db = record db {
  parties = replace_party party (λ (p : Party). record p { owner_user_id = user }) db.parties;
  members = assign_roles party user db.members;
}

-- `remove_party_member` behind the deletion: the rows that remain, and what becomes of the party
unfoldable pub hand_over : Party → ℕ → List PartyMember → PartyTables → PartyTables
hand_over party user [] db = record db {
  parties = replace_party party.id (λ (p : Party). record p { status = closed }) db.parties;
}
hand_over party user (m ∷ ms) db =
    if party.owner_user_id == user then set_owner party.id (first_by_rank m ms).user_id db else db

unfoldable pub remove_party_member : Party → ℕ → PartyTables → PartyTables
remove_party_member party user db =
    let left = select (λ (m : PartyMember). not (is_member party.id user m)) db.members in
    let after =
      hand_over party user (select (in_party party.id) left) (record db { members = left }) in
    if any_where (is_member party.id user) db.members then after else db

unfoldable pub transfer_party_owner : Party → ℕ → PartyTables → Checked (Unit {0}) × PartyTables
transfer_party_owner party target db =
    if any_where (is_member party.id target) db.members
    then (passed tt, set_owner party.id target db)
    else (value_error target_not_in_party, db)
