-- ===== src/Party/Rows.antt =====
-- models/party.py, and the queries of party_manager.py. `scalar_one_or_none` is the first row that
-- matches; that there is never a second one is a theorem of Party/Steps.
use game_gardens_of_karaxas.Base.{
  ℕ, String, Bool, true, false, ◌&&◌, Option, none, some, List, ◌==◌, nat_equality, string_equality,
  pair_equality, option_equality, if◌then◌else◌, first_where, update_where,
}
use game_gardens_of_karaxas.Models.{User}

pub data Role : Type 0 where
  owner member : Role

abbrev pub is_owner_role : Role → Bool
is_owner_role owner = true
is_owner_role member = false

pub data PartyStatus : Type 0 where
  active closed : PartyStatus

abbrev pub is_active : PartyStatus → Bool
is_active active = true
is_active closed = false

pub data InviteStatus : Type 0 where
  pending accepted declined : InviteStatus

abbrev pub is_pending : InviteStatus → Bool
is_pending pending = true
is_pending _ = false

pub record Party : Type 0 where
  pub id : String
  pub owner_user_id : ℕ
  pub status : PartyStatus

pub record PartyMember : Type 0 where
  pub party_id : String
  pub user_id : ℕ
  pub role : Role
  pub joined_at : ℕ

pub record PartyInvite : Type 0 where
  pub id : ℕ
  pub party_id : String
  pub inviter_user_id : ℕ
  pub target_user_id : ℕ
  pub status : InviteStatus
  pub responded_at : Option ℕ

pub record PartyTables : Type 0 where
  pub users : List User
  pub parties : List Party
  pub members : List PartyMember
  pub invites : List PartyInvite
  pub next_invite_id : ℕ

abbrev pub party_by_id : String → List Party → Option Party
party_by_id i = first_where (λ (p : Party). p.id == i)

abbrev pub in_party : String → PartyMember → Bool
in_party party m = m.party_id == party

abbrev pub is_member : String → ℕ → PartyMember → Bool
is_member party user m = (m.party_id == party) && (m.user_id == user)

abbrev pub of_user : ℕ → PartyMember → Bool
of_user user m = m.user_id == user

abbrev pub invite_by_id : ℕ → List PartyInvite → Option PartyInvite
invite_by_id i = first_where (λ (v : PartyInvite). v.id == i)

abbrev pub replace_party : String → (Party → Party) → List Party → List Party
replace_party i = update_where (λ (p : Party). p.id == i)

-- a party that is found and active
abbrev pub if_active : Option Party → Option Party
if_active none = none
if_active (some p) = if is_active p.status then some p else none

unfoldable pub get_active_party_for_user : PartyTables → ℕ → Option Party
get_active_party_for_user db user = elim (first_where (of_user user) db.members) [
  | none ↦ none
  | some m ↦ if_active (party_by_id m.party_id db.parties)
]
