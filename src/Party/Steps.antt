-- ===== src/Party/Steps.antt =====
-- All changes of the party tables as a step relation, and its invariant.
use game_gardens_of_karaxas.Base.{
  ℕ, String, ◌≡◌, none, nat_equality, string_equality, pair_equality, option_equality,
}
use game_gardens_of_karaxas.Party.Rows.{Party, PartyInvite, PartyTables, party_by_id}
use game_gardens_of_karaxas.Party.Manager.{
  create_party_for_owner, accept_party_invite, remove_party_member, transfer_party_owner,
  create_party_invite, decline_party_invite,
}

-- The changes that the routes make to the tables; a new party's id is not in use.
pub data Step : PartyTables → PartyTables → Type 0 where
  creates :
      (fresh : String) (now user : ℕ) (db : PartyTables)
      → party_by_id fresh db.parties ≡ none
      → Step db (create_party_for_owner fresh now user db).1
  invites :
      (party : String) (inviter target : ℕ) (db : PartyTables)
      → Step db (create_party_invite party inviter target db).1
  accepts :
      (now : ℕ) (invite : PartyInvite) (user : ℕ) (db : PartyTables)
      → Step db (accept_party_invite now invite user db).1
  declines :
      (now : ℕ) (invite : PartyInvite) (db : PartyTables)
      → Step db (decline_party_invite now invite db)
  removes :
      (party : Party) (user : ℕ) (db : PartyTables) → Step db (remove_party_member party user db)
  transfers :
      (party : Party) (target : ℕ) (db : PartyTables)
      → Step db (transfer_party_owner party target db).1
