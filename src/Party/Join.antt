-- ===== src/Party/Join.antt =====
-- The member rows stay sound when an invitation is accepted.
use game_gardens_of_karaxas.Base.{
  ℕ, ◌≡◌, inl, inr, ◌∙◌, true, false, none, some, [], ◌∷◌, arith, string_eq_iff, ◌==◌, nat_equality,
  string_equality, pair_equality, option_equality, Bool-cases, Option-cases, All, first_where,
  any_where, All-append, first_where_sound, All-first_where, any_where-first_where,
}
use mathlib.Core.Path.{subst}
use game_gardens_of_karaxas.Party.Rows.{
  member, Party, PartyMember, PartyInvite, PartyTables, party_by_id, is_member, of_user, if_active,
  get_active_party_for_user,
}
use game_gardens_of_karaxas.Party.Manager.{is_elsewhere, join_party, accept_party_invite}
use game_gardens_of_karaxas.Party.Membership.{
  is_open, InOpenParty, IsSound, open_is_active, row_gives_party, append_row_once,
}

-- who has no row of this party and is in no other one has no row
no_row_elsewhere :
    (db : PartyTables) (user : ℕ) (party : Party)
    → All (InOpenParty db.parties) db.members
    → any_where (is_member party.id user) db.members ≡ false
    → is_elsewhere (get_active_party_for_user db user) party ≡ false
    → first_where (of_user user) db.members ≡ none
no_row_elsewhere db user party parties unknown here =
    elim (Option-cases (first_where (of_user user) db.members)) [
      | inl nothing ↦ nothing
      | inr (m, found) ↦
          let same_party = row_gives_party db user m parties found in
          let opened =
            All-first_where (InOpenParty db.parties) (of_user user) db.members m parties found in
          let mine : (m.user_id == user) ≡ true =
            first_where_sound (of_user user) db.members m found in
          let other : is_member party.id user m ≡ false =
            any_where-first_where (is_member party.id user) (of_user user) db.members m unknown
              found in
          elim (Option-cases (party_by_id m.party_id db.parties)) [
            | inl missing ↦ absurd (ground (arith, opened, missing))
            | inr (p, known) ↦
                let named : (p.id == m.party_id) ≡ true =
                  first_where_sound (λ (q : Party). q.id == m.party_id) db.parties p known in
                let its_id : p.id ≡ m.party_id = (string_eq_iff p.id m.party_id).0 named in
                let elsewhere : is_elsewhere (some p) party ≡ false =
                  subst (λ e. is_elsewhere e party ≡ false) (same_party ∙ known) here in
                absurd (
                  ground (
                    arith,
                    elsewhere,
                    other,
                    mine,
                    its_id,
                    string_eq_iff p.id party.id,
                    string_eq_iff m.party_id party.id,
                  ))
          ]
    ]

join_party-IsSound :
    (now : ℕ) (invite : PartyInvite) (user : ℕ) (party : Party) (db : PartyTables)
    → IsSound db
    → is_open (party_by_id party.id db.parties) ≡ true
    → IsSound (join_party now invite user party db).1
unfolding join_party
join_party-IsSound now invite user party db (once, parties) opened =
    let row : PartyMember = record {
      party_id = party.id;
      user_id = user;
      role = member;
      joined_at = now;
    } in
    elim (Bool-cases (is_elsewhere (get_active_party_for_user db user) party)) [
      | inl away ↦ rw (away, join_party) (once, parties)
      | inr here ↦ elim (Bool-cases (any_where (is_member party.id user) db.members)) [
        | inl known ↦ rw (here, known, join_party) (once, parties)
        | inr unknown ↦
            rw (here, unknown, join_party)
              (
                append_row_once db.members row once
                    (no_row_elsewhere db user party parties unknown here),
                All-append (InOpenParty db.parties) db.members (row ∷ []) parties (opened, tt),
              )
      ]
    ]

-- A user who is in no other party and has no row of this one has no row at all.
pub accept_party_invite-IsSound :
    (now : ℕ) (invite : PartyInvite) (user : ℕ) (db : PartyTables)
    → IsSound db
    → IsSound (accept_party_invite now invite user db).1
unfolding accept_party_invite
accept_party_invite-IsSound now invite user db sound =
    elim (Option-cases (if_active (party_by_id invite.party_id db.parties))) [
      | inl nothing ↦ rw (nothing, accept_party_invite) sound
      | inr (p, found) ↦
          let (known, lively) = open_is_active (party_by_id invite.party_id db.parties) p found in
          let its_id : p.id ≡ invite.party_id =
            (string_eq_iff p.id invite.party_id).0
              (first_where_sound (λ (q : Party). q.id == invite.party_id) db.parties p known) in
          let opened : is_open (party_by_id p.id db.parties) ≡ true = rw its_id (rw known lively) in
          rw (found, accept_party_invite) (join_party-IsSound now invite user p db sound opened)
    ]
