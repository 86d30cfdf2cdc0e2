-- ===== src/Party/Leave.antt =====
-- The member rows stay sound when a party is handed over or closed.
use game_gardens_of_karaxas.Base.{
  ℕ, ◌≤◌, String, ◌≡◌, inl, inr, refl, ◌∙◌, false, not, List, [], ◌∷◌, arith, string_eq_iff, ◌==◌,
  nat_equality, string_equality, pair_equality, option_equality, if◌then◌else◌, Bool-cases, All,
  select, count_where, any_where, count_where-select-le, count_where-update, All-select, All-mono,
  All-update,
}
use game_gardens_of_karaxas.Party.Rows.{
  owner, member, closed, Party, PartyMember, PartyTables, party_by_id, in_party, is_member, of_user,
  replace_party,
}
use game_gardens_of_karaxas.Party.Manager.{
  assign_roles, first_by_rank, set_owner, hand_over, remove_party_member,
}
use game_gardens_of_karaxas.Party.Membership.{is_open, InOpenParty, IsSound}

set_owner_keeps :
    (i : String) (user : ℕ) (ps : List Party) (m : PartyMember)
    → is_open (
        party_by_id m.party_id
          (replace_party i (λ (p : Party). record p { owner_user_id = user }) ps))
      ≡ is_open (party_by_id m.party_id ps)
set_owner_keeps i user [] m = refl
set_owner_keeps i user (p ∷ ps) m = ground (arith, set_owner_keeps i user ps m)

close_keeps :
    (i : String) (ps : List Party) (m : PartyMember)
    → in_party i m ≡ false
    → is_open
        (party_by_id m.party_id (replace_party i (λ (p : Party). record p { status = closed }) ps))
      ≡ is_open (party_by_id m.party_id ps)
close_keeps i [] m h = refl
close_keeps i (p ∷ ps) m h = ground (
  arith,
  close_keeps i ps m h,
  string_eq_iff p.id i,
  string_eq_iff p.id m.party_id,
  string_eq_iff m.party_id i,
)

pub set_owner-IsSound :
    (i : String) (user : ℕ) (db : PartyTables) → IsSound db → IsSound (set_owner i user db)
unfolding assign_roles
set_owner-IsSound i user db (once, parties) = (
  λ u.
      rw
        (count_where-update (of_user u) (in_party i)
          (λ (m : PartyMember). record m { role = (if m.user_id == user then owner else member) })
          db.members (λ m. refl))
        (once u),
  All-update (InOpenParty (set_owner i user db).parties) (in_party i)
      (λ (m : PartyMember). record m { role = (if m.user_id == user then owner else member) })
      db.members (λ m h. h)
      (All-mono (InOpenParty db.parties) (InOpenParty (set_owner i user db).parties) db.members
        (λ m h. set_owner_keeps i user db.parties m ∙ h) parties),
)

-- Only the rows of a party that is closed lose their party.
All-close :
    (i : String) (ps : List Party) (ms : List PartyMember)
    → select (in_party i) ms ≡ []
    → All (InOpenParty ps) ms
    → All (InOpenParty (replace_party i (λ (p : Party). record p { status = closed }) ps)) ms
All-close i ps [] h all = tt
All-close i ps (m ∷ ms) h (first, others) = elim (Bool-cases (in_party i m)) [
  | inl hit ↦ absurd (ground arith)
  | inr miss ↦ (close_keeps i ps m miss ∙ first, All-close i ps ms (ground arith) others)
]

hand_over-IsSound :
    (party : Party) (user : ℕ) (rows : List PartyMember) (db : PartyTables)
    → select (in_party party.id) db.members ≡ rows
    → IsSound db
    → IsSound (hand_over party user rows db)
unfolding hand_over
hand_over-IsSound party user [] db h (once, parties) =
    (once, All-close party.id db.parties db.members h parties)
hand_over-IsSound party user (m ∷ ms) db h sound = elim (Bool-cases (party.owner_user_id == user)) [
  | inl owns ↦
      rw (owns, hand_over) (set_owner-IsSound party.id (first_by_rank m ms).user_id db sound)
  | inr not_owner ↦ rw (not_owner, hand_over) sound
]

-- A member leaves: the party is handed over to another one or is closed.
pub remove_party_member-IsSound :
    (party : Party) (user : ℕ) (db : PartyTables)
    → IsSound db
    → IsSound (remove_party_member party user db)
unfolding remove_party_member
remove_party_member-IsSound party user db sound =
    let stays = λ (m : PartyMember). not (is_member party.id user m) in
    let without : PartyTables = record db { members = select stays db.members } in
    let smaller : (u : ℕ) → count_where (of_user u) without.members ≤ 1 =
      λ u. omega (arith, sound.0 u, count_where-select-le (of_user u) stays db.members) in
    let kept : All (InOpenParty db.parties) without.members =
      All-select (InOpenParty db.parties) stays db.members sound.1 in
    elim (Bool-cases (any_where (is_member party.id user) db.members)) [
      | inl there ↦
          rw (there, remove_party_member)
            (hand_over-IsSound party user (select (in_party party.id) without.members) without refl
              (smaller, kept))
      | inr nobody ↦ rw (nobody, remove_party_member) sound
    ]
