-- ===== src/Party/Membership.antt =====
-- The rows of party_members: each user has at most one, and it is of an active party. So the lookup
-- of a user's party never meets two rows, and a user whose party is closed has none.
use game_gardens_of_karaxas.Base.{
  ℕ, ◌≤◌, String, ◌≡◌, inl, inr, refl, sym, ap, ◌∙◌, Bool, true, false, Option, none, some, List,
  [], ◌∷◌, ◌++◌, arith, string_eq_iff, ◌==◌, nat_equality, string_equality, pair_equality,
  option_equality, Bool-cases, Option-cases, All, first_where, count_where, count_where-append,
  All-append, All-first_where, first_where_last, no_match_count, All-mono,
}
use mathlib.Core.Path.{subst}
use game_gardens_of_karaxas.Party.Rows.{
  owner, active, is_active, Party, PartyMember, PartyTables, party_by_id, of_user, if_active,
  get_active_party_for_user,
}
use game_gardens_of_karaxas.Party.Manager.{create_party_for_owner}

abbrev pub is_open : Option Party → Bool
is_open none = false
is_open (some p) = is_active p.status

-- the member's party is found and active
abbrev pub InOpenParty : List Party → PartyMember → Type 0
InOpenParty parties m = is_open (party_by_id m.party_id parties) ≡ true

abbrev pub IsSound : PartyTables → Type 0
IsSound db =
    ((user : ℕ) → count_where (of_user user) db.members ≤ 1)
    × All (InOpenParty db.parties) db.members

pub open_is_active :
    (found : Option Party) (p : Party)
    → if_active found ≡ some p
    → (found ≡ some p) × (is_active p.status ≡ true)
open_is_active none p h = absurd (ground arith)
open_is_active (some q) p h = (ground arith, ground arith)

open_party : (found : Option Party) → is_open found ≡ true → if_active found ≡ found
open_party none h = refl
open_party (some p) h = ground arith

-- A user with a row is in the party of the row.
pub row_gives_party :
    (db : PartyTables) (user : ℕ) (m : PartyMember)
    → All (InOpenParty db.parties) db.members
    → first_where (of_user user) db.members ≡ some m
    → get_active_party_for_user db user ≡ party_by_id m.party_id db.parties
unfolding get_active_party_for_user
row_gives_party db user m parties found =
    rw (found, get_active_party_for_user)
      (open_party (party_by_id m.party_id db.parties)
        (All-first_where (InOpenParty db.parties) (of_user user) db.members m parties found))

no_party_no_row :
    (db : PartyTables) (user : ℕ)
    → All (InOpenParty db.parties) db.members
    → get_active_party_for_user db user ≡ none
    → first_where (of_user user) db.members ≡ none
no_party_no_row db user parties h = elim (Option-cases (first_where (of_user user) db.members)) [
  | inl nothing ↦ nothing
  | inr (m, found) ↦
      let open_now : is_open (party_by_id m.party_id db.parties) ≡ true =
        All-first_where (InOpenParty db.parties) (of_user user) db.members m parties found in
      let missing : party_by_id m.party_id db.parties ≡ none =
        sym (row_gives_party db user m parties found) ∙ h in
      absurd (ground (arith, open_now, missing))
]

append_party :
    (ps : List Party) (p : Party) (m : PartyMember)
    → InOpenParty ps m
    → InOpenParty (ps ++ p ∷ []) m
append_party [] p m h = absurd (ground arith)
append_party (q ∷ ps) p m h = ground (arith, append_party ps p m)

pub append_row_once :
    (ms : List PartyMember) (row : PartyMember)
    → ((user : ℕ) → count_where (of_user user) ms ≤ 1)
    → first_where (of_user row.user_id) ms ≡ none
    → (user : ℕ) → count_where (of_user user) (ms ++ row ∷ []) ≤ 1
append_row_once ms row once h user = elim (Bool-cases (row.user_id == user)) [
  | inl hit ↦
      let same : row.user_id ≡ user = ground arith in
      ground
        (arith, count_where-append (of_user user) ms (row ∷ []), no_match_count (of_user user) ms)
  | inr miss ↦ ground (arith, count_where-append (of_user user) ms (row ∷ []), once user)
]

new_party : String → ℕ → Party
new_party fresh user = record { id = fresh; owner_user_id = user; status = active }

with_party : String → ℕ → ℕ → PartyTables → PartyTables
unfolding new_party
with_party fresh now user db = record db {
  parties = db.parties ++ new_party fresh user ∷ [];
  members =
      db.members ++ record { party_id = fresh; user_id = user; role = owner; joined_at = now } ∷ [];
}

with_party-IsSound :
    (fresh : String) (now user : ℕ) (db : PartyTables)
    → IsSound db
    → party_by_id fresh db.parties ≡ none
    → first_where (of_user user) db.members ≡ none
    → IsSound (with_party fresh now user db)
unfolding with_party new_party
with_party-IsSound fresh now user db (once, parties) unused alone =
    let row : PartyMember = record {
      party_id = fresh;
      user_id = user;
      role = owner;
      joined_at = now;
    } in
    let after = db.parties ++ new_party fresh user ∷ [] in
    let named : (fresh == fresh) ≡ true = (string_eq_iff fresh fresh).1 refl in
    let made : party_by_id fresh after ≡ some (new_party fresh user) =
      first_where_last (λ (p : Party). p.id == fresh) db.parties (new_party fresh user) unused
        named in
    (
      append_row_once db.members row once alone,
      All-append (InOpenParty after) db.members (row ∷ [])
          (All-mono (InOpenParty db.parties) (InOpenParty after) db.members
            (append_party db.parties (new_party fresh user)) parties)
          (ap is_open made, tt),
    )

-- A party is created for a user who has none, under an id that is not taken.
pub create-IsSound :
    (fresh : String) (now user : ℕ) (db : PartyTables)
    → IsSound db
    → party_by_id fresh db.parties ≡ none
    → IsSound (create_party_for_owner fresh now user db).1
create-IsSound fresh now user db sound unused =
    elim (Option-cases (get_active_party_for_user db user)) [
      | inr (p, found) ↦
          let kept : (create_party_for_owner fresh now user db).1 ≡ db =
            unfold create_party_for_owner in rw (found, create_party_for_owner) refl in
          subst IsSound (sym kept) sound
      | inl nothing ↦
          let made : (create_party_for_owner fresh now user db).1 ≡ with_party fresh now user db =
            unfold create_party_for_owner with_party new_party in
            rw (nothing, create_party_for_owner) refl in
          subst IsSound (sym made) (
            with_party-IsSound fresh now user db sound unused
              (no_party_no_row db user sound.1 nothing))
    ]
