-- ===== src/Party/Owner.antt =====
-- What becomes of a party when a member leaves, and who may change it.
use game_gardens_of_karaxas.Base.{
  ℕ, ◌≤◌, ◌<◌, String, ◌≡◌, ◌⊎◌, inl, inr, refl, sym, ap, ◌∙◌, true, false, not, Option, none, some,
  List, [], arith, string_eq_iff, ◌==◌, nat_equality, string_equality, pair_equality,
  option_equality, Option-cases, All, first_where, select, any_where, first_where_sound,
  All-first_where, first_where-update,
}
use mathlib.Core.Path.{subst}
use game_gardens_of_karaxas.Party.Rows.{
  closed, get_active_party_for_user, owner, member, is_active, is_owner_role, Party, PartyMember,
  PartyTables, party_by_id, of_user, in_party, is_member, if_active, replace_party,
}
use game_gardens_of_karaxas.Party.Routes.{
  http_error, unhandled, invite, kick_member, promote_member,
}
use game_gardens_of_karaxas.Party.Manager.{
  ranks_before, hand_over, remove_party_member, party_owner_required, ensure_party_owner,
  permission_error, create_party_for_owner,
}

-- the first row comes first: as the owner before a member, or with the same role by an earlier time of
-- joining, or at the same time by a user id that is not greater
abbrev pub ComesFirst : PartyMember → PartyMember → Type 0
ComesFirst a b =
    ((a.role ≡ owner) × (b.role ≡ member))
    ⊎ ((a.role ≡ b.role)
        × ((a.joined_at < b.joined_at) ⊎ ((a.joined_at ≡ b.joined_at) × (a.user_id ≤ b.user_id))))

-- no row of the party comes before the row that is chosen
abbrev IsFirst : PartyMember → PartyMember → Type 0
IsFirst best m = ranks_before m best ≡ false

abbrev pub HasRoleOf : ℕ → PartyMember → Type 0
HasRoleOf user m = is_owner_role m.role ≡ (m.user_id == user)

-- The last member who leaves closes the party, and no member row of it remains.
pub last_member_closes :
    (party : Party) (user : ℕ) (db : PartyTables)
    → any_where (is_member party.id user) db.members ≡ true
    → select
        (in_party party.id)
        (select (λ (m : PartyMember). not (is_member party.id user m)) db.members)
      ≡ []
    → party_by_id party.id db.parties ≡ some party
    → (let after = remove_party_member party user db in
        (party_by_id party.id after.parties ≡ some (record party { status = closed }))
        × (select (in_party party.id) after.members ≡ [])
        × (if_active (party_by_id party.id after.parties) ≡ none))
unfolding remove_party_member hand_over
last_member_closes party user db there alone known =
    let left = select (λ (m : PartyMember). not (is_member party.id user m)) db.members in
    let closes = λ (p : Party). record p { status = closed } in
    let done : remove_party_member party user db
        ≡ (record db { members = left; parties = replace_party party.id closes db.parties }) =
      rw (there, alone, remove_party_member, hand_over) refl in
    let shut : party_by_id party.id (replace_party party.id closes db.parties)
        ≡ some (closes party) =
      first_where-update (λ (p : Party). p.id == party.id) closes db.parties party (λ p. refl)
        known in
    rw done (shut, alone, ap if_active shut)

-- the party is closed, or another user's
abbrev pub IsAnothers : ℕ → Party → Type 0
IsAnothers user p = (is_active p.status ≡ false) ⊎ ((p.owner_user_id == user) ≡ false)

own_party :
    (user : ℕ) (party : Party) (db : PartyTables)
    → get_active_party_for_user db user ≡ some party
    → if_active (party_by_id party.id db.parties) ≡ some party
unfolding get_active_party_for_user
own_party user party db mine = elim (Option-cases (first_where (of_user user) db.members)) [
  | inl alone ↦ absurd (ground (arith, alone, mine))
  | inr (m, there) ↦ elim (Option-cases (party_by_id m.party_id db.parties)) [
    | inl missing ↦ absurd (ground (arith, there, missing, mine))
    | inr (p, found) ↦
        let same : p ≡ party = ground (arith, there, found, mine) in
        let named : p.id ≡ m.party_id =
          (string_eq_iff p.id m.party_id).0
            (first_where_sound (λ (p : Party). p.id == m.party_id) db.parties p found) in
        let lively : if_active (some p) ≡ some party = ground (arith, there, found, mine) in
        subst (λ q. if_active (party_by_id q.id db.parties) ≡ some party) same
          (subst (λ i. if_active (party_by_id i db.parties) ≡ some party) (sym named)
            (ap if_active found ∙ lively))
  ]
]

another_owns :
    (user : ℕ) (party : Party) (db : PartyTables)
    → All (IsAnothers user) db.parties
    → if_active (party_by_id party.id db.parties) ≡ some party
    → ensure_party_owner party.id user db ≡ permission_error party_owner_required
another_owns user party db others lively = elim (Option-cases (party_by_id party.id db.parties)) [
  | inl missing ↦ absurd (ground (arith, missing, lively))
  | inr (p, found) ↦
      let same : p ≡ party = ground (arith, found, lively) in
      let shut : is_active p.status ≡ true = ground (arith, found, lively) in
      let other =
        All-first_where (IsAnothers user) (λ (q : Party). q.id == party.id) db.parties p others
          found in
      let foreign : (p.owner_user_id == user) ≡ false = ground (arith, other, shut) in
      let his : (party.owner_user_id == user) ≡ false =
        subst (λ q. (q.owner_user_id == user) ≡ false) same foreign in
      unfold ensure_party_owner in rw (lively, his, ensure_party_owner) refl
]

-- A user who owns no active party can change none: if he is in an active party, his requests to remove
-- a member and to promote one are answered 403, and an invitation of his, of whomever and however he
-- names the target, ends in an exception that the handler does not catch; if he is in none, the first
-- two are answered 404. None of these requests changes the tables.
pub only_owner_changes :
    (lower : String → String) (fresh : String) (now user target : ℕ) (target_user : Option ℕ)
    (target_email : Option String) (db : PartyTables)
    → All (IsAnothers user) db.parties
    → let kick = kick_member user target db in
      let promote = promote_member user target db in
      ((get_active_party_for_user db user ≡ none)
        × (kick ≡ (http_error 404 "party_not_found", db))
        × (promote ≡ (http_error 404 "party_not_found", db)))
      ⊎ ((party : Party) × (get_active_party_for_user db user ≡ some party)
          × (kick ≡ (http_error 403 "party_owner_required", db))
          × (promote ≡ (http_error 403 "party_owner_required", db))
          × (invite lower fresh now user target_user target_email db
              ≡ (unhandled party_owner_required, db)))
only_owner_changes lower fresh now user target target_user target_email db others =
    elim (Option-cases (get_active_party_for_user db user)) [
      | inl alone ↦ inl (
        alone,
        (unfold kick_member in rw (alone, kick_member) refl),
        (unfold promote_member in rw (alone, promote_member) refl),
      )
      | inr (party, mine) ↦
          let refused = another_owns user party db others (own_party user party db mine) in
          let created : create_party_for_owner fresh now user db ≡ (party, db) =
            unfold create_party_for_owner in rw (mine, create_party_for_owner) refl in
          inr (
            party,
            mine,
            (unfold kick_member in rw (mine, refused, kick_member) refl),
            (unfold promote_member in rw (mine, refused, promote_member) refl),
            (unfold invite in rw (created, refused, invite) refl),
          )
    ]
