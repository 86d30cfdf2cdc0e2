-- ===== src/Party/Tests.antt =====
-- Runs of Party at concrete inputs.
use game_gardens_of_karaxas.Base.{
  ◌≡◌, ◌⊎◌, inr, refl, none, some, [], ◌∷◌, nat_equality, string_equality, pair_equality,
  option_equality,
}
use game_gardens_of_karaxas.Party.Rows.{
  owner, member, active, pending, Party, PartyMember, PartyInvite, PartyTables,
  get_active_party_for_user,
}
use game_gardens_of_karaxas.Party.Manager.{first_by_rank, ranks_before, party_owner_required}
use game_gardens_of_karaxas.Party.Routes.{
  http_error, unhandled, invite, kick_member, promote_member,
}
use game_gardens_of_karaxas.Party.Owner.{only_owner_changes}

abbrev guild : Party
guild = record { id = "guild"; owner_user_id = 1; status = active }

abbrev founder : PartyMember
founder = record { party_id = "guild"; user_id = 1; role = owner; joined_at = 10 }

abbrev late : PartyMember
late = record { party_id = "guild"; user_id = 2; role = member; joined_at = 30 }

abbrev early : PartyMember
early = record { party_id = "guild"; user_id = 3; role = member; joined_at = 20 }

abbrev letter : PartyInvite
letter = record {
  id = 1;
  party_id = "guild";
  inviter_user_id = 1;
  target_user_id = 4;
  status = pending;
  responded_at = none;
}

abbrev three : PartyTables
three = record {
  users = [];
  parties = guild ∷ [];
  members = founder ∷ late ∷ early ∷ [];
  invites = letter ∷ [];
  next_invite_id = 2;
}

abbrev alone : PartyTables
alone = record three { members = founder ∷ [] }

early_first : (first_by_rank late (early ∷ [])).user_id ≡ 3
unfolding first_by_rank ranks_before
early_first = refl

only_owner_changes_example :
    let kick = kick_member 2 3 three in
    let promote = promote_member 2 3 three in
    ((get_active_party_for_user three 2 ≡ none)
      × (kick ≡ (http_error 404 "party_not_found", three))
      × (promote ≡ (http_error 404 "party_not_found", three)))
    ⊎ ((party : Party) × (get_active_party_for_user three 2 ≡ some party)
        × (kick ≡ (http_error 403 "party_owner_required", three))
        × (promote ≡ (http_error 403 "party_owner_required", three))
        × (invite (λ s. s) "fresh" 40 2 none (some "late@karaxas") three
            ≡ (unhandled party_owner_required, three)))
only_owner_changes_example =
    only_owner_changes (λ s. s) "fresh" 40 2 3 none (some "late@karaxas") three (inr refl, tt)
