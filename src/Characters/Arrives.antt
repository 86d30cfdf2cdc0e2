-- ===== src/Characters/Arrives.antt =====
-- The way of a character into a level that exists.
use game_gardens_of_karaxas.Base.{
  ℕ, ◌≡◌, refl, sym, ap, ◌∙◌, true, false, not, none, some, List, nat_eq_iff, string_eq_iff, ◌==◌,
  nat_equality, string_equality, pair_equality, option_equality, is_none, first_where, count_where,
  first_where_sound, first_where-update_where,
}
use mathlib.Core.Path.{subst}
use game_gardens_of_karaxas.Base.Validated.{accepted}
use game_gardens_of_karaxas.Models.{UserSession}
use game_gardens_of_karaxas.AuthContext.Admission.{replaced_row}
use game_gardens_of_karaxas.Levels.{Level}
use game_gardens_of_karaxas.Levels.Payload.{level_by_id}
use game_gardens_of_karaxas.Instances.{
  InstanceTables, moved_session, assign_session_world_instance, expire_stale_instances,
}
use game_gardens_of_karaxas.Characters.{
  CharacterRow, row_by_id, apply_selected_character, resolve_world_spawn,
}
use game_gardens_of_karaxas.Characters.Selected.{is_chosen, selected_once}
use game_gardens_of_karaxas.Characters.World.{
  Arrival, WorldRequest, arrived_session, entry_of, enter_world, looked_up, named_level,
  bootstrap_character_world,
}

-- the row of the character, behind its selection
selected_row :
    (user id : ℕ) (rows : List CharacterRow) (c : CharacterRow)
    → row_by_id id rows ≡ some c
    → (c.user_id == user) ≡ true
    → row_by_id id (apply_selected_character user id rows) ≡ some (record c { is_selected = true })
unfolding apply_selected_character
selected_row user id rows c found mine =
    let chosen : (c.id == id) ≡ true =
      first_where_sound (λ (d : CharacterRow). d.id == id) rows c found in
    let row =
      first_where-update_where (λ (d : CharacterRow). d.id == id)
        (λ (d : CharacterRow). d.user_id == user)
        (λ (d : CharacterRow). record d { is_selected = d.id == id }) rows c (λ d. refl) found in
    row ∙ rw mine (ap (λ b. some (record c { is_selected = b })) chosen)

-- A user enters the world with a character of his own, if the character's level exists and no other level
-- is asked for: the answer is that level's instance; the character's row is selected, and is the only
-- one of the user's that is. The row of the session names the instance, the level, the character and
-- the party of the request, and stands at the place of the answer; nothing else of it changes. One row
-- has the id of the character, and the session has a row.
pub bootstrap_enters :
    {F : Type 0} (now : ℕ) (request : WorldRequest) (session row : UserSession)
    (levels : List (Level F)) (rows : List CharacterRow) (db : InstanceTables) (c : CharacterRow)
    (i : ℕ) (level : Level F)
    → row_by_id request.character_id rows ≡ some c
    → c.user_id ≡ request.user_id
    → count_where (λ (d : CharacterRow). d.id == request.character_id) rows ≡ 1
    → request.override_level_id ≡ none
    → c.level_id ≡ some i
    → level_by_id i levels ≡ some level
    → first_where (λ (s : UserSession). s.id == session.id) db.sessions ≡ some row
    → (let (answer, rows', after) = bootstrap_character_world now request session levels rows db in
        (arrival : Arrival) × (answer ≡ accepted arrival)
        × (arrival.assignment.level_id ≡ level.id)
        × (row_by_id request.character_id rows' ≡ some (record c { is_selected = true }))
        × (count_where (is_chosen request.user_id) rows' ≡ 1)
        × (first_where (λ (s : UserSession). s.id == session.id) after.sessions
            ≡ some (record session {
              current_party_id = request.party_id;
              current_instance_id = some arrival.assignment.instance_id;
              current_character_id = some request.character_id;
              current_level_id = some level.id;
              current_location_x = some arrival.spawn.world_x;
              current_location_y = some arrival.spawn.world_y;
            })))
bootstrap_enters now request session row levels rows db c i level found own one no_override at_level
      there kept =
    let mine : (c.user_id == request.user_id) ≡ true =
      (nat_eq_iff c.user_id request.user_id).1 own in
    let named : named_level request.override_level_id c levels ≡ some level =
      subst (λ o. named_level o c levels ≡ some level) (sym no_override)
        (subst (λ o. looked_up o levels ≡ some level) (sym at_level) there) in
    let plain : not (is_none request.override_level_id) ≡ false =
      ap (λ o. not (is_none o)) no_override in
    let out : bootstrap_character_world now request session levels rows db
        ≡ enter_world now request false session c level rows db =
      unfold bootstrap_character_world in
      rw (found, bootstrap_character_world)
        (rw (mine, bootstrap_character_world)
          (rw (plain, bootstrap_character_world)
            (rw (named, bootstrap_character_world)
              (ap (λ b. enter_world now request b session c level rows db) plain)))) in
    let entry = entry_of request level in
    let spawn = resolve_world_spawn c level false in
    let assignment = (assign_session_world_instance now session entry db).0 in
    let own_id : (session.id == session.id) ≡ true = (string_eq_iff session.id session.id).1 refl in
    let moved = moved_session assignment.instance_id entry session in
    let assigned : first_where (λ (s : UserSession). s.id == session.id)
          (assign_session_world_instance now session entry db).1.sessions
        ≡ some moved =
      unfold assign_session_world_instance expire_stale_instances in
      replaced_row session.id moved db.sessions row kept own_id in
    rw out (
      record { spawn = spawn; assignment = assignment },
      (unfold enter_world in refl),
      (unfold assign_session_world_instance in refl),
      (unfold enter_world in selected_row request.user_id request.character_id rows c found mine),
      (unfold enter_world in
          selected_once request.user_id request.character_id rows c found own one),
      (unfold enter_world in
          replaced_row session.id (arrived_session assignment.instance_id entry spawn session)
            (assign_session_world_instance now session entry db).1.sessions moved assigned own_id),
    )
