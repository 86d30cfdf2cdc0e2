-- ===== src/Characters/World.antt =====
-- api/routes/characters.py: `bootstrap_character_world`, up to its answer: the level that a character
-- enters, the selection, the place, the instance and the session. `party` is the id of the party that
-- get_active_party_for_user finds; the world service is told behind all of this.
use game_gardens_of_karaxas.Base.{
  ℕ, String, Bool, true, not, ◌&&◌, Option, none, some, List, nat_equality, string_equality,
  pair_equality, option_equality, if◌then◌else◌, is_none, first_where,
}
use game_gardens_of_karaxas.Base.Validated.{Validated, accepted, denied_with}
use game_gardens_of_karaxas.Models.{UserSession}
use game_gardens_of_karaxas.SessionDrain.Enforce.{replace_session}
use game_gardens_of_karaxas.Levels.{Level}
use game_gardens_of_karaxas.Levels.Payload.{level_by_id}
use game_gardens_of_karaxas.Levels.Save.{by_order}
use game_gardens_of_karaxas.Instances.{
  InstanceTables, InstanceAssignment, Entry, moved_session, assign_session_world_instance,
}
use game_gardens_of_karaxas.Characters.{
  CharacterRow, row_by_id, owned, save_row, at_level, apply_selected_character, WorldSpawn,
  resolve_world_spawn,
}

pub record Arrival : Type 0 where
  pub spawn : WorldSpawn
  pub assignment : InstanceAssignment

-- who asks, and for what
pub record WorldRequest : Type 0 where
  pub user_id : ℕ
  pub is_admin : Bool
  pub character_id : ℕ
  pub override_level_id : Option ℕ
  pub party_id : Option String

-- the row of the session behind the handler
abbrev pub arrived_session : String → Entry → WorldSpawn → UserSession → UserSession
arrived_session id entry spawn s = record (moved_session id entry s) {
  current_location_x = some spawn.world_x;
  current_location_y = some spawn.world_y;
}

module _ {F : Type 0} where
  abbrev pub entry_of : WorldRequest → Level F → Entry
  entry_of request level = record {
    user_id = request.user_id;
    character_id = request.character_id;
    level_id = level.id;
    party_id = request.party_id;
    is_hub_level = level.is_town_hub;
  }

  -- the part behind the level
  unfoldable pub enter_world :
      ℕ
      → WorldRequest
      → Bool
      → UserSession
      → CharacterRow
      → Level F
      → List CharacterRow
      → InstanceTables
      → Validated Arrival × List CharacterRow × InstanceTables
  enter_world now request override session c level rows db =
      let spawn = resolve_world_spawn c level override in
      let entry = entry_of request level in
      let (assignment, after) = assign_session_world_instance now session entry db in
      (
        accepted (record { spawn = spawn; assignment = assignment }),
        apply_selected_character request.user_id request.character_id rows,
        record after {
          sessions =
              replace_session (arrived_session assignment.instance_id entry spawn session)
                after.sessions;
        },
      )

  abbrev pub looked_up : Option ℕ → List (Level F) → Option (Level F)
  looked_up none levels = none
  looked_up (some i) levels = level_by_id i levels

  -- the level that the request or the character names
  abbrev pub named_level : Option ℕ → CharacterRow → List (Level F) → Option (Level F)
  named_level none c levels = looked_up c.level_id levels
  named_level (some i) c levels = level_by_id i levels

  -- where no level is named, or it is gone: the first level, to which the character is moved
  unfoldable pub enter_first :
      ℕ
      → WorldRequest
      → Bool
      → UserSession
      → CharacterRow
      → List (Level F)
      → List CharacterRow
      → InstanceTables
      → Validated Arrival × List CharacterRow × InstanceTables
  enter_first now request override session c levels rows db =
      elim (first_where (λ _. true) (by_order levels)) [
        | none ↦ (denied_with 409 "no_playable_level", rows, db)
        | some level ↦
            let moved =
              (if override
                then c
                else at_level c (some level.id) (some level.spawn_x, some level.spawn_y)) in
            enter_world now request override session moved level (save_row moved rows) db
      ]

  unfoldable pub bootstrap_character_world :
      ℕ
      → WorldRequest
      → UserSession
      → List (Level F)
      → List CharacterRow
      → InstanceTables
      → Validated Arrival × List CharacterRow × InstanceTables
  bootstrap_character_world now request session levels rows db =
      let override = not (is_none request.override_level_id) in
      elim (owned request.user_id (row_by_id request.character_id rows)) [
        | denied_with status code ↦ (denied_with status code, rows, db)
        | accepted c ↦
            if override && not request.is_admin
            then (denied_with 403 "admin_required", rows, db)
            else elim (named_level request.override_level_id c levels) [
              | some level ↦ enter_world now request override session c level rows db
              | none ↦ enter_first now request override session c levels rows db
            ]
      ]
