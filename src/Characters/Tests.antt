-- ===== src/Characters/Tests.antt =====
-- Two characters and a level at given inputs.
use game_gardens_of_karaxas.Base.{
  ℕ, ◌≡◌, refl, Bool, true, false, none, some, List, [], ◌∷◌, ◌==◌, nat_equality, string_equality,
  pair_equality, option_equality, first_where, select, count_where, micros,
}
use game_gardens_of_karaxas.Models.{UserSession, new_session}
use game_gardens_of_karaxas.Instances.{InstanceTables}
use game_gardens_of_karaxas.Characters.World.{Arrival, WorldRequest, bootstrap_character_world}
use game_gardens_of_karaxas.Characters.Arrives.{bootstrap_enters}
use game_gardens_of_karaxas.Base.Validated.{accepted, denied_with}
use game_gardens_of_karaxas.Base.Int.{pos}
use game_gardens_of_karaxas.Base.Text.{strip}
use game_gardens_of_karaxas.Base.Dict.{put}
use game_gardens_of_karaxas.Levels.{Level}
use game_gardens_of_karaxas.Characters.{
  CharacterRow, row_by_id, select_character, tile_to_world, resolve_world_spawn, allocate_points,
  normalize_points, points_of,
}
use game_gardens_of_karaxas.Characters.Selected.{is_chosen, is_of, select_character_lem}
use game_gardens_of_karaxas.Characters.Spawn.{saved_location_returns}

abbrev row : ℕ → ℕ → Bool → CharacterRow
row i user chosen = record {
  id = i;
  user_id = user;
  name = "c";
  level_id = some 1;
  location_x = some 3216;
  location_y = some 48;
  is_selected = chosen;
}

abbrev rows : List CharacterRow
rows = row 1 7 true ∷ row 2 7 false ∷ row 3 8 true ∷ []

select_character_lem_example :
    (let (answer, after) = select_character 7 2 rows in
      (answer ≡ accepted 2)
      × (count_where (is_chosen 7) after ≡ 1)
      × (select (is_of 8) after ≡ select (is_of 8) rows))
select_character_lem_example = select_character_lem 7 2 8 rows (row 2 7 false) refl refl refl refl

abbrev level : Level ℕ
level = record {
  id = 1;
  name = "l";
  descriptive_name = "";
  order_index = 1;
  schema_version = 2;
  width = 60;
  height = 60;
  spawn_x = 1;
  spawn_y = 1;
  is_town_hub = false;
  wall_cells = [];
  layer_cells = [];
  object_placements = [];
  transitions = [];
  created_by_user_id = none;
}

saved_location_returns_example : resolve_world_spawn (row 1 7 true) level false ≡ record {
  tile_x = 100;
  tile_y = 1;
  world_x = tile_to_world 100;
  world_y = tile_to_world 1;
  source = "saved_world_location";
}
unfolding tile_to_world
saved_location_returns_example = saved_location_returns (row 1 7 true) level 100 1 refl refl refl

-- World coordinates in the middle of tile (1, 1) are taken for tile (48, 48).
near_location_moves :
    resolve_world_spawn
      (record (row 1 7 true) { location_x = some 48; location_y = some 48 })
      level
      false
    ≡ record {
      tile_x = 48;
      tile_y = 48;
      world_x = 1552;
      world_y = 1552;
      source = "saved_tile_location";
    }
unfolding resolve_world_spawn tile_to_world
near_location_moves = refl

points_are_checked :
    allocate_points
      (λ s. s)
      ("str" ∷ "dex" ∷ [])
      ("bow" ∷ [])
      (pos 10)
      (pos 9)
      (("str", pos 6) ∷ ("dex", pos 3) ∷ [])
      (("bow", pos 1) ∷ [])
    ≡ denied_with 400 "invalid_point_budget"
unfolding allocate_points normalize_points points_of strip put
points_are_checked = refl

abbrev player : UserSession
player = new_session "a" 7 (micros 100000)

abbrev tables : InstanceTables
tables = record { instances = []; members = []; sessions = player ∷ []; assignments = [] }

abbrev request : WorldRequest
request = record {
  user_id = 7;
  is_admin = false;
  character_id = 2;
  override_level_id = none;
  party_id = none;
}

bootstrap_enters_example :
    (let (answer, rows', after) =
        bootstrap_character_world (micros 10) request player (level ∷ []) rows tables in
      (arrival : Arrival) × (answer ≡ accepted arrival)
      × (arrival.assignment.level_id ≡ level.id)
      × (row_by_id 2 rows' ≡ some (row 2 7 true))
      × (count_where (is_chosen 7) rows' ≡ 1)
      × (first_where (λ (s : UserSession). s.id == "a") after.sessions
          ≡ some (record player {
            current_party_id = request.party_id;
            current_instance_id = some arrival.assignment.instance_id;
            current_character_id = some 2;
            current_level_id = some level.id;
            current_location_x = some arrival.spawn.world_x;
            current_location_y = some arrival.spawn.world_y;
          })))
bootstrap_enters_example =
    bootstrap_enters (micros 10) request player player (level ∷ []) rows tables (row 2 7 false) 1
      level refl refl refl refl refl refl refl
