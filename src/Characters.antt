-- ===== src/Characters.antt =====
-- backend/app/api/routes/characters.py: the characters of a user, which of them is selected, where they
-- stand, and the points that a new one spends. A row has the columns that these handlers write. The
-- options of a new character's looks are not modelled, nor are the bodies of answers.
use game_gardens_of_karaxas.Base.{
  true, false, ℕ, ◌+◌, ◌-◌, ◌*◌, ◌/◌, ◌%◌, String, Bool, Option, none, some, List, [], ◌∷◌, ◌++◌,
  ltb, leb, not, ◌==◌, ◌&&◌, ◌||◌, nat_equality, string_equality, pair_equality, option_equality,
  if◌then◌else◌, is_none, first_where, select, update_where, any_where,
}
use game_gardens_of_karaxas.Base.Validated.{Validated, accepted, denied_with, if_accepted}
use game_gardens_of_karaxas.Base.Dict.{Dict, put}
use game_gardens_of_karaxas.Base.Int.{ℤ, pos, pos_part, ltb_ℤ}
use game_gardens_of_karaxas.Base.Text.{strip}
use game_gardens_of_karaxas.Models.{UserSession}
use game_gardens_of_karaxas.Levels.{Level}
use game_gardens_of_karaxas.Levels.Payload.{level_by_id}
mod Selected
mod Spawn
pub mod World
mod Arrives
mod Tests

pub record CharacterRow : Type 0 where
  pub id : ℕ
  pub user_id : ℕ
  pub name : String
  pub level_id : Option ℕ
  pub location_x : Option ℕ
  pub location_y : Option ℕ
  pub is_selected : Bool

abbrev pub row_by_id : ℕ → List CharacterRow → Option CharacterRow
row_by_id i = first_where (λ (c : CharacterRow). c.id == i)

abbrev pub save_row : CharacterRow → List CharacterRow → List CharacterRow
save_row c = update_where (λ (d : CharacterRow). d.id == c.id) (λ _. c)

-- the guard at the head of each handler
abbrev pub owned : ℕ → Option CharacterRow → Validated CharacterRow
owned user none = denied_with 404 "character_not_found"
owned user (some c) =
    if c.user_id == user then accepted c else denied_with 404 "character_not_found"

unfoldable pub apply_selected_character : ℕ → ℕ → List CharacterRow → List CharacterRow
apply_selected_character user id =
    update_where (λ (c : CharacterRow). c.user_id == user)
      (λ (c : CharacterRow). record c { is_selected = c.id == id })

unfoldable pub select_character : ℕ → ℕ → List CharacterRow → Validated ℕ × List CharacterRow
select_character user id rows = elim (owned user (row_by_id id rows)) [
  | denied_with status code ↦ (denied_with status code, rows)
  | accepted c ↦ (accepted id, apply_selected_character user id rows)
]

-- the answer tells whether the character was selected
unfoldable pub delete_character : ℕ → ℕ → List CharacterRow → Validated Bool × List CharacterRow
delete_character user id rows = elim (owned user (row_by_id id rows)) [
  | denied_with status code ↦ (denied_with status code, rows)
  | accepted c ↦ (accepted c.is_selected, select (λ (d : CharacterRow). not (d.id == id)) rows)
]

abbrev at_level : CharacterRow → Option ℕ → Option ℕ × Option ℕ → CharacterRow
at_level c level (x, y) = record c { level_id = level; location_x = x; location_y = y }

unfoldable pub tile_to_world : ℕ → ℕ
tile_to_world tile = tile * 32 + 16

-- `round` to the nearest tile, halves to the even one. The float quotient is exact for the numbers that
-- a location can have, and nothing is negative behind `max`.
unfoldable pub world_to_tile : ℕ → ℕ
world_to_tile world =
    let tile = (world - 16) / 32 in
    let rest = (world - 16) % 32 in
    if ltb rest 16 || ((rest == 16) && (tile % 2 == 0)) then tile else tile + 1

pub record WorldSpawn : Type 0 where
  pub tile_x : ℕ
  pub tile_y : ℕ
  pub world_x : ℕ
  pub world_y : ℕ
  pub source : String

module _ {F : Type 0} where
  abbrev spawn_of : Option (Level F) → Validated (Option ℕ × Option ℕ)
  spawn_of none = denied_with 404 "level_not_found"
  spawn_of (some l) = accepted (some l.spawn_x, some l.spawn_y)

  abbrev spawn_for : Option ℕ → List (Level F) → Validated (Option ℕ × Option ℕ)
  spawn_for none levels = accepted (none, none)
  spawn_for (some i) levels = spawn_of (level_by_id i levels)

  unfoldable pub assign_character_level :
      ℕ
      → ℕ
      → Option ℕ
      → List (Level F)
      → List CharacterRow
      → Validated CharacterRow × List CharacterRow
  assign_character_level user id level levels rows =
      elim (if_accepted (owned user (row_by_id id rows))
        (λ c. if_accepted (spawn_for level levels) (λ at. accepted (at_level c level at)))) [
          | denied_with status code ↦ (denied_with status code, rows)
          | accepted c ↦ (accepted c, save_row c rows)
        ]

  abbrev known_level : Option ℕ → List (Level F) → Bool
  known_level none levels = true
  known_level (some i) levels = not (is_none (level_by_id i levels))

  -- `session` is the id of the session of the request
  unfoldable pub update_character_location :
      ℕ
      → ℕ
      → String
      → Option ℕ
      → ℕ
      → ℕ
      → List (Level F)
      → List CharacterRow
      → List UserSession
      → Validated CharacterRow × List CharacterRow × List UserSession
  update_character_location user id session level x y levels rows sessions =
      elim (owned user (row_by_id id rows)) [
        | denied_with status code ↦ (denied_with status code, rows, sessions)
        | accepted c ↦
            let moved = at_level c level (some x, some y) in
            if not (known_level level levels)
            then (denied_with 404 "level_not_found", rows, sessions)
            else (
              accepted moved,
              save_row moved rows,
              update_where (λ (s : UserSession). s.id == session)
                  (λ (s : UserSession). record s {
                    current_level_id = level;
                    current_location_x = some x;
                    current_location_y = some y;
                    current_character_id = some c.id;
                  })
                  sessions,
            )
      ]

  abbrev level_spawn : Level F → WorldSpawn
  level_spawn level = record {
    tile_x = level.spawn_x;
    tile_y = level.spawn_y;
    world_x = tile_to_world level.spawn_x;
    world_y = tile_to_world level.spawn_y;
    source = "level_spawn";
  }

  abbrev stored_spawn : Option ℕ → Option ℕ → Level F → WorldSpawn
  stored_spawn (some x) (some y) level =
      if ltb x level.width && ltb y level.height
      then record {
        tile_x = x;
        tile_y = y;
        world_x = tile_to_world x;
        world_y = tile_to_world y;
        source = "saved_tile_location";
      }
      else record {
        tile_x = world_to_tile x;
        tile_y = world_to_tile y;
        world_x = x;
        world_y = y;
        source = "saved_world_location";
      }
  stored_spawn _ _ level = level_spawn level

  unfoldable pub resolve_world_spawn : CharacterRow → Level F → Bool → WorldSpawn
  resolve_world_spawn c level override =
      if override then level_spawn level else stored_spawn c.location_x c.location_y level

-- `dict.update`
unfoldable pub updated : Dict String ℤ → Dict String ℤ → Dict String ℤ
updated base [] = base
updated base ((key, value) ∷ more) = updated (put key value base) more

-- The loop over the merged stats, and the one over the skills. `allowed` are the keys of the content,
-- and the two texts are the codes of the refusals.
unfoldable pub normalize_points :
    (String → String)
    → List String
    → ℤ
    → String
    → String
    → Dict String ℤ
    → Dict String ℤ
    → Validated (Dict String ℤ)
normalize_points lower allowed most bad_key bad_value done [] = accepted done
normalize_points lower allowed most bad_key bad_value done ((key, value) ∷ more) =
    let name = lower (strip key) in
    let rest = normalize_points lower allowed most bad_key bad_value (put name value done) more in
    if not (any_where (λ k. k == name) allowed)
    then denied_with 422 bad_key
    else if ltb_ℤ value (pos 0) || ltb_ℤ most value
    then denied_with 422 bad_value
    else rest

-- the sum of the positive values
unfoldable pub points_of : Dict String ℤ → ℕ
points_of [] = 0
points_of ((_, value) ∷ more) = pos_part value + points_of more

pub record Allocation : Type 0 where
  pub stats : Dict String ℤ
  pub skills : Dict String ℤ
  pub stat_points_used : ℕ

-- the part of `create_character` that checks stats, skills and the point budget
unfoldable pub allocate_points :
    (String → String)
    → List String
    → List String
    → ℤ
    → ℤ
    → Dict String ℤ
    → Dict String ℤ
    → Validated Allocation
allocate_points lower stat_keys skill_keys max_per_stat budget stats skills =
    if_accepted
      (normalize_points lower stat_keys max_per_stat "invalid_stat_key" "invalid_stat_value" []
        stats)
      (λ kept_stats.
        if_accepted
          (normalize_points lower skill_keys (pos 1) "invalid_skill_key" "invalid_skill_value" []
            skills)
          (λ kept_skills.
            let used = points_of kept_stats + points_of kept_skills in
            if ltb_ℤ budget (pos used)
            then denied_with 400 "invalid_point_budget"
            else accepted
                (record { stats = kept_stats; skills = kept_skills; stat_points_used = used })))
