-- ===== src/Levels/Save.antt =====
-- api/routes/levels.py: `save_level`, `save_level_order` and the handlers that read levels. The guards
-- for an admin and for a logged-in user stand before them.
use game_gardens_of_karaxas.Base.{
  ℕ, ◌+◌, max, String, Bool, true, ◌&&◌, ◌||◌, Option, none, some, List, [], ◌∷◌, ◌++◌, map, ltb,
  leb, ◌==◌, nat_equality, string_equality, pair_equality, option_equality, if◌then◌else◌, is_none,
  length, first_where, select, update_where, any_where,
}
use game_gardens_of_karaxas.Base.Text.{strip, is_empty}
use game_gardens_of_karaxas.Base.Validated.{
  Validated, accepted, denied_with, map_checked, if_accepted,
}
use game_gardens_of_karaxas.Levels.{
  GridPoint, Transition, LayerCells, LevelSaveRequest, Level, ObjectPlacement,
}
use game_gardens_of_karaxas.Levels.Layers.{
  normalize_layers_from_payload, assign_transition_assets, derive_wall_cells, sort_layers,
}
use game_gardens_of_karaxas.Levels.Payload.{
  schema_version_layered, schema_version_hybrid, normalize_objects_from_payload,
  normalize_transitions_from_payload, level_by_id, parse_stored_transitions, parse_stored_objects,
  parse_stored_layers,
}

pub record LevelTable (F : Type 0) : Type 0 where
  pub levels : List (Level F)
  pub next_id : ℕ

pub record LevelSummary : Type 0 where
  pub id : ℕ
  pub name : String
  pub descriptive_name : String
  pub order_index : ℕ
  pub schema_version : ℕ
  pub width : ℕ
  pub height : ℕ
  pub is_town_hub : Bool

-- LevelResponse, behind the summary
pub record LevelResponse (F : Type 0) : Type 0 where
  pub summary : LevelSummary
  pub spawn_x : ℕ
  pub spawn_y : ℕ
  pub layers : LayerCells
  pub objects : List (ObjectPlacement F)
  pub transitions : List Transition
  pub wall_cells : List GridPoint
  pub created_by_user_id : Option ℕ

-- one row, or none; several raise MultipleResultsFound, which no handler catches
pub data OneRow (A : Type 0) : Type 0 where
  no_row : OneRow A
  one_row : A → OneRow A
  several_rows : OneRow A

abbrev pub one_of : {A : Type 0} → List A → OneRow A
one_of [] = no_row
one_of (a ∷ []) = one_row a
one_of (a ∷ b ∷ rows) = several_rows

abbrev text_or_else : String → String → String
text_or_else s other = if is_empty s then other else s

abbrev pub number_or : Option ℕ → ℕ → ℕ
number_or none n = n
number_or (some m) n = m

module _ {F : Type 0} where
  unfoldable pub to_summary : Level F → LevelSummary
  to_summary level = record {
    id = level.id;
    name = level.name;
    descriptive_name = text_or_else level.descriptive_name level.name;
    order_index = level.order_index;
    schema_version = max level.schema_version schema_version_layered;
    width = level.width;
    height = level.height;
    is_town_hub = level.is_town_hub;
  }

  -- `order_by(Level.order_index.asc(), Level.id.asc())`
  abbrev pub precedes : Level F → Level F → Bool
  precedes l m =
      ltb l.order_index m.order_index || ((l.order_index == m.order_index) && ltb l.id m.id)

  unfoldable pub insert_level : Level F → List (Level F) → List (Level F)
  insert_level l [] = l ∷ []
  insert_level l (m ∷ levels) =
      let rest = insert_level l levels in if precedes m l then m ∷ rest else l ∷ m ∷ levels

  unfoldable pub by_order : List (Level F) → List (Level F)
  by_order [] = []
  by_order (l ∷ levels) = insert_level l (by_order levels)

  unfoldable pub list_levels : LevelTable F → List LevelSummary
  list_levels table = map to_summary (by_order table.levels)

  -- the first loop of `save_level_order`: the ids of the request, each once
  unfoldable pub requested_ids : List (Level F) → List ℕ → List ℕ → Validated (List ℕ)
  requested_ids levels seen [] = accepted []
  requested_ids levels seen (i ∷ ids) =
      let skip = requested_ids levels seen ids in
      let keep = map_checked (λ more. i ∷ more) (requested_ids levels (i ∷ seen) ids) in
      if any_where (λ (j : ℕ). j == i) seen
      then skip
      else if is_none (first_where (λ (l : Level F). l.id == i) levels)
      then denied_with 404 "level_not_found"
      else keep

  -- the second loop: the ids of the other levels
  unfoldable pub other_ids : List ℕ → List (Level F) → List ℕ
  other_ids requested [] = []
  other_ids requested (l ∷ levels) =
      let rest = other_ids requested levels in
      if any_where (λ (j : ℕ). j == l.id) requested then rest else l.id ∷ rest

  -- the third loop: `enumerate(ordered_ids, start=index)`
  unfoldable pub write_order : ℕ → List ℕ → List (Level F) → List (Level F)
  write_order index [] levels = levels
  write_order index (i ∷ ids) levels = write_order (index + 1) ids (
      update_where (λ (l : Level F). l.id == i) (λ (l : Level F). record l { order_index = index })
        levels)

  unfoldable pub ordered_ids : List ℕ → LevelTable F → Validated (List ℕ)
  ordered_ids request table =
      let levels = by_order table.levels in
      map_checked (λ ids. ids ++ other_ids ids levels) (requested_ids levels [] request)

  -- `save_level_order` of the ids of the entries, whose `order_index` it does not read; the answer is
  -- the number of levels written
  unfoldable pub save_level_order : List ℕ → LevelTable F → Validated ℕ × LevelTable F
  save_level_order request table = elim (ordered_ids request table) [
    | denied_with status code ↦ (denied_with status code, table)
    | accepted ids ↦
        (accepted (length ids), record table { levels = write_order 1 ids table.levels })
  ]

  -- `select(func.max(Level.order_index))`, or 0
  unfoldable pub max_order : List (Level F) → ℕ
  max_order [] = 0
  max_order (l ∷ levels) = max l.order_index (max_order levels)

  module _ (lower : String → String) where
    unfoldable pub to_response : Level F → LevelResponse F
    to_response level =
        let transitions = parse_stored_transitions lower level in
        let layers = assign_transition_assets lower (parse_stored_layers lower level) transitions in
        record {
          summary = to_summary level;
          spawn_x = level.spawn_x;
          spawn_y = level.spawn_y;
          layers = sort_layers layers;
          objects = parse_stored_objects lower level;
          transitions = transitions;
          wall_cells =
              derive_wall_cells lower layers level.width level.height level.spawn_x level.spawn_y;
          created_by_user_id = level.created_by_user_id;
        }

    abbrev found_response : Option (Level F) → String → Validated (LevelResponse F)
    found_response none code = denied_with 404 code
    found_response (some level) code = accepted (to_response level)

    unfoldable pub get_level : ℕ → LevelTable F → Validated (LevelResponse F)
    get_level i table = found_response (level_by_id i table.levels) "level_not_found"

    unfoldable pub get_first_level : LevelTable F → Validated (LevelResponse F)
    get_first_level table =
        found_response (first_where (λ _. true) (by_order table.levels)) "level_not_found"

    -- the row that `save_level` writes, with the id and the order given
    unfoldable pub level_row :
        ℕ
        → ℕ
        → ℕ
        → LevelSaveRequest F
        → LayerCells
        → List (ObjectPlacement F)
        → List Transition
        → Level F
    level_row id order user payload layers objects transitions =
        let name = strip payload.name in
        let cells = assign_transition_assets lower layers transitions in
        record {
          id = id;
          name = name;
          descriptive_name = text_or_else (strip payload.descriptive_name) name;
          order_index = order;
          schema_version =
              max payload.schema_version
                (if length objects == 0 then schema_version_layered else schema_version_hybrid);
          width = payload.width;
          height = payload.height;
          spawn_x = payload.spawn_x;
          spawn_y = payload.spawn_y;
          is_town_hub = payload.is_town_hub;
          wall_cells =
              derive_wall_cells lower cells payload.width payload.height payload.spawn_x
                payload.spawn_y;
          layer_cells = cells;
          object_placements = objects;
          transitions = transitions;
          created_by_user_id = some user;
        }

    -- `select(Level).where(func.lower(Level.name) == normalized_name.lower())`
    abbrev pub with_name : String → List (Level F) → List (Level F)
    with_name name = select (λ (l : Level F). lower l.name == lower name)

    -- the part of `save_level` that writes; the id of the level saved
    unfoldable pub write_level :
        ℕ
        → LevelSaveRequest F
        → LayerCells
        → List (ObjectPlacement F)
        → List Transition
        → LevelTable F
        → Validated ℕ × LevelTable F
    write_level user payload layers objects transitions table =
        elim (one_of (with_name (strip payload.name) table.levels)) [
          | no_row ↦
              let order = number_or payload.order_index (max_order table.levels + 1) in
              (
                accepted table.next_id,
                record {
                  levels =
                      table.levels
                      ++ level_row table.next_id order user payload layers objects transitions ∷ [];
                  next_id = table.next_id + 1;
                },
              )
          | one_row old ↦
              let row =
                level_row old.id (number_or payload.order_index old.order_index) user payload layers
                  objects transitions in
              (
                accepted old.id,
                record table {
                  levels = update_where (λ (l : Level F). l.id == old.id) (λ _. row) table.levels;
                },
              )
          | several_rows ↦ (denied_with 500 "MultipleResultsFound", table)
        ]

    -- what `save_level` checks, in its order
    unfoldable pub checked_payload :
        (F → ℕ → Bool)
        → LevelSaveRequest F
        → List (Level F)
        → Validated (LayerCells × List (ObjectPlacement F) × List Transition)
    checked_payload at_least payload levels =
        if is_empty (strip payload.name)
        then denied_with 422 "invalid_level_name"
        else if leb payload.width payload.spawn_x || leb payload.height payload.spawn_y
        then denied_with 422 "invalid_spawn"
        else if_accepted (normalize_layers_from_payload lower payload) (λ layers.
          if_accepted (normalize_objects_from_payload lower at_least payload) (λ objects.
            map_checked (λ transitions. (layers, objects, transitions))
              (normalize_transitions_from_payload lower payload levels)))

    unfoldable pub save_level :
        (F → ℕ → Bool) → ℕ → LevelSaveRequest F → LevelTable F → Validated ℕ × LevelTable F
    save_level at_least user payload table = elim (checked_payload at_least payload table.levels) [
      | denied_with status code ↦ (denied_with status code, table)
      | accepted (layers, objects, transitions) ↦
          write_level user payload layers objects transitions table
    ]
