-- ===== src/Levels/Tests.antt =====
-- Levels at given inputs.
use game_gardens_of_karaxas.Base.{
  ℕ, ◌+◌, ◌≤◌, String, ◌≡◌, inl, inr, refl, sym, Bool, true, false, ◌&&◌, none, some, List, [], ◌∷◌,
  ◌++◌, map, arith, leb, string_eq_iff, ◌==◌, nat_equality, string_equality, pair_equality,
  option_equality, Bool-cases, length, count_where, any_where,
}
use game_gardens_of_karaxas.Levels.Requested.{firsts, InOrder, HasOthers}
use mathlib.Core.Path.{subst}
use game_gardens_of_karaxas.Base.Dict.{get, put}
use game_gardens_of_karaxas.Base.Text.{strip}
use game_gardens_of_karaxas.Base.Validated.{accepted}
use game_gardens_of_karaxas.Levels.{Transition, LayerCells, LevelSaveRequest, Level, is_point}
use game_gardens_of_karaxas.Levels.Layers.{
  is_transition_asset, assign_transition_assets, place_transitions, place_asset, derive_wall_cells,
  derive_walls, collision_cells, sort_layers, insert_layer,
}
use game_gardens_of_karaxas.Levels.Payload.{level_by_id}
use game_gardens_of_karaxas.Levels.Save.{LevelTable, save_level, save_level_order}
use game_gardens_of_karaxas.Levels.Walls.{is_free, layer_blocks, derive_wall_cells_lem}
use game_gardens_of_karaxas.Levels.Passages.{passage_is_no_wall}
use game_gardens_of_karaxas.Levels.Order.{place_in, times, save_level_order_lem}
use game_gardens_of_karaxas.Levels.Saved.{save_level-IsValid}
use game_gardens_of_karaxas.Levels.Valid.{AllValid, IsValid}

abbrev same : String → String
same s = s

abbrev layers : LayerCells
layers =
    (0, record { x = 1; y = 1; asset_key = "grass_tile" } ∷ [])
    ∷ (
      1,
      record { x = 2; y = 3; asset_key = "wall_block" }
          ∷ record { x = 4; y = 3; asset_key = "tree_oak" }
          ∷ [],
    )
    ∷ []

abbrev stairs : List Transition
stairs = record { x = 2; y = 3; transition_type = "stairs"; destination_level_id = 7 } ∷ []

derive_wall_cells_lem_example :
    (any_where (is_point 4 3) (derive_wall_cells same layers 10 10 1 1)
      ≡ (is_free 10 10 1 1 4 3 && any_where (layer_blocks same 4 3) layers))
    × (count_where (is_point 4 3) (derive_wall_cells same layers 10 10 1 1) ≤ 1)
derive_wall_cells_lem_example = derive_wall_cells_lem same layers 10 10 1 1 4 3

derive_wall_cells_runs :
    derive_wall_cells same layers 10 10 1 1 ≡ record { x = 2; y = 3 } ∷ record { x = 4; y = 3 } ∷ []
unfolding derive_wall_cells derive_walls collision_cells sort_layers insert_layer strip
derive_wall_cells_runs = refl

lower_case_passages : (a : String) → is_transition_asset a ≡ true → same (strip a) ≡ a
lower_case_passages a h = elim (Bool-cases (a == "stairs_passage")) [
  | inl first ↦
      literal "stairs_passage" (unfold strip in refl) ((string_eq_iff a "stairs_passage").0 first)
  | inr no_first ↦ elim (Bool-cases (a == "ladder_passage")) [
    | inl second ↦
        literal "ladder_passage" (unfold strip in refl)
          ((string_eq_iff a "ladder_passage").0 second)
    | inr no_second ↦
        literal "elevator_platform" (unfold strip in refl)
          ((string_eq_iff a "elevator_platform").0 (ground (arith, h, no_first, no_second)))
  ]
]
  where
    literal : (b : String) → strip b ≡ b → a ≡ b → strip a ≡ a
    literal b plain named = subst (λ c. strip c ≡ c) (sym named) plain

passage_is_no_wall_example :
    any_where
      (is_point 2 3)
      (derive_wall_cells same (assign_transition_assets same layers stairs) 10 10 1 1)
    ≡ false
unfolding get
passage_is_no_wall_example =
    passage_is_no_wall same layers stairs 10 10 1 1 2 3 lower_case_passages (omega arith)
      (omega arith) refl

-- Two assets at the point of the stairs: the wall stays.
abbrev stacked : LayerCells
stacked =
    (
      1,
      record { x = 2; y = 3; asset_key = "wall_block" }
          ∷ record { x = 2; y = 3; asset_key = "tree_oak" }
          ∷ [],
    )
    ∷ []

stairs_in_the_wall :
    derive_wall_cells same (assign_transition_assets same stacked stairs) 10 10 1 1
    ≡ record { x = 2; y = 3 } ∷ []
unfolding derive_wall_cells derive_walls collision_cells sort_layers insert_layer strip
    assign_transition_assets place_transitions place_asset get put
stairs_in_the_wall = refl

abbrev level : ℕ → ℕ → Level ℕ
level i order = record {
  id = i;
  name = "l";
  descriptive_name = "";
  order_index = order;
  schema_version = 2;
  width = 10;
  height = 10;
  spawn_x = 1;
  spawn_y = 1;
  is_town_hub = false;
  wall_cells = [];
  layer_cells = [];
  object_placements = [];
  transitions = [];
  created_by_user_id = none;
}

abbrev table : LevelTable ℕ
table = record { levels = level 7 1 ∷ level 8 1 ∷ level 9 2 ∷ []; next_id = 10 }

save_level_order_lem_example :
    (let (answer, after) = save_level_order (9 ∷ 9 ∷ []) table in
      (rest : List (Level ℕ)) × InOrder rest
      × HasOthers rest (9 ∷ 9 ∷ []) table.levels
      × (let ids = firsts (9 ∷ 9 ∷ []) ++ map (λ (m : Level ℕ). m.id) rest in
          (answer ≡ accepted (length ids))
          × (level_by_id 8 after.levels
              ≡ some (record (level 8 1) { order_index = 1 + place_in 8 ids }))
          × (times 8 ids ≡ 1)))
save_level_order_lem_example =
    save_level_order_lem (9 ∷ 9 ∷ []) table 8 (level 8 1) (refl, (refl, tt)) refl refl

abbrev payload : LevelSaveRequest ℕ
payload = record {
  name = "cave";
  descriptive_name = "";
  order_index = none;
  schema_version = 2;
  width = 10;
  height = 10;
  spawn_x = 1;
  spawn_y = 1;
  is_town_hub = false;
  layers = layers;
  objects = [];
  transitions = stairs;
  wall_cells = [];
}

abbrev at_least : ℕ → ℕ → Bool
at_least a b = leb b a

level-IsValid : (i order : ℕ) → IsValid table.levels (level i order)
level-IsValid i order = record {
  spawn_inside = refl;
  walls_inside = λ x y h. absurd (ground (arith, h));
  transitions_lead_on = tt;
}

save_level-IsValid_example : AllValid (save_level same at_least 1 payload table).1.levels
save_level-IsValid_example =
    save_level-IsValid same 1 payload at_least table
      (level-IsValid 7 1, (level-IsValid 8 1, (level-IsValid 9 2, tt)))
