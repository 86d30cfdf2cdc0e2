-- ===== src/Levels.antt =====
-- backend/app/api/routes/levels.py: the levels of the world as an editor saves them and players load
-- them. The rows are here; Layers has the cells, Payload the objects and transitions of a request, and
-- Save the handlers. `F` is the type of floating point numbers, and `lower` is `str.lower`.
-- The JSON columns of a level are read as lists of their entries. They are written by `save_level` only,
-- so the tests of the types of their fields are left out.
use game_gardens_of_karaxas.Base.{
  true, false, ℕ, String, Bool, Option, List, ◌==◌, ◌&&◌, nat_equality, string_equality,
  pair_equality, option_equality,
}
use game_gardens_of_karaxas.Base.Dict.{Dict}
pub mod Layers
pub mod Payload
pub mod Save
pub mod Walls
mod Passages
mod Requested
mod Order
mod Valid
mod Saved
mod Tests

pub record GridPoint : Type 0 where
  pub x : ℕ
  pub y : ℕ

pub record LayerCell : Type 0 where
  pub x : ℕ
  pub y : ℕ
  pub asset_key : String

pub record Transition : Type 0 where
  pub x : ℕ
  pub y : ℕ
  pub transition_type : String
  pub destination_level_id : ℕ

pub record Transform (F : Type 0) : Type 0 where
  pub x : F
  pub y : F
  pub z : F
  pub rotation_deg : F
  pub scale_x : F
  pub scale_y : F
  pub pivot_x : F
  pub pivot_y : F

pub record ObjectPlacement (F : Type 0) : Type 0 where
  pub object_id : String
  pub asset_key : String
  pub layer_id : ℕ
  pub transform : Transform F

abbrev pub LayerCells : Type 0
LayerCells = Dict ℕ (List LayerCell)

-- models/level.py
pub record Level (F : Type 0) : Type 0 where
  pub id : ℕ
  pub name : String
  pub descriptive_name : String
  pub order_index : ℕ
  pub schema_version : ℕ
  pub width : ℕ
  pub height : ℕ
  pub spawn_x : ℕ
  pub spawn_y : ℕ
  pub is_town_hub : Bool
  pub wall_cells : List GridPoint
  pub layer_cells : LayerCells
  pub object_placements : List (ObjectPlacement F)
  pub transitions : List Transition
  pub created_by_user_id : Option ℕ

-- the numbers of a request are at least 0, those of its transitions' destinations at least 1
pub record LevelSaveRequest (F : Type 0) : Type 0 where
  pub name : String
  pub descriptive_name : String
  pub order_index : Option ℕ
  pub schema_version : ℕ
  pub width : ℕ
  pub height : ℕ
  pub spawn_x : ℕ
  pub spawn_y : ℕ
  pub is_town_hub : Bool
  pub layers : LayerCells
  pub objects : List (ObjectPlacement F)
  pub transitions : List Transition
  pub wall_cells : List GridPoint

abbrev pub is_cell : ℕ → ℕ → LayerCell → Bool
is_cell x y c = (c.x == x) && (c.y == y)

abbrev pub is_point : ℕ → ℕ → GridPoint → Bool
is_point x y p = (p.x == x) && (p.y == y)

abbrev pub same_transition : Transition → Transition → Bool
same_transition t u =
    (t.x == u.x)
    && (t.y == u.y)
    && (t.transition_type == u.transition_type)
    && (t.destination_level_id == u.destination_level_id)
