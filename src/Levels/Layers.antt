-- ===== src/Levels/Layers.antt =====
-- api/routes/levels.py: the cells of the layers, the passages on them and the walls they make.
use game_gardens_of_karaxas.Base.{
  or_default, ℕ, String, Bool, false, not, ◌&&◌, ◌||◌, Option, none, some, List, [], ◌∷◌, ◌++◌, ltb,
  leb, ◌==◌, nat_equality, string_equality, pair_equality, option_equality, if◌then◌else◌, length,
  any_where,
}
use game_gardens_of_karaxas.Base.Dict.{get, put}
use game_gardens_of_karaxas.Base.Text.{strip, is_empty}
use game_gardens_of_karaxas.Base.Validated.{
  Validated, accepted, denied_with, map_checked, if_accepted,
}
use game_gardens_of_karaxas.Levels.{
  GridPoint, LayerCell, Transition, LayerCells, LevelSaveRequest, is_cell, is_point,
}

-- `DEFAULT_LAYER_BY_ASSET`
abbrev pub default_layer_by_asset : List (String × ℕ)
default_layer_by_asset =
    ("grass_tile", 0)
    ∷ ("wall_block", 1)
    ∷ ("tree_oak", 1)
    ∷ ("stairs_passage", 1)
    ∷ ("ladder_passage", 1)
    ∷ ("elevator_platform", 1)
    ∷ ("cloud_soft", 2)
    ∷ []

-- `in COLLISION_LAYER_IDS`
abbrev pub is_collision_layer : ℕ → Bool
is_collision_layer i = i == 1

-- `in COLLISION_ASSET_KEYS`
abbrev pub is_collision_asset : String → Bool
is_collision_asset a = (a == "wall_block") || (a == "tree_oak")

-- `in TRANSITION_ASSET_KEYS`
abbrev pub is_transition_asset : String → Bool
is_transition_asset a =
    (a == "stairs_passage") || (a == "ladder_passage") || (a == "elevator_platform")

-- `in SUPPORTED_TRANSITION_TYPES`
abbrev pub is_supported_transition : String → Bool
is_supported_transition t = (t == "stairs") || (t == "ladder") || (t == "elevator")

-- the asset of a type of transition
abbrev pub transition_asset : String → Option String
transition_asset t =
    if t == "stairs"
    then some "stairs_passage"
    else if t == "ladder"
    then some "ladder_passage"
    else if t == "elevator"
    then some "elevator_platform"
    else none

abbrev pub layer_id_max : ℕ
layer_id_max = 32

abbrev collides : Option ℕ → Bool
collides none = false
collides (some i) = is_collision_layer i

-- the code of the exception that a cell raises, if any
unfoldable pub asset_error : ℕ → String → Option String
asset_error layer_id asset =
    if is_collision_asset asset && not (collides (get asset default_layer_by_asset))
    then some "invalid_collision_asset"
    else if is_collision_asset asset && not (is_collision_layer layer_id)
    then some "invalid_collision_layer"
    else if is_transition_asset asset && not (layer_id == 1)
    then some "invalid_transition_layer"
    else none

unfoldable pub walls_as_cells : List GridPoint → List LayerCell
walls_as_cells [] = []
walls_as_cells (p ∷ ps) = record { x = p.x; y = p.y; asset_key = "wall_block" } ∷ walls_as_cells ps

-- `sorted(layer_cells.keys())`, with the cells
unfoldable pub insert_layer : ℕ × List LayerCell → LayerCells → LayerCells
insert_layer l [] = l ∷ []
insert_layer l (m ∷ layers) =
    let rest = insert_layer l layers in if ltb m.0 l.0 then m ∷ rest else l ∷ m ∷ layers

unfoldable pub sort_layers : LayerCells → LayerCells
sort_layers [] = []
sort_layers (l ∷ layers) = insert_layer l (sort_layers layers)

-- the cells that the outer loop visits, in its order
unfoldable pub collision_cells : LayerCells → List LayerCell
collision_cells [] = []
collision_cells ((layer_id, cells) ∷ layers) =
    let rest = collision_cells layers in if is_collision_layer layer_id then cells ++ rest else rest

module _ (lower : String → String) where
  unfoldable pub asset_of : ℕ → String → String
  asset_of layer_id raw =
      let asset = lower (strip raw) in
      if is_empty asset then (if layer_id == 1 then "wall_block" else "decor") else asset

  -- the inner loop of `_normalize_layers_from_payload`; `seen` are the cells that it has kept
  unfoldable pub normalize_cells :
      ℕ → ℕ → ℕ → List LayerCell → List LayerCell → Validated (List LayerCell)
  normalize_cells width height layer_id seen [] = accepted []
  normalize_cells width height layer_id seen (c ∷ cells) =
      let cell : LayerCell = record c { asset_key = asset_of layer_id c.asset_key } in
      let skip = normalize_cells width height layer_id seen cells in
      let keep =
        map_checked (λ rest. cell ∷ rest)
          (normalize_cells width height layer_id (cell ∷ seen) cells) in
      if leb width c.x || leb height c.y then skip else elim (asset_error layer_id cell.asset_key) [
        | some code ↦ denied_with 422 code
        | none ↦
            if any_where
              (λ (d : LayerCell). is_cell cell.x cell.y d && (d.asset_key == cell.asset_key)) seen
            then skip
            else keep
      ]

  -- the outer loop; the keys of a dict are distinct
  unfoldable pub normalize_layers : ℕ → ℕ → LayerCells → Validated LayerCells
  normalize_layers width height [] = accepted []
  normalize_layers width height ((layer_id, cells) ∷ layers) =
      let rest = normalize_layers width height layers in
      if ltb layer_id_max layer_id
      then denied_with 422 "invalid_layer_id"
      else if_accepted (normalize_cells width height layer_id [] cells)
          (λ kept. map_checked (λ more. (layer_id, kept) ∷ more) rest)

  abbrev pub source_layers : {F : Type 0} → LevelSaveRequest F → LayerCells
  source_layers payload =
      if length payload.layers == 0
      then (1, walls_as_cells payload.wall_cells) ∷ []
      else payload.layers

  unfoldable pub normalize_layers_from_payload :
      {F : Type 0} → LevelSaveRequest F → Validated LayerCells
  normalize_layers_from_payload payload =
      normalize_layers payload.width payload.height (source_layers payload)

  -- the inner loop of `_derive_wall_cells`
  unfoldable pub derive_walls : ℕ → ℕ → ℕ → ℕ → List GridPoint → List LayerCell → List GridPoint
  derive_walls width height spawn_x spawn_y seen [] = []
  derive_walls width height spawn_x spawn_y seen (c ∷ cells) =
      let p : GridPoint = record { x = c.x; y = c.y } in
      let skip = derive_walls width height spawn_x spawn_y seen cells in
      let keep = p ∷ derive_walls width height spawn_x spawn_y (p ∷ seen) cells in
      if not (is_collision_asset (lower (strip c.asset_key)))
      then skip
      else if leb width c.x || leb height c.y
      then skip
      else if (c.x == spawn_x) && (c.y == spawn_y)
      then skip
      else if any_where (is_point c.x c.y) seen
      then skip
      else keep

  unfoldable pub derive_wall_cells : LayerCells → ℕ → ℕ → ℕ → ℕ → List GridPoint
  derive_wall_cells layers width height spawn_x spawn_y =
      derive_walls width height spawn_x spawn_y [] (collision_cells (sort_layers layers))

-- One round of the loop of `_assign_transition_assets`: `by_cell` has the index of the last cell at each
-- point, which gets the asset; where there is none, a cell is appended.
unfoldable pub place_asset : ℕ → ℕ → String → List LayerCell → List LayerCell
place_asset x y asset [] = record { x = x; y = y; asset_key = asset } ∷ []
place_asset x y asset (c ∷ cells) =
    let rest = place_asset x y asset cells in
    if is_cell x y c && not (any_where (is_cell x y) cells)
    then record c { asset_key = asset } ∷ cells
    else c ∷ rest

unfoldable pub place_transitions :
    (String → String) → List Transition → List LayerCell → List LayerCell
place_transitions lower [] layer = layer
place_transitions lower (t ∷ ts) layer = elim (transition_asset (lower t.transition_type)) [
  | none ↦ place_transitions lower ts layer
  | some asset ↦ place_transitions lower ts (place_asset t.x t.y asset layer)
]

unfoldable pub assign_transition_assets :
    (String → String) → LayerCells → List Transition → LayerCells
assign_transition_assets lower layers transitions =
    put 1 (place_transitions lower transitions (or_default (get 1 layers) [])) layers
