-- ===== src/Levels/Walls.antt =====
-- Where the walls of a level are.
use game_gardens_of_karaxas.Base.{
  ℕ, ◌≤◌, String, ◌≡◌, inl, inr, refl, ap, ◌∙◌, Bool, not, ◌&&◌, ◌||◌, List, [], ◌∷◌, arith, ltb,
  ◌==◌, nat_equality, string_equality, pair_equality, option_equality, if◌then◌else◌, Bool-cases,
  count_where, any_where, any_where-append,
}
use game_gardens_of_karaxas.Base.Text.{strip}
use game_gardens_of_karaxas.Levels.{GridPoint, LayerCell, LayerCells, is_cell, is_point}
use game_gardens_of_karaxas.Levels.Layers.{
  is_collision_asset, derive_walls, derive_wall_cells, collision_cells, sort_layers, insert_layer,
}

abbrev pub is_free : ℕ → ℕ → ℕ → ℕ → ℕ → ℕ → Bool
is_free width height spawn_x spawn_y x y =
    ltb x width && ltb y height && not ((x == spawn_x) && (y == spawn_y))

module _ (lower : String → String) where
  abbrev pub blocks : ℕ → ℕ → LayerCell → Bool
  blocks x y c = is_cell x y c && is_collision_asset (lower (strip c.asset_key))

  -- whether a layer of the level blocks a point
  abbrev pub layer_blocks : ℕ → ℕ → ℕ × List LayerCell → Bool
  layer_blocks x y (layer_id, cells) = (layer_id == 1) && any_where (blocks x y) cells

  module _ (width height spawn_x spawn_y x y : ℕ) where
    derive_walls_at :
        (seen : List GridPoint) (cells : List LayerCell)
        → any_where (is_point x y) (derive_walls lower width height spawn_x spawn_y seen cells) ≡ (
            not (any_where (is_point x y) seen)
            && (is_free width height spawn_x spawn_y x y && any_where (blocks x y) cells))
    unfolding derive_walls
    derive_walls_at seen [] = ground arith
    derive_walls_at seen (c ∷ cells) =
        let p : GridPoint = record { x = c.x; y = c.y } in
        elim (Bool-cases (is_cell x y c)) [
          | inl here ↦
              let same_x : c.x ≡ x = ground (arith, here) in
              let same_y : c.y ≡ y = ground (arith, here) in
              ground (arith, derive_walls_at seen cells, derive_walls_at (p ∷ seen) cells)
          | inr elsewhere ↦
              ground (arith, derive_walls_at seen cells, derive_walls_at (p ∷ seen) cells)
        ]

    derive_walls_once :
        (seen : List GridPoint) (cells : List LayerCell)
        → count_where (is_point x y) (derive_walls lower width height spawn_x spawn_y seen cells)
          ≤ (if any_where (is_point x y) seen then 0 else 1)
    unfolding derive_walls
    derive_walls_once seen [] = ground arith
    derive_walls_once seen (c ∷ cells) =
        let p : GridPoint = record { x = c.x; y = c.y } in
        elim (Bool-cases (is_cell x y c)) [
          | inl here ↦
              let same_x : c.x ≡ x = ground (arith, here) in
              let same_y : c.y ≡ y = ground (arith, here) in
              ground (arith, derive_walls_once seen cells, derive_walls_once (p ∷ seen) cells)
          | inr elsewhere ↦
              ground (arith, derive_walls_once seen cells, derive_walls_once (p ∷ seen) cells)
        ]

  collision_cells_at :
      (x y : ℕ) (layers : LayerCells)
      → any_where (blocks x y) (collision_cells layers) ≡ any_where (layer_blocks x y) layers
  unfolding collision_cells
  collision_cells_at x y [] = refl
  collision_cells_at x y ((layer_id, cells) ∷ layers) = ground (
    arith,
    any_where-append (blocks x y) cells (collision_cells layers),
    collision_cells_at x y layers,
  )

  insert_layer_at :
      (x y : ℕ) (l : ℕ × List LayerCell) (layers : LayerCells)
      → any_where (layer_blocks x y) (insert_layer l layers)
        ≡ (layer_blocks x y l || any_where (layer_blocks x y) layers)
  unfolding insert_layer
  insert_layer_at x y l [] = ground arith
  insert_layer_at x y l (m ∷ layers) = ground (arith, insert_layer_at x y l layers)

  sort_layers_at :
      (x y : ℕ) (layers : LayerCells)
      → any_where (layer_blocks x y) (sort_layers layers) ≡ any_where (layer_blocks x y) layers
  unfolding sort_layers
  sort_layers_at x y [] = refl
  sort_layers_at x y (l ∷ layers) =
      ground (arith, insert_layer_at x y l (sort_layers layers), sort_layers_at x y layers)

  -- A point is a wall of the level, and once, if and only if layer 1 has a blocking asset there, the
  -- point is inside of the level, and it is not the spawn point.
  pub derive_wall_cells_lem :
      (layers : LayerCells) (width height spawn_x spawn_y x y : ℕ)
      → (any_where (is_point x y) (derive_wall_cells lower layers width height spawn_x spawn_y)
          ≡ (is_free width height spawn_x spawn_y x y && any_where (layer_blocks x y) layers))
        × (count_where (is_point x y) (derive_wall_cells lower layers width height spawn_x spawn_y)
            ≤ 1)
  unfolding derive_wall_cells
  derive_wall_cells_lem layers width height spawn_x spawn_y x y =
      let cells = collision_cells (sort_layers layers) in
      (
        derive_walls_at width height spawn_x spawn_y x y [] cells
            ∙ ap (λ b. is_free width height spawn_x spawn_y x y && b)
                (collision_cells_at x y (sort_layers layers) ∙ sort_layers_at x y layers),
        derive_walls_once width height spawn_x spawn_y x y [] cells,
      )
