-- ===== src/Characters/Spawn.antt =====
-- Where a character comes back to.
use game_gardens_of_karaxas.Base.{
  ℕ, ◌+◌, ◌-◌, ◌*◌, ◌/◌, ◌%◌, ◌≡◌, refl, ap, false, ◌&&◌, some, arith, ltb, nat_equality,
  string_equality, pair_equality, option_equality,
}
use game_gardens_of_karaxas.Levels.{Level}
use game_gardens_of_karaxas.Characters.{
  CharacterRow, tile_to_world, world_to_tile, resolve_world_spawn,
}

pub world_to_tile-tile_to_world : (tile : ℕ) → world_to_tile (tile_to_world tile) ≡ tile
unfolding world_to_tile tile_to_world
world_to_tile-tile_to_world tile =
    let quotient : (tile * 32 + 16 - 16) / 32 ≡ tile = omega arith in
    let rest : (tile * 32 + 16 - 16) % 32 ≡ 0 = omega arith in rw (quotient, rest) refl

-- A character whose location was saved in world coordinates, in the middle of a tile, comes back to that
-- tile and to the same coordinates, unless both numbers are small enough to be tiles of the level. The
-- level is not overridden.
pub saved_location_returns :
    {F : Type 0} (c : CharacterRow) (level : Level F) (x y : ℕ)
    → c.location_x ≡ some (tile_to_world x)
    → c.location_y ≡ some (tile_to_world y)
    → (ltb (tile_to_world x) level.width && ltb (tile_to_world y) level.height) ≡ false
    → resolve_world_spawn c level false ≡ record {
      tile_x = x;
      tile_y = y;
      world_x = tile_to_world x;
      world_y = tile_to_world y;
      source = "saved_world_location";
    }
saved_location_returns c level x y at_x at_y far =
    unfold resolve_world_spawn in
    rw (at_x, at_y)
      (rw far (
        ap
          (λ (p : ℕ × ℕ). record {
            tile_x = p.0;
            tile_y = p.1;
            world_x = tile_to_world x;
            world_y = tile_to_world y;
            source = "saved_world_location";
          })
          (ground (arith, world_to_tile-tile_to_world x, world_to_tile-tile_to_world y))))
