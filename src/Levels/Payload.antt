-- ===== src/Levels/Payload.antt =====
-- api/routes/levels.py: the objects and the transitions of a request, and those of a stored level.
use game_gardens_of_karaxas.Base.{
  ℕ, String, Bool, not, ◌||◌, Option, List, [], ◌∷◌, ltb, leb, ◌==◌, nat_equality, string_equality,
  pair_equality, option_equality, if◌then◌else◌, is_none, length, first_where, any_where,
}
use game_gardens_of_karaxas.Base.Text.{strip, is_empty}
use game_gardens_of_karaxas.Base.Validated.{Validated, accepted, denied_with, map_checked}
use game_gardens_of_karaxas.Levels.{
  GridPoint, LayerCell, Transition, LayerCells, LevelSaveRequest, Level, ObjectPlacement,
  same_transition,
}
use game_gardens_of_karaxas.Levels.Layers.{
  is_supported_transition, layer_id_max, asset_of, walls_as_cells,
}

abbrev pub schema_version_layered : ℕ
schema_version_layered = 2

abbrev pub schema_version_hybrid : ℕ
schema_version_hybrid = 3

abbrev pub max_object_placements : ℕ
max_object_placements = 100_000

module _ (lower : String → String) where
  -- the loop of `_parse_stored_transitions`
  unfoldable pub parse_transitions : ℕ → ℕ → List Transition → List Transition → List Transition
  parse_transitions width height seen [] = []
  parse_transitions width height seen (t ∷ ts) =
      let kept : Transition = record t { transition_type = lower (strip t.transition_type) } in
      let skip = parse_transitions width height seen ts in
      let keep = kept ∷ parse_transitions width height (kept ∷ seen) ts in
      if not (is_supported_transition kept.transition_type)
        || (t.destination_level_id == 0)
        || leb width t.x
        || leb height t.y
      then skip
      else if any_where (same_transition kept) seen
      then skip
      else keep

  unfoldable pub parse_cells : ℕ → List LayerCell → List LayerCell
  parse_cells layer_id [] = []
  parse_cells layer_id (c ∷ cells) =
      record c { asset_key = asset_of lower layer_id c.asset_key } ∷ parse_cells layer_id cells

  unfoldable pub parse_layers : LayerCells → LayerCells
  parse_layers [] = []
  parse_layers ((layer_id, cells) ∷ layers) =
      let rest = parse_layers layers in
      if ltb layer_id_max layer_id then rest else (layer_id, parse_cells layer_id cells) ∷ rest

abbrev pub legacy_layers_from_wall_cells : List GridPoint → LayerCells
legacy_layers_from_wall_cells [] = []
legacy_layers_from_wall_cells (p ∷ ps) = (1, walls_as_cells (p ∷ ps)) ∷ []

-- `db.get(Level, …)`
abbrev pub level_by_id : {F : Type 0} → ℕ → List (Level F) → Option (Level F)
level_by_id {F} i = first_where (λ (l : Level F). l.id == i)

module _ {F : Type 0} (lower : String → String) where
  -- the loop of `_normalize_objects_from_payload`; `at_least x n` is the float comparison x >= n
  unfoldable pub normalize_objects :
      (F → ℕ → Bool)
      → ℕ
      → ℕ
      → List String
      → List (ObjectPlacement F)
      → Validated (List (ObjectPlacement F))
  normalize_objects at_least width height seen [] = accepted []
  normalize_objects at_least width height seen (item ∷ items) =
      let object_id = lower (strip item.object_id) in
      let rest = normalize_objects at_least width height (object_id ∷ seen) items in
      if any_where (λ (i : String). i == object_id) seen
      then denied_with 422 "duplicate_object_id"
      else if at_least item.transform.x width || at_least item.transform.y height
      then denied_with 422 "object_out_of_bounds"
      else map_checked
          (λ more.
            record item { object_id = object_id; asset_key = lower (strip item.asset_key) } ∷ more)
          rest

  unfoldable pub normalize_objects_from_payload :
      (F → ℕ → Bool) → LevelSaveRequest F → Validated (List (ObjectPlacement F))
  normalize_objects_from_payload at_least payload =
      if length payload.objects == 0
      then accepted []
      else if ltb payload.schema_version schema_version_hybrid
      then denied_with 422 "invalid_schema_version_for_objects"
      else if ltb max_object_placements (length payload.objects)
      then denied_with 422 "too_many_object_placements"
      else normalize_objects at_least payload.width payload.height [] payload.objects

  -- the loop of `_normalize_transitions_from_payload`; `seen` are the transitions that it has kept
  unfoldable pub normalize_transitions :
      ℕ → ℕ → List (Level F) → List Transition → List Transition → Validated (List Transition)
  normalize_transitions width height levels seen [] = accepted []
  normalize_transitions width height levels seen (t ∷ ts) =
      let kept : Transition = record t { transition_type = lower (strip t.transition_type) } in
      let skip = normalize_transitions width height levels seen ts in
      let keep =
        map_checked (λ more. kept ∷ more)
          (normalize_transitions width height levels (kept ∷ seen) ts) in
      if leb width t.x || leb height t.y
      then denied_with 422 "invalid_transition_cell"
      else if not (is_supported_transition kept.transition_type)
      then denied_with 422 "invalid_transition_type"
      else if is_none (level_by_id t.destination_level_id levels)
      then denied_with 404 "transition_destination_not_found"
      else if any_where (same_transition kept) seen
      then skip
      else keep

  unfoldable pub normalize_transitions_from_payload :
      LevelSaveRequest F → List (Level F) → Validated (List Transition)
  normalize_transitions_from_payload payload levels =
      normalize_transitions payload.width payload.height levels [] payload.transitions

  unfoldable pub parse_stored_transitions : Level F → List Transition
  parse_stored_transitions level =
      parse_transitions lower level.width level.height [] level.transitions

  -- the loop of `_parse_stored_objects`
  unfoldable pub parse_objects : List String → List (ObjectPlacement F) → List (ObjectPlacement F)
  parse_objects seen [] = []
  parse_objects seen (item ∷ items) =
      let object_id = lower (strip item.object_id) in
      let asset = lower (strip item.asset_key) in
      let skip = parse_objects seen items in
      let rest = parse_objects (object_id ∷ seen) items in
      if is_empty object_id || any_where (λ (i : String). i == object_id) seen
      then skip
      else if is_empty asset || ltb layer_id_max item.layer_id
      then rest
      else record item { object_id = object_id; asset_key = asset } ∷ rest

  unfoldable pub parse_stored_objects : Level F → List (ObjectPlacement F)
  parse_stored_objects level = parse_objects [] level.object_placements

  unfoldable pub parse_stored_layers : Level F → LayerCells
  parse_stored_layers level =
      if length level.layer_cells == 0
      then legacy_layers_from_wall_cells level.wall_cells
      else parse_layers lower level.layer_cells
