-- ===== src/Levels/Passages.antt =====
-- The points of stairs, ladders and elevators, and the walls.
use mathlib.Core.Path.{subst}
use game_gardens_of_karaxas.Base.{
  ℕ, ◌+◌, ◌≤◌, String, ◌≡◌, ◌⊎◌, inl, inr, refl, sym, ◌∙◌, Bool, true, false, not, ◌&&◌, none, some,
  List, [], ◌∷◌, arith, string_eq_iff, ◌==◌, nat_equality, string_equality, pair_equality,
  option_equality, if◌then◌else◌, Bool-cases, Option-cases, or_default, count_where, any_where,
}
use game_gardens_of_karaxas.Base.Dict.{get, put}
use game_gardens_of_karaxas.Base.Text.{strip}
use game_gardens_of_karaxas.Levels.{LayerCell, Transition, LayerCells, is_cell, is_point}
use game_gardens_of_karaxas.Levels.Layers.{
  is_collision_asset, is_transition_asset, transition_asset, is_supported_transition, place_asset,
  place_transitions, assign_transition_assets, derive_wall_cells,
}
use game_gardens_of_karaxas.Levels.Walls.{blocks, layer_blocks, derive_wall_cells_lem}

-- whether a transition of a known type stands at a point
abbrev pub leads_from : (String → String) → ℕ → ℕ → Transition → Bool
leads_from lower x y t =
    (t.x == x) && (t.y == y) && is_supported_transition (lower t.transition_type)

transition_asset-known :
    (t asset : String) → transition_asset t ≡ some asset → is_transition_asset asset ≡ true
transition_asset-known t asset h = elim (Bool-cases (t == "stairs")) [
  | inl stairs ↦ passage "stairs_passage" refl (ground (arith, h, stairs))
  | inr no_stairs ↦ elim (Bool-cases (t == "ladder")) [
    | inl ladder ↦ passage "ladder_passage" refl (ground (arith, h, no_stairs, ladder))
    | inr no_ladder ↦ elim (Bool-cases (t == "elevator")) [
      | inl elevator ↦
          passage "elevator_platform" refl (ground (arith, h, no_stairs, no_ladder, elevator))
      | inr none_known ↦ absurd (ground (arith, h, no_stairs, no_ladder, none_known))
    ]
  ]
]
  where
    passage :
        (a : String) → is_transition_asset a ≡ true → a ≡ asset → is_transition_asset asset ≡ true
    passage a known same = subst (λ b. is_transition_asset b ≡ true) same known

no_asset_unsupported : (t : String) → transition_asset t ≡ none → is_supported_transition t ≡ false
no_asset_unsupported t h = ground (arith, h)

module _ (lower : String → String) (x y : ℕ) where
  nobody :
      (cells : List LayerCell)
      → count_where (is_cell x y) cells ≡ 0
      → any_where (is_cell x y) cells ≡ false
  nobody [] h = refl
  nobody (c ∷ cells) h = ground (arith, nobody cells)

  nobody_counts :
      (cells : List LayerCell)
      → any_where (is_cell x y) cells ≡ false
      → count_where (is_cell x y) cells ≡ 0
  nobody_counts [] h = refl
  nobody_counts (c ∷ cells) h = ground (arith, nobody_counts cells)

  nobody_blocks :
      (cells : List LayerCell)
      → any_where (is_cell x y) cells ≡ false
      → any_where (blocks lower x y) cells ≡ false
  nobody_blocks [] h = refl
  nobody_blocks (c ∷ cells) h = ground (arith, nobody_blocks cells)

  place_asset_there :
      (asset : String) (cells : List LayerCell)
      → is_collision_asset (lower (strip asset)) ≡ false
      → count_where (is_cell x y) cells ≤ 1
      → any_where (blocks lower x y) (place_asset x y asset cells) ≡ false
  unfolding place_asset
  place_asset_there asset [] harmless once = ground (arith, harmless)
  place_asset_there asset (c ∷ cells) harmless once = elim (Bool-cases (is_cell x y c)) [
    | inr other ↦ rw other (ground (arith, other, harmless, once, place_asset_there asset cells))
    | inl here ↦
        let none_later : any_where (is_cell x y) cells ≡ false =
          nobody cells (ground (arith, once, here)) in
        rw (here, none_later) (ground (arith, harmless, nobody_blocks cells none_later))
  ]

  place_asset_elsewhere :
      (x' y' : ℕ) (asset : String) (cells : List LayerCell)
      → is_collision_asset (lower (strip asset)) ≡ false
      → any_where (blocks lower x y) cells ≡ false
      → any_where (blocks lower x y) (place_asset x' y' asset cells) ≡ false
  unfolding place_asset
  place_asset_elsewhere x' y' asset [] harmless free = ground (arith, harmless)
  place_asset_elsewhere x' y' asset (c ∷ cells) harmless free =
      ground (arith, place_asset_elsewhere x' y' asset cells)

  -- a cell is added only where none is
  place_asset_count :
      (x' y' : ℕ) (asset : String) (cells : List LayerCell)
      → count_where (is_cell x y) (place_asset x' y' asset cells)
        ≡ count_where (is_cell x y) cells
          + (if not (any_where (is_cell x' y') cells) && ((x' == x) && (y' == y)) then 1 else 0)
  unfolding place_asset
  place_asset_count x' y' asset [] = ground arith
  place_asset_count x' y' asset (c ∷ cells) = elim (Bool-cases (is_cell x' y' c)) [
    | inr other ↦ rw other (ground (arith, place_asset_count x' y' asset cells))
    | inl here ↦ elim (Bool-cases (any_where (is_cell x' y') cells)) [
      | inl later ↦
          rw (here, later) (ground (arith, here, later, place_asset_count x' y' asset cells))
      | inr last ↦ rw (here, last) (ground (arith, here, last))
    ]
  ]

  place_asset-once :
      (x' y' : ℕ) (asset : String) (cells : List LayerCell)
      → count_where (is_cell x y) cells ≤ 1
      → count_where (is_cell x y) (place_asset x' y' asset cells) ≤ 1
  place_asset-once x' y' asset cells once = elim (Bool-cases ((x' == x) && (y' == y))) [
    | inr other ↦ ground (arith, place_asset_count x' y' asset cells)
    | inl same ↦ ground (arith, place_asset_count x' y' asset cells, nobody_counts cells)
  ]

  still_led :
      (t : Transition) (ts : List Transition) (cells : List LayerCell)
      → transition_asset (lower t.transition_type) ≡ none
      → (any_where (blocks lower x y) cells ≡ false)
        ⊎ (any_where (leads_from lower x y) (t ∷ ts) ≡ true)
      → (any_where (blocks lower x y) cells ≡ false) ⊎ (any_where (leads_from lower x y) ts ≡ true)
  still_led t ts cells unknown (inl free) = inl free
  still_led t ts cells unknown (inr led) =
      inr (ground (arith, led, no_asset_unsupported (lower t.transition_type) unknown))

  led_behind :
      (t : Transition) (ts : List Transition) (asset : String) (cells : List LayerCell)
      → is_collision_asset (lower (strip asset)) ≡ false
      → count_where (is_cell x y) cells ≤ 1
      → (any_where (blocks lower x y) cells ≡ false)
        ⊎ (any_where (leads_from lower x y) (t ∷ ts) ≡ true)
      → (any_where (blocks lower x y) (place_asset t.x t.y asset cells) ≡ false)
        ⊎ (any_where (leads_from lower x y) ts ≡ true)
  led_behind t ts asset cells harmless once (inl free) =
      inl (place_asset_elsewhere t.x t.y asset cells harmless free)
  led_behind t ts asset cells harmless once (inr led) =
      elim (Bool-cases ((t.x == x) && (t.y == y))) [
        | inr other ↦ inr (ground (arith, led, other))
        | inl here ↦
            let same_x : t.x ≡ x = ground (arith, here) in
            let same_y : t.y ≡ y = ground (arith, here) in
            inl (
              subst (λ a. any_where (blocks lower x y) (place_asset a t.y asset cells) ≡ false)
                (sym same_x)
                (subst (λ b. any_where (blocks lower x y) (place_asset x b asset cells) ≡ false)
                  (sym same_y) (place_asset_there asset cells harmless once)))
      ]

  -- A transition at the point leaves no block there, and one at another point adds none.
  place_transitions-blocks :
      (ts : List Transition) (cells : List LayerCell)
      → ((a : String) → is_transition_asset a ≡ true → is_collision_asset (lower (strip a)) ≡ false)
      → count_where (is_cell x y) cells ≤ 1
      → (any_where (blocks lower x y) cells ≡ false) ⊎ (any_where (leads_from lower x y) ts ≡ true)
      → any_where (blocks lower x y) (place_transitions lower ts cells) ≡ false
  unfolding place_transitions
  place_transitions-blocks [] cells harmless once (inl free) = free
  place_transitions-blocks [] cells harmless once (inr never) = absurd (ground (arith, never))
  place_transitions-blocks (t ∷ ts) cells harmless once h =
      elim (Option-cases (transition_asset (lower t.transition_type))) [
        | inl unknown ↦
            rw (unknown, place_transitions)
              (place_transitions-blocks ts cells harmless once (still_led t ts cells unknown h))
        | inr (asset, known) ↦
            rw (known, place_transitions)
              (place_transitions-blocks ts (place_asset t.x t.y asset cells) harmless
                (place_asset-once t.x t.y asset cells once)
                (led_behind t ts asset cells
                  (harmless asset (transition_asset-known (lower t.transition_type) asset known))
                  once h))
      ]

no_other :
    (lower : String → String) (x y : ℕ) (layers : LayerCells)
    → count_where (λ (l : ℕ × List LayerCell). l.0 == 1) layers ≡ 0
    → any_where (layer_blocks lower x y) layers ≡ false
no_other lower x y [] none_there = refl
no_other lower x y (l ∷ layers) none_there = ground (arith, no_other lower x y layers)

harmless_passage : (a : String) → is_transition_asset a ≡ true → is_collision_asset a ≡ false
harmless_passage a h = elim (Bool-cases (a == "stairs_passage")) [
  | inl stairs ↦ literal "stairs_passage" refl ((string_eq_iff a "stairs_passage").0 stairs)
  | inr no_stairs ↦ elim (Bool-cases (a == "ladder_passage")) [
    | inl ladder ↦ literal "ladder_passage" refl ((string_eq_iff a "ladder_passage").0 ladder)
    | inr no_ladder ↦
        literal "elevator_platform" refl
          ((string_eq_iff a "elevator_platform").0 (ground (arith, h, no_stairs, no_ladder)))
  ]
]
  where
    literal : (b : String) → is_collision_asset b ≡ false → a ≡ b → is_collision_asset a ≡ false
    literal b clear same = subst (λ c. is_collision_asset c ≡ false) (sym same) clear

put-blocks :
    (lower : String → String) (x y : ℕ) (cells : List LayerCell) (layers : LayerCells)
    → count_where (λ (l : ℕ × List LayerCell). l.0 == 1) layers ≤ 1
    → any_where (layer_blocks lower x y) (put 1 cells layers) ≡ any_where (blocks lower x y) cells
unfolding put
put-blocks lower x y cells [] once = ground arith
put-blocks lower x y cells ((i, old) ∷ layers) once = elim (Bool-cases (i == 1)) [
  | inr other ↦ rw other (ground (arith, other, put-blocks lower x y cells layers))
  | inl here ↦ rw here (ground (arith, here, once, no_other lower x y layers))
]

-- A point from which a transition leads is no wall of the level, whatever stood there in layer 1, where
-- that layer has one cell at most at the point. The keys of the layers are distinct, and the names of
-- the passages are lower case.
pub passage_is_no_wall :
    (lower : String → String) (layers : LayerCells) (transitions : List Transition)
    (width height spawn_x spawn_y x y : ℕ)
    → ((a : String) → is_transition_asset a ≡ true → lower (strip a) ≡ a)
    → count_where (λ (l : ℕ × List LayerCell). l.0 == 1) layers ≤ 1
    → count_where (is_cell x y) (or_default (get 1 layers) []) ≤ 1
    → any_where (leads_from lower x y) transitions ≡ true
    → any_where (is_point x y) (
        derive_wall_cells lower
          (assign_transition_assets lower layers transitions)
          width
          height
          spawn_x
          spawn_y)
      ≡ false
passage_is_no_wall lower layers transitions width height spawn_x spawn_y x y lower_case keys once
      led =
    let harmless : (a : String)
        → is_transition_asset a ≡ true
        → is_collision_asset (lower (strip a)) ≡ false =
      λ a known.
        subst (λ b. is_collision_asset b ≡ false) (sym (lower_case a known))
          (harmless_passage a known) in
    let cells = place_transitions lower transitions (or_default (get 1 layers) []) in
    let free : any_where (layer_blocks lower x y)
          (assign_transition_assets lower layers transitions)
        ≡ false =
      unfold assign_transition_assets in
      put-blocks lower x y cells layers keys
      ∙ place_transitions-blocks lower x y transitions (or_default (get 1 layers) []) harmless once
          (inr led) in
    (derive_wall_cells_lem lower (assign_transition_assets lower layers transitions) width height
      spawn_x spawn_y x y).0
    ∙ rw free (ground arith)
