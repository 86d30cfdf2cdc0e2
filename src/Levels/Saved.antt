-- ===== src/Levels/Saved.antt =====
-- The levels behind `save_level`.
use game_gardens_of_karaxas.Base.{
  ℕ, ◌+◌, String, ◌≡◌, inl, inr, refl, Bool, true, ◌&&◌, ◌||◌, List, [], ◌∷◌, arith, ltb, leb,
  nat_equality, string_equality, pair_equality, option_equality, Bool-cases, is_none, All,
  any_where,
}
use mathlib.Core.Path.{subst}
use game_gardens_of_karaxas.Base.Text.{strip, is_empty}
use game_gardens_of_karaxas.Base.Validated.{
  Validated, accepted, denied_with, map_checked, if_accepted,
}
use game_gardens_of_karaxas.Levels.{
  Transition, LayerCells, LevelSaveRequest, Level, ObjectPlacement, same_transition,
}
use game_gardens_of_karaxas.Levels.Layers.{
  is_supported_transition, normalize_layers_from_payload, assign_transition_assets,
}
use game_gardens_of_karaxas.Levels.Payload.{
  normalize_transitions, normalize_transitions_from_payload, normalize_objects_from_payload,
  level_by_id,
}
use game_gardens_of_karaxas.Levels.Save.{
  LevelTable, OneRow, no_row, one_row, several_rows, one_of, with_name, level_row, write_level,
  checked_payload, save_level, number_or, max_order,
}
use game_gardens_of_karaxas.Levels.Walls.{derive_wall_cells_lem}
use game_gardens_of_karaxas.Levels.Valid.{
  leads_on, IsValid, AllValid, append-AllValid, replace-AllValid,
}

abbrev AllAccepted : (Transition → Type 0) → Validated (List Transition) → Type 0
AllAccepted P (accepted ts) = All P ts
AllAccepted P (denied_with _ _) = Unit

AllAccepted-cons :
    (P : Transition → Type 0) (t : Transition) (r : Validated (List Transition))
    → P t
    → AllAccepted P r
    → AllAccepted P (map_checked (λ more. t ∷ more) r)
AllAccepted-cons P t (accepted ts) first others = (first, others)
AllAccepted-cons P t (denied_with _ _) first others = tt

module _ {F : Type 0} where
  module _ (lower : String → String) where
    normalized_lead_on :
        (width height : ℕ) (levels : List (Level F)) (seen ts : List Transition)
        → AllAccepted
            (λ t. leads_on levels width height t ≡ true)
            (normalize_transitions lower width height levels seen ts)
    unfolding normalize_transitions
    normalized_lead_on width height levels seen [] = tt
    normalized_lead_on width height levels seen (t ∷ ts) =
        let kept : Transition = record t { transition_type = lower (strip t.transition_type) } in
        elim (Bool-cases (leb width t.x || leb height t.y)) [
          | inl outside ↦ rw outside tt
          | inr inside ↦ elim (Bool-cases (is_supported_transition kept.transition_type)) [
            | inr unknown ↦ rw (inside, unknown) tt
            | inl supported ↦
                elim (Bool-cases (is_none (level_by_id t.destination_level_id levels))) [
                  | inl missing ↦ rw (inside, supported, missing) tt
                  | inr there ↦ elim (Bool-cases (any_where (same_transition kept) seen)) [
                    | inl again ↦
                        rw (inside, supported, there, again)
                          (normalized_lead_on width height levels seen ts)
                    | inr new ↦
                        rw (inside, supported, there, new)
                          (AllAccepted-cons (λ u. leads_on levels width height u ≡ true) kept
                            (normalize_transitions lower width height levels (kept ∷ seen) ts)
                            (ground (arith, inside, supported, there))
                            (normalized_lead_on width height levels (kept ∷ seen) ts))
                  ]
                ]
          ]
        ]

    row-IsValid :
        (id order user : ℕ) (payload : LevelSaveRequest F) (layers : LayerCells)
        (objects : List (ObjectPlacement F)) (ts : List Transition) (levels : List (Level F))
        → (ltb payload.spawn_x payload.width && ltb payload.spawn_y payload.height) ≡ true
        → All (λ t. leads_on levels payload.width payload.height t ≡ true) ts
        → IsValid levels (level_row lower id order user payload layers objects ts)
    unfolding level_row
    row-IsValid id order user payload layers objects ts levels spawn lead = record {
      spawn_inside = spawn;
      walls_inside = λ x y h. ground (
        arith,
        h,
        (derive_wall_cells_lem lower (assign_transition_assets lower layers ts) payload.width
            payload.height payload.spawn_x payload.spawn_y x y).0,
      );
      transitions_lead_on = lead;
    }

  module _ (lower : String → String) (user : ℕ) (payload : LevelSaveRequest F) where
    write-AllValid :
        (layers : LayerCells) (objects : List (ObjectPlacement F)) (ts : List Transition)
        (table : LevelTable F)
        → (ltb payload.spawn_x payload.width && ltb payload.spawn_y payload.height) ≡ true
        → All (λ t. leads_on table.levels payload.width payload.height t ≡ true) ts
        → AllValid table.levels
        → AllValid (write_level lower user payload layers objects ts table).1.levels
    write-AllValid layers objects ts table spawn lead all =
        by_match (one_of (with_name lower (strip payload.name) table.levels)) refl
      where
        by_match :
            (found : OneRow (Level F))
            → one_of (with_name lower (strip payload.name) table.levels) ≡ found
            → AllValid (write_level lower user payload layers objects ts table).1.levels
        by_match no_row h =
            let order = number_or payload.order_index (max_order table.levels + 1) in
            unfold write_level in
            rw (h, write_level)
              (append-AllValid table.levels
                (level_row lower table.next_id order user payload layers objects ts) all
                (row-IsValid lower table.next_id order user payload layers objects ts table.levels
                  spawn lead))
        by_match (one_row old) h =
            let order = number_or payload.order_index old.order_index in
            unfold write_level in
            rw (h, write_level)
              (unfold level_row in
                replace-AllValid table.levels
                  (level_row lower old.id order user payload layers objects ts) all
                  (row-IsValid lower old.id order user payload layers objects ts table.levels spawn
                    lead))
        by_match several_rows h = unfold write_level in rw (h, write_level) all

    abbrev AllChecked :
        List (Level F)
        → Validated (LayerCells × List (ObjectPlacement F) × List Transition)
        → Type 0
    AllChecked levels (accepted (layers, objects, ts)) =
        ((ltb payload.spawn_x payload.width && ltb payload.spawn_y payload.height) ≡ true)
        × All (λ t. leads_on levels payload.width payload.height t ≡ true) ts
    AllChecked levels (denied_with _ _) = Unit

    payload_checked :
        (at_least : F → ℕ → Bool) (levels : List (Level F))
        → AllChecked levels (checked_payload lower at_least payload levels)
    payload_checked at_least levels = elim (Bool-cases (is_empty (strip payload.name))) [
      | inl nameless ↦ unfold checked_payload in rw (nameless, checked_payload) tt
      | inr has_name ↦
          elim (Bool-cases
            (leb payload.width payload.spawn_x || leb payload.height payload.spawn_y)) [
              | inl outside ↦ unfold checked_payload in rw (has_name, outside, checked_payload) tt
              | inr inside ↦
                  unfold checked_payload in
                  rw (has_name, inside, checked_payload)
                    (parts (normalize_layers_from_payload lower payload)
                      (normalize_objects_from_payload lower at_least payload)
                      (normalize_transitions_from_payload lower payload levels)
                      (ground (arith, inside))
                      (unfold normalize_transitions_from_payload in
                        normalized_lead_on lower payload.width payload.height levels []
                          payload.transitions))
            ]
    ]
      where
        parts :
            (layers : Validated LayerCells) (objects : Validated (List (ObjectPlacement F)))
            (ts : Validated (List Transition))
            → (ltb payload.spawn_x payload.width && ltb payload.spawn_y payload.height) ≡ true
            → AllAccepted (λ t. leads_on levels payload.width payload.height t ≡ true) ts
            → AllChecked levels (
                if_accepted layers
                  (λ l. if_accepted objects (λ o. map_checked (λ t. (l, o, t)) ts)))
        parts (denied_with _ _) objects ts spawn lead = tt
        parts (accepted layers) (denied_with _ _) ts spawn lead = tt
        parts (accepted layers) (accepted objects) (denied_with _ _) spawn lead = tt
        parts (accepted layers) (accepted objects) (accepted ts) spawn lead = (spawn, lead)

    -- `save_level` keeps all levels valid, whatever is sent and however it ends: the spawn point of a
    -- level is inside, its walls are inside and not on the spawn point, and its transitions stand inside,
    -- have a known type and lead to levels that exist.
    pub save_level-IsValid :
        (at_least : F → ℕ → Bool) (table : LevelTable F)
        → AllValid table.levels
        → AllValid (save_level lower at_least user payload table).1.levels
    save_level-IsValid at_least table all =
        by_checks (checked_payload lower at_least payload table.levels) refl
      where
        by_checks :
            (r : Validated (LayerCells × List (ObjectPlacement F) × List Transition))
            → checked_payload lower at_least payload table.levels ≡ r
            → AllValid (save_level lower at_least user payload table).1.levels
        by_checks (denied_with status code) h = unfold save_level in rw (h, save_level) all
        by_checks (accepted (layers, objects, ts)) h =
            let (spawn, lead) =
              subst (AllChecked table.levels) h (payload_checked at_least table.levels) in
            unfold save_level in
            rw (h, save_level) (write-AllValid layers objects ts table spawn lead all)
